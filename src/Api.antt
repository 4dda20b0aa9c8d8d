-- ===== src/Api.antt =====
-- internal/api: the limits on requests, and what a handler does to the store and the files.
pub mod ProbeLimit
pub mod Guards
pub mod Create
pub mod Replies
pub mod Downloads
pub mod Files
pub mod Routes
pub mod Handlers
