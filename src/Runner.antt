-- ===== src/Runner.antt =====
-- internal/runner: what the runners compute around the programs that they start.
pub mod Texts
pub mod Names
pub mod Lines
pub mod Ring
pub mod Capped
pub mod Moves
pub mod Process
pub mod Numerals
pub mod Arguments
pub mod Ffmpeg
pub mod YtDlp
pub mod Image
