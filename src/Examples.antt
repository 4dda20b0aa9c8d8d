-- ===== src/Examples.antt =====
-- Each property at a concrete input.
mod Samples
mod Web
mod Sweep
mod Login
mod Pool
mod Params
mod Rows
mod Process
mod Inputs
mod Requests
mod Fetching
mod Serving
mod Painting
