-- ===== src/RateLimiter.antt =====
-- api/middleware/rate_limiter.py: the sliding-window limiter. `Redis` is the part of the server that
-- its Lua scripts call, `Window` the limiter that they should implement.
pub mod Redis
pub mod Script
pub mod Window
mod Tally
mod Tracks
mod Same
mod Answers
pub mod Refines
mod Simple
mod Tests
