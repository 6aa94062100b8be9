-- ===== src/Gateway.antt =====
-- api/main.py, the application, and api/models.py, what it accepts.
pub mod Health
pub mod Lifespan
pub mod Models
mod Reads
pub mod Ensure
pub mod Valid
pub mod Body
pub mod Client
pub mod Loss
pub mod Pipeline
pub mod Journey
pub mod Stored
pub mod Tracing
pub mod Replies
mod ClientTests
mod StoredTests
mod Tests
