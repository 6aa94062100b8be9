-- ===== src/Sdk.antt =====
-- The client library, sdk/logger.py: how a log record becomes an event, the handler's buffer, and
-- the threads that share it.
pub mod Event
pub mod Handler
pub mod Buffer
pub mod Threads
pub mod Calls
pub mod Drained
mod Tests
