-- ===== src/Consumers/LogWriter.antt =====
-- consumers/log_writer.py: `LogWriterConsumer`, which writes the log events to PostgreSQL in
-- batches. Its `_consume_loop` replaces that of the base class.
pub mod Row
pub mod Insert
pub mod Sorted
mod Settles
pub mod Batch
mod Calm
mod Advance
pub mod Loop
pub mod Loss
