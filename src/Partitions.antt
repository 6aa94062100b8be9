-- ===== src/Partitions.antt =====
-- scripts/manage_partitions.py: the monthly partitions of the table `logs`.
pub mod Calendar
pub mod Names
pub mod Manage
pub mod Plan
pub mod Retention
mod Tests
