-- ===== src/Cli.antt =====
-- sdk/cli.py: the command line client.
pub mod Since
pub mod Tail
pub mod Once
pub mod Account
pub mod Stats
pub mod Shows
pub mod Format
pub mod Asks
pub mod Answered
mod AskTests
mod Tests
