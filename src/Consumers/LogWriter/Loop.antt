-- ===== src/Consumers/LogWriter/Loop.antt =====
-- consumers/log_writer.py: `_consume_loop` delivers at least once while the pool hands out
-- connections.
use log_foundry.Prelude.{All}
use log_foundry.Consumers.Kafka.{Kafka}
use log_foundry.Consumers.Payload.{Reader}
use log_foundry.Consumers.Base.{Run}
use log_foundry.Consumers.LogWriter.Row.{Row}
use log_foundry.Consumers.LogWriter.Insert.{Database}
use log_foundry.Consumers.LogWriter.Batch.{Done}

module _ {S : Type 0} (k : Kafka S) (db : Database S k) (rd : Reader) where
  -- Every message that was delivered, and every one that is committed, is done.
  pub record IsSafe (r : Run S) : Type 0 where
    pub delivered : All (Done k db rd r) (k.delivered r.world)
    pub committed : All (Done k db rd r) (k.committed r.world)
