-- ===== src/Gateway/Stored.antt =====
-- From the API to the table: consumers/log_writer.py on the messages that api/kafka/producer.py sends.
use log_foundry.Consumers.Kafka.{Kafka}
use log_foundry.Consumers.LogWriter.Row.{Row}
