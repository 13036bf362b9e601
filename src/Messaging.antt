-- ===== src/Messaging.antt =====
-- The loop of every Kafka consumer (portfolio_common/kafka_consumer.py).
pub mod Consumer
pub mod Sends
pub mod Fates
mod Tests
