-- ===== src/Cdc.antt =====
-- kafka/cdc/src/main.py: the inspection of the CDC pipeline from SQL Server and PostgreSQL through
-- Kafka Connect to PostgreSQL.
pub mod State
pub mod Connection
pub mod SqlServer
pub mod Restart
pub mod Lag
pub mod Postgres
pub mod Topics
pub mod Connectors
pub mod Sync
pub mod Main
