-- ===== src/Partition.antt =====
-- gpdb/cron/archive_partition.py: moving old partitions of Greenplum tables to the cold tablespace,
-- and keeping their newest partitions within bounds.
pub mod State
pub mod Manager
pub mod Jobs
