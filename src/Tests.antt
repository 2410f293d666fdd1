-- ===== src/Tests.antt =====
-- Runs of the definitions on concrete data, and the theorems at such data.
mod CdcRuns
mod TableRuns
mod TopicRuns
mod PartitionRuns
mod JobRuns
mod LineageRuns
mod AlertRuns
mod DownloadRuns
mod MetricRuns
mod ParquetRuns
mod SambaRuns
mod ListenerRuns
