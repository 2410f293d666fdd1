-- ===== src/Parquet.antt =====
-- parquet/diff-parquet/main.py: how many rows of the files in a bucket fall into each hour.
pub mod State
pub mod Times
pub mod Hours
pub mod Bucket
