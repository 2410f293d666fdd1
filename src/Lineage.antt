-- ===== src/Lineage.antt =====
-- mssql/replication/main.py: the servers that ship logs or replicate to each other are visited one
-- after the other, and what flows between their databases is written to a graph database.
pub mod State
pub mod Servers
pub mod Traversal
