-- ===== src/Lib.antt =====
-- Models of the Python programs in this repository that watch over databases: the inspection of a
-- change data capture (CDC) pipeline, the replication between servers, the upkeep of partitions,
-- the vacuum job, the clean-up of old rows and the mails for alerts; and of those around them that
-- measure calls, count rows in files, download objects, fetch files from a Samba server and try
-- out the listener of an availability group.
--
-- The parts, and the files that model them:
--   kafka/cdc/src/main.py: `Cdc`. Its state is the dict `connections` and a log of all calls that
--     leave the program (`Cdc/State.antt`). `Cdc/Connectors.antt` gathers the data sources from
--     Kafka Connect (load_properties to get_kafka_connect_all_topics); `Cdc/Connection.antt` has
--     get_sqlserver_connection and get_postgres_connection; `Cdc/SqlServer.antt` the functions from
--     check_sqlserver_cdc to check_and_repair_sqlserver_datasource; `Cdc/Restart.antt` the restart
--     of failed tasks; `Cdc/Lag.antt` check_kafka2postgres_sync; `Cdc/Postgres.antt` the replication
--     slots; `Cdc/Topics.antt` the topic audit; `Cdc/Sync.antt` the change times of
--     check_sqlserver2kafka_sync; `Cdc/Main.antt` main, which runs these in turn.
--   kafka/cdc/src/sanitization.py: `Sanitization.antt`, from replace_config to process_connectors;
--     `Sanitization/Parse.antt` has parse_credentials and the main block.
--   kafka/cdc/src/metrics.py: `Metrics.antt`, with the decorator monitor and the functions it decorates.
--   gpdb/cron/send_alert.py: `Alerts.antt`, with the alert functions and the main block.
--   gpdb/cron/archive_partition.py: `Partition`. `Partition/Manager.antt` has the methods of
--     PartitionManager, `Partition/Jobs.antt` partition_migrate and partition_governance.
--   gpdb/cron/vacuum_analyse.py: `Vacuum.antt`, with class Vaccum and main.
--   postgres/script/delete_table.py: `Cleanup.antt`, with its functions and its main block.
--   mssql/replication/main.py: `Lineage`. `Lineage/State.antt` has the pool of connections, the dict
--     of visited servers and the calls; `Lineage/Servers.antt` the functions from connect_sql_server
--     to drop_inactive_subscription; `Lineage/Traversal.antt` class LineageGraph, traverse_lineage,
--     and main with its report.
--   parquet/diff-parquet/main.py: `Parquet`. `Parquet/Times.antt` has the functions up to
--     is_within_time_range, `Parquet/Hours.antt` those that count by hour, `Parquet/Bucket.antt` the
--     cache and the main loop.
--   minio/downloader/main.py: `Download.antt`, with download_object and batch_download as steps of
--     threads in any order.
--   samba/test/src: `Samba`. `Samba.antt` has the calls and the local files that both programs use,
--     `Samba/Checks.antt` the validators of main.py, `Samba/Server.antt` its calls and routes, and
--     `Samba/Script.antt` main2.py.
--   mssql/test/ag_listener/main.py: `Listener`. `Listener/Client.antt` has class SqlClient and the
--     operations do_create to do_delete, `Listener/Worker.antt` worker_main.
--   `Base` holds what the parts share: Python's dicts, sets, lists and texts, statements that change
--   a state and may raise (`Base/Effect.antt`), what such statements keep true (`Base/Effect/
--   Keeps.antt`) and what they add to a log (`Base/Effect/Emits.antt`); `Base/Effect/Returns.antt`, `Ensures.antt` and `Total.antt`
--   beside them are about values and about statements that return.
--
-- Each program but `Download` has a record `Env` of what it asks of the outside: databases, Kafka
-- Connect, the clock, the parsers of libraries. An answer is a function of the call and of the
-- calls made before it, and may be an exception; so a database may change under the program. A
-- handler `try … except` is a statement that keeps the state in which its body raised. The
-- functions of one file call those of another just as in the source; `Cdc` uses the pool of
-- connections in all its parts. In `Download` the outcome of a call is left open by a step
-- relation, and threads may move in any order.
--
-- Numbers are natural numbers. Subtractions of times are moved to the other side of a comparison;
-- the only differences that remain are those of bounds of a range, where the end is the later one,
-- the hour that `Parquet/Hours.antt` takes off a time that is known to be later, what is left
-- of a file, and how many ids stand before the last 500, which is none where there are fewer. Two loops take fuel:
-- `precreate_ahead`, for which a round for each range that falls short of twenty lengths is
-- enough, and `delete_loop`, for which one round more than the full batches is enough.
-- `traverse_lineage` takes fuel for the depth of its recursion, and one more than the servers that
-- can be reached is enough. The loops over the chunks of a file take fuel, of which a round for
-- each byte and one more is enough for the script; that of the service ends in its first round. The retry loops of the listener's client run as
-- long as the server fails; with fuel for one call more than may still fail they end. The retries
-- of `pick_topic` are counted down, and the endless loop of a worker is given a number of rounds.
-- All other loops go over lists.
--
-- Sets are lists; where the program iterates over a set, the order is that of the list. What is
-- only printed or logged is left out, and so are the readings of the clock for such output.
-- Regular expressions of a rerouting rule and for the names of files, the property file parser,
-- time zones and the SQL inside the databases are parameters. Not modelled are the functions of
-- kafka/cdc/src/main.py that nothing calls, and the other programs of the repository: the helpers
-- beside parquet/diff-parquet/main.py, rabbitmq and the tests of tools. Of
-- mssql/test/ag_listener/main.py the start of the threads and the lock, which only the end of the
-- program contends for, are left out: a worker has a client of its own. Shell scripts, Dockerfiles
-- and configurations have no counterpart here.
pub mod Base
pub mod Cdc
pub mod Partition
pub mod Vacuum
pub mod Cleanup
pub mod Samba
pub mod Sanitization
pub mod Alerts
pub mod Download
pub mod Lineage
pub mod Listener
pub mod Metrics
pub mod Parquet
mod Tests
