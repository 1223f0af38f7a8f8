-- ===== src/Lib.antt =====
-- A model of the AA metadata worker: the service that downloads the metadata releases of Anna's
-- Archive, imports them into PostgreSQL, and is controlled from a dashboard through tables of the same
-- database.
--
-- The parts and how they interact. A pass (sync/run.py) chooses the newest release of each collection
-- from a manifest (sync/discovery.py), asks the storage guard (sync/storage_guard.py) whether it may be
-- downloaded, downloads it, and imports the payload (sync/importer.py): each line is parsed by an
-- adapter into records, the records are merged by MD5 (common/records.py) after their fields were
-- normalized (common/normalize.py), and written in batches. All progress stands in tables
-- (sync/state.py). The worker (sync/worker.py) starts a pass by a daily schedule or on a command, which
-- the control routes (app/routes/control.py) queue.
--
-- Where each part is modelled:
-- - Prelude, Prelude/*: lists, dictionaries, Python's order of strings, `sorted`.
-- - Result: exceptions as values. Unicode: Python's character tables, a parameter.
-- - Records, Records/*: common/records.py. `merge_records` returns a `Result`, since it can raise.
-- - Normalize, Normalize/*: common/normalize.py. Languages: common/languages.py.
-- - Database: the tables of migrations/*.sql as one record, `Db`.
-- - State/*: sync/state.py, one function from `Db` to `Db` per operation, under its own name;
--   State/Jobs/Exclusive has the steps of the API and of the analysis worker on its queue as a
--   relation.
-- - Sources, Sources/*: sync/sources, one module per adapter and Sources/Registry for its `__init__`.
--   Sources/Json is a value of `json.loads` with Python's operations on it, Sources/Fields the
--   normalization at such a value, Sources/Base the base class.
-- - Importer/Params, Importer/Batch, Importer/Loop: sync/importer.py. `Import` holds the local
--   variables of `import_release`, `Event` is a line of the payload, `flush` its inner function.
-- - Importer/Frames: the frames and lines of a payload, `_iter_jsonl_frames` and `iter_jsonl`.
-- - Discovery: sync/discovery.py. Storage: sync/storage_guard.py.
-- - Run, Run/*: sync/run.py. `World` is the database, the payload files, the advisory lock and the
--   summary; Run/Plan, Run/Payload, Run/Download and Run/Sync are its phases. The threads of a pooled
--   download are a sequence of steps in any order.
-- - FilterAnalysis: sync/filter_analysis.py, with `subcollection_of` of sync/sources/uploads.py.
-- - Torrent: the stall detection of sync/torrent_client.py, over a sequence of samples.
-- - Search: app/search.py, the parameters of the statement and the pages.
-- - Worker/Schedule, Worker/Poller, Worker/Loop: sync/worker.py; a round of the worker is `round`.
-- - Control: app/routes/control.py, one function per route that changes state.
-- - Migrations: common/db.py. Auth: the middleware of app/main.py. CountCache: the cached counts of
--   app/routes/dashboard.py, with requests and refresh threads as a step relation.
-- - Cli, Cli/*: sync/cli.py, the commands run, retry and purge-sources.
-- - Examples, Examples/*: the theorems applied to concrete data.
--
-- Conventions. A text is the list of its code points and a `bytes` the list of its bytes. An
-- instant is a number of seconds, of which `now` is that of the running transaction; in
-- Worker/Schedule it is a number of microseconds. Numbers of the program that are fractions (the
-- abort rate, a size times 1.05) are fractions of natural numbers, compared exactly. A loop of
-- the program is structural recursion over the data that it runs over, with two exceptions: following
-- the pages of a search has a bound, and the scan for frames has fuel, one step more than the payload
-- has bytes; both are proved to be enough. Rows that another
-- transaction has locked are a test that `FOR UPDATE SKIP LOCKED` passes over.
--
-- What is not modelled: libtorrent, zstandard, the UTF-8 decoder, `json.loads`, the XML parser, SHA-256,
-- `repr`, HTTP and the disk are parameters; column types do not refuse values; an `aacid` or `ipfs_cid`
-- that is no string is refused by its adapter at once; Python's limit on the digits of an integer
-- literal, log lines, formatted numbers in messages and clock readings are left out. The read-only
-- routes, the printed reports and the argument parser of the command line, the connection pool, the
-- start of the threads in app/main.py and the environment variables are not modelled: they have no
-- state of their own.
pub mod Auth
pub mod Cli
pub mod Control
pub mod CountCache
pub mod Database
pub mod Discovery
pub mod Examples
pub mod FilterAnalysis
pub mod Importer
pub mod Languages
pub mod Migrations
pub mod Normalize
pub mod Prelude
pub mod Records
pub mod Result
pub mod Run
pub mod Search
pub mod Sources
pub mod State
pub mod Storage
pub mod Torrent
pub mod Unicode
pub mod Worker
