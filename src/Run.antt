-- ===== src/Run.antt =====
-- sync/run.py: the state of a sync pass. The torrent client, the adapters and the disk are parameters
-- (`Env`); the file system is the two places where payloads stand, `<work_dir>/<identifier>` and
-- `<work_dir>/.prev/<collection>.payload`. Connections commit each statement, so that `rollback`
-- undoes nothing that is left. The times, log lines and formatted numbers are not modelled.
pub mod Entries
pub mod Payload
pub mod Download
pub mod Plan
pub mod Sync
use aa_metadata_worker.Prelude.{
  ℕ, ◌+◌, ◌*◌, Text, Bool, Option, none, some, List, [], ◌∷◌, ◌++◌, codes, ◌==◌, text_eq, Dict,
  lookup, insert, filter, not, length, take, if◌then◌else◌,
}
use aa_metadata_worker.Result.{Exception, graceful_shutdown, error, Result}
use aa_metadata_worker.Unicode.{Unicode}
use aa_metadata_worker.Records.{NormalizedRecord}
use aa_metadata_worker.Database.{Db}
use aa_metadata_worker.Discovery.{ReleaseInfo}
use aa_metadata_worker.Importer.Loop.{Event, ImportSettings}

-- A payload file: its size, and what reading it line by line or frame by frame yields.
pub record PayloadFile : Type 0 where
  pub size : ℕ
  pub strict : List Event
  pub resilient : List Event

pub data Place : Type 0 where
  in_work : Text → Place
  in_prev : Text → Place

-- `SyncRunSummary`
pub record Summary : Type 0 where
  pub processed : List (Text × Text)
  pub skipped_completed : List Text
  pub blocked : List (Text × Text)
  pub failures : List (Text × Text)

abbrev pub empty_summary : Summary
empty_summary = record { processed = []; skipped_completed = []; blocked = []; failures = [] }

-- How many collections have an entry of the summary.
abbrev pub handled : Summary → ℕ
handled s = length s.processed + length s.skipped_completed + length s.blocked + length s.failures

pub record World : Type 0 where
  pub db : Db
  pub work : Dict Text PayloadFile
  pub prev : Dict Text PayloadFile
  pub locked : Bool
  pub summary : Summary

-- What the download of a torrent ends with.
pub data Fetched : Type 0 where
  complete : PayloadFile → Fetched
  partial : PayloadFile → Fetched
  broken : Text → Text → Fetched

pub record Settings : Type 0 where
  pub importing : ImportSettings
  pub sync_reuse_prev_payload : Bool
  pub storage_warn_gib : ℕ
  pub storage_stop_gib : ℕ
  pub sync_max_downloads : ℕ
  pub aa_collections : List Text

pub record Env : Type 0 where
  pub unicode : Unicode
  pub settings : Settings
  -- `json.loads` and the adapter of a collection
  pub adapter : Text → Option (Text → Result (List NormalizedRecord))
  -- the reports of progress of a download, and its end
  pub torrent : ReleaseInfo → World → List (ℕ × ℕ) × Fetched
  pub database_size_bytes : Db → ℕ
  pub disk_free_bytes : World → ℕ

-- An entry of `to_download`
pub record Info : Type 0 where
  pub release : ReleaseInfo
  pub release_id : ℕ

abbrev pub without : Text → Dict Text PayloadFile → Dict Text PayloadFile
without k = filter (λ e. not (e.0 == k))

abbrev pub payload_at : Place → World → Option PayloadFile
payload_at (in_work identifier) w = lookup identifier w.work
payload_at (in_prev collection) w = lookup collection w.prev

-- `delete_payload`
unfoldable pub delete_payload : Place → World → World
delete_payload (in_work identifier) w = record w { work = without identifier w.work }
delete_payload (in_prev collection) w = record w { prev = without collection w.prev }

-- `os.replace(payload_path, _prev_payload_path(work_dir, collection))`
unfoldable pub keep_payload : Place → Text → PayloadFile → World → World
keep_payload (in_work identifier) collection p w = record w {
  work = without identifier w.work;
  prev = insert collection p w.prev;
}
keep_payload (in_prev source) collection p w = record w {
  prev = insert collection p (if source == collection then w.prev else without source w.prev);
}

-- `str(error)`
abbrev pub message_of : Exception → Text
message_of graceful_shutdown = []
message_of (error name message) = message

-- `f"{type(error).__name__}: {error}"[:2000]`
abbrev pub failure_text : Exception → Text
failure_text graceful_shutdown = codes "GracefulShutdown: "
failure_text (error name message) = take 2000 (name ++ codes ": " ++ message)

abbrev pub add_processed : Text → Text → World → World
add_processed collection identifier w = record w {
  summary = record (w.summary) {
    processed = w.summary.processed ++ ((collection, identifier) ∷ []);
  };
}

abbrev pub add_failed : Text → Exception → World → World
add_failed collection e w = record w {
  summary = record (w.summary) {
    failures = w.summary.failures ++ ((collection, message_of e) ∷ []);
  };
}
