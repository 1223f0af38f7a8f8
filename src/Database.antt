-- ===== src/Database.antt =====
-- The tables of migrations/*.sql that sync/state.py and sync/importer.py read and write. A table
-- with a serial key is the list of its rows in the order of their ids, with the sequence that gives
-- the next id; a table with a primary key of its own is a `Dict`. An instant is a number of seconds
-- since the origin of `date_bin`, and `now` is the instant of the running transaction.
use aa_metadata_worker.Prelude.{
  ℕ, ℤ, Text, Bool, Option, none, some, List, [], Dict, Eq, text_discrete, nat_discrete,
}

pub data Status : Type 0 where
  discovered downloading importing validating completed failed blocked_storage : Status

pub data Command : Type 0 where
  run_now pause resume : Command

pub data JobStatus : Type 0 where
  pending running done broken : JobStatus

pub data Mode : Type 0 where
  auto import_only : Mode

pub record Counters : Type 0 where
  pub seen : ℕ
  pub inserted : ℕ
  pub updated : ℕ
  pub skipped : ℕ
  pub discarded : ℕ
  pub failures : ℕ

abbrev pub zero_counters : Counters
zero_counters = record {
  seen = 0;
  inserted = 0;
  updated = 0;
  skipped = 0;
  discarded = 0;
  failures = 0;
}

-- A representative discarded record, as the dashboard shows it.
pub record Sample : Type 0 where
  pub md5 : Text
  pub source_record_id : Option Text
  pub aacid : Option Text
  pub title : Option Text
  pub authors : List Text

-- A row of `sync_releases`.
pub record Release : Type 0 where
  pub id : ℕ
  pub collection : Text
  pub identifier : Text
  pub btih : Option Text
  pub source_url : Option Text
  pub data_size_bytes : Option ℕ
  pub status : Status
  pub error_message : Option Text
  pub discovered_at : ℕ
  pub started_at : Option ℕ
  pub import_started_at : Option ℕ
  pub completed_at : Option ℕ
  pub counters : Counters
  pub download_done_bytes : ℕ
  pub download_total_bytes : ℕ
  pub import_done_bytes : ℕ
  pub import_total_bytes : ℕ
  pub discard_reasons : Dict Text ℕ
  pub discard_samples : Dict Text (List Sample)

-- A row of `import_performance_buckets`; its key is the release and the start of the bucket.
pub record Bucket : Type 0 where
  pub first_sample_at : ℕ
  pub last_sample_at : ℕ
  pub first_records_seen : ℕ
  pub last_records_seen : ℕ
  pub first_bytes : ℕ
  pub last_bytes : ℕ

-- A row of `sync_commands`.
pub record CommandRow : Type 0 where
  pub id : ℕ
  pub command : Command
  pub note : Option Text
  pub created_at : ℕ
  pub picked_at : Option ℕ

-- A row of `collection_sync_modes`; its key is the collection.
pub record ModeRow : Type 0 where
  pub mode : Mode
  pub last_imported_identifier : Option Text

-- A row of `filter_analysis_jobs`.
pub record Job : Type 0 where
  pub id : ℕ
  pub release_id : ℕ
  pub status : JobStatus
  pub filters_snapshot : Dict Text Bool
  pub progress_bytes : ℕ
  pub total_bytes : ℕ
  pub records_scanned : ℕ
  pub result_counts : Dict Text ℕ
  pub error_message : Option Text
  pub started_at : Option ℕ
  pub completed_at : Option ℕ

-- A row of `release_subcollection_stats`; its key is the release and the subcollection.
pub record Stat : Type 0 where
  pub matching_records : ℕ
  pub filter_blocked : Bool
  pub analyzed_at : ℕ
  pub analysis_job_id : ℕ

-- A row of `metadata_records`; its key is the MD5.
pub record Row : Type 0 where
  pub title : Text
  pub title_norm : Text
  pub authors : List Text
  pub author_tokens : List Text
  pub publisher : Option Text
  pub publication_year : Option ℕ
  pub languages : List Text
  pub extension : Option Text
  pub filesize : Option ℤ
  pub isbn10 : List Text
  pub isbn13 : List Text
  pub doi : List Text
  pub oclc : List Text
  pub openlibrary_ids : List Text
  pub work_key : Option Text
  pub series_name : Option Text
  pub series_position : Option ℕ
  pub edition : Option Text
  pub source_collection : Text
  pub source_record_id : Option Text
  pub aacid : Option Text
  pub source_timestamp : Option ℕ
  pub quality_score : ℕ
  pub deleted : Bool
  pub removed_reason : Option Text
  pub ipfs_cid : Option Text

pub record Db : Type 0 where
  pub now : ℕ
  pub releases : List Release
  pub release_seq : ℕ
  pub buckets : Dict (ℕ × ℕ) Bucket
  pub commands : List CommandRow
  pub command_seq : ℕ
  pub control : Dict Text Text
  pub modes : Dict Text ModeRow
  pub filters : Dict Text Bool
  pub jobs : List Job
  pub job_seq : ℕ
  pub stats : Dict (ℕ × Text) Stat
  pub records : Dict Text Row

pub bucket_key_discrete : Discrete (ℕ × ℕ)
bucket_key_discrete = hlevel nat_discrete

pub stat_key_discrete : Discrete (ℕ × Text)
stat_key_discrete = hlevel (nat_discrete, text_discrete)

instance abbrev pub bucket_key_eq : Eq (ℕ × ℕ)
bucket_key_eq = record { dec = bucket_key_discrete }

instance abbrev pub stat_key_eq : Eq (ℕ × Text)
stat_key_eq = record { dec = stat_key_discrete }

-- `COALESCE(a, b)`
abbrev pub coalesce {ℓ} : {A : Type ℓ} → Option A → Option A → Option A
coalesce none b = b
coalesce (some a) b = some a

-- The database after the migrations: `paused` is set to `false`.
abbrev pub empty_db : ℕ → Db
empty_db t = record {
  now = t;
  releases = [];
  release_seq = 1;
  buckets = [];
  commands = [];
  command_seq = 1;
  control = [];
  modes = [];
  filters = [];
  jobs = [];
  job_seq = 1;
  stats = [];
  records = [];
}
