-- ===== src/State/Releases.antt =====
-- sync/state.py: the rows of `sync_releases` and the performance buckets.
pub mod Counts
use aa_metadata_worker.Prelude.{
  ℕ, ◌+◌, ◌-◌, ◌%◌, ◌≡◌, Text, Bool, true, false, Option, none, some, List, [], ◌∷◌, ◌++◌, ◌&&◌,
  not, Dict, Eq, ◌==◌, text_eq, nat_eq, lookup, insert, get_or, find?, filter, update_where,
  if◌then◌else◌, ltb, length, keys,
}
use aa_metadata_worker.Database.{
  Status, discovered, downloading, importing, validating, completed, failed, blocked_storage,
  Counters, zero_counters, Sample, Release, Bucket, Db, Row, bucket_key_eq, coalesce,
}

abbrev pub is_downloading : Status → Bool
is_downloading downloading = true
is_downloading _ = false

abbrev pub is_importing : Status → Bool
is_importing importing = true
is_importing _ = false

abbrev pub is_completed : Status → Bool
is_completed completed = true
is_completed _ = false

abbrev pub by_key : Text → Text → Release → Bool
by_key collection identifier r = r.collection == collection && r.identifier == identifier

abbrev pub by_id : ℕ → Release → Bool
by_id release_id r = r.id == release_id

-- A row that `INSERT` creates, with the defaults of its columns.
abbrev pub new_release : ℕ → ℕ → Text → Text → Option Text → Option Text → Option ℕ → Release
new_release id now collection identifier btih source_url size = record {
  id = id;
  collection = collection;
  identifier = identifier;
  btih = btih;
  source_url = source_url;
  data_size_bytes = size;
  status = discovered;
  error_message = none;
  discovered_at = now;
  started_at = none;
  import_started_at = none;
  completed_at = none;
  counters = zero_counters;
  download_done_bytes = 0;
  download_total_bytes = 0;
  import_done_bytes = 0;
  import_total_bytes = 0;
  discard_reasons = [];
  discard_samples = [];
}

-- The sequence moves on also where the conflict clause turns the `INSERT` into an update.
unfoldable pub ensure_release : Text → Text → Option Text → Option Text → Option ℕ → Db → ℕ × Db
ensure_release collection identifier btih source_url size db =
    elim (find? (by_key collection identifier) db.releases) [
      | some old ↦ (
        old.id,
        record db {
          releases =
              update_where (by_key collection identifier)
                (λ r. record r { btih = coalesce btih r.btih }) db.releases;
          release_seq = db.release_seq + 1;
        },
      )
      | none ↦ (
        db.release_seq,
        record db {
          releases =
              db.releases
              ++ (new_release db.release_seq db.now collection identifier btih source_url size
                  ∷ []);
          release_seq = db.release_seq + 1;
        },
      )
    ]

-- The `SET` list of `set_release_status`, clause by clause.
abbrev pub status_row : ℕ → Status → Option Text → Bool → Release → Release
status_row now status message reset r =
    let started = if is_downloading status then some now else r.started_at in
    let import_started =
      if is_importing status
      then (if reset then some now else coalesce r.import_started_at (some now))
      else if reset
      then none
      else r.import_started_at in
    let finished = if is_completed status then some now else r.completed_at in
    record r {
      status = status;
      error_message = message;
      started_at = started;
      import_started_at = import_started;
      completed_at = finished;
      counters = if reset then zero_counters else r.counters;
      import_done_bytes = if reset then 0 else r.import_done_bytes;
      import_total_bytes = if reset then 0 else r.import_total_bytes;
      discard_reasons = if reset then [] else r.discard_reasons;
      discard_samples = if reset then [] else r.discard_samples;
    }

abbrev of_other_release : ℕ → Dict (ℕ × ℕ) Bucket → Dict (ℕ × ℕ) Bucket
of_other_release release_id = filter (λ b. not (b.0.0 == release_id))

unfoldable pub set_release_status : ℕ → Status → Option Text → Bool → Db → Db
set_release_status release_id status message reset db = record db {
  releases = update_where (by_id release_id) (status_row db.now status message reset) db.releases;
  buckets = if reset then of_other_release release_id db.buckets else db.buckets;
}

-- `date_bin('5 minutes', now(), …)`
abbrev pub bucket_start : ℕ → ℕ
bucket_start now = now - now % 300

-- The bucket that the conflict clause leaves.
abbrev pub sampled : ℕ → Release → Option Bucket → Bucket
sampled now r none = record {
  first_sample_at = now;
  last_sample_at = now;
  first_records_seen = r.counters.seen;
  last_records_seen = r.counters.seen;
  first_bytes = r.import_done_bytes;
  last_bytes = r.import_done_bytes;
}
sampled now r (some b) = record b {
  last_sample_at = now;
  last_records_seen = r.counters.seen;
  last_bytes = r.import_done_bytes;
}

unfoldable pub record_import_sample : ℕ → Db → Db
record_import_sample release_id db = elim (find? (by_id release_id) db.releases) [
  | none ↦ db
  | some r ↦
      let key : ℕ × ℕ = (release_id, bucket_start db.now) in
      record db { buckets = insert key (sampled db.now r (lookup key db.buckets)) db.buckets }
]

abbrev pub add_counters : Counters → Counters → Counters
add_counters a b = record {
  seen = a.seen + b.seen;
  inserted = a.inserted + b.inserted;
  updated = a.updated + b.updated;
  skipped = a.skipped + b.skipped;
  discarded = a.discarded + b.discarded;
  failures = a.failures + b.failures;
}

unfoldable pub update_release_counters : ℕ → Counters → Db → Db
unfolding record_import_sample
update_release_counters release_id deltas db = record_import_sample release_id (record db {
  releases =
      update_where (by_id release_id) (λ r. record r { counters = add_counters r.counters deltas })
        db.releases;
})

-- The loop over `reason_deltas`: a delta that is not positive is passed over.
unfoldable pub add_reasons : Dict Text ℕ → Dict Text ℕ → Dict Text ℕ
add_reasons [] reasons = reasons
add_reasons ((reason, delta) ∷ deltas) reasons =
    add_reasons deltas
      (if ltb 0 delta then insert reason (get_or reason 0 reasons + delta) reasons else reasons)

-- `discard_samples || samples`: the right side wins.
unfoldable pub merge_samples :
    Dict Text (List Sample) → Dict Text (List Sample) → Dict Text (List Sample)
merge_samples old [] = old
merge_samples old ((reason, samples) ∷ rest) = merge_samples (insert reason samples old) rest

unfoldable pub update_discard_analysis : ℕ → Dict Text ℕ → Dict Text (List Sample) → Db → Db
update_discard_analysis release_id deltas samples db = record db {
  releases =
      update_where (by_id release_id)
        (λ r. record r {
          discard_reasons = add_reasons deltas r.discard_reasons;
          discard_samples = merge_samples r.discard_samples samples;
        })
        db.releases;
}

unfoldable pub update_download_progress : ℕ → ℕ → ℕ → Db → Db
update_download_progress release_id done_bytes total_bytes db = record db {
  releases =
      update_where (by_id release_id)
        (λ r. record r { download_done_bytes = done_bytes; download_total_bytes = total_bytes })
        db.releases;
}

unfoldable pub update_import_progress : ℕ → ℕ → ℕ → Db → Db
unfolding record_import_sample
update_import_progress release_id done_bytes total_bytes db =
    record_import_sample release_id (record db {
      releases =
          update_where (by_id release_id)
            (λ r. record r { import_done_bytes = done_bytes; import_total_bytes = total_bytes })
            db.releases;
    })

unfoldable pub find_release : ℕ → Db → Option Release
find_release release_id db = find? (by_id release_id) db.releases

-- The identifiers of the completed releases of a collection, as a set.
unfoldable pub completed_release_identifiers : Text → List Release → List Text
completed_release_identifiers collection [] = []
completed_release_identifiers collection (r ∷ rest) =
    let more = completed_release_identifiers collection rest in
    if r.collection == collection && is_completed r.status then r.identifier ∷ more else more

-- `MAX(completed_at)`, over the rows that have one
unfoldable pub last_successful_sync : List Release → Option ℕ
last_successful_sync [] = none
last_successful_sync (r ∷ rest) = elim (last_successful_sync rest) [
  | none ↦ r.completed_at
  | some t ↦ elim r.completed_at [ none ↦ some t | some s ↦ if ltb t s then some s else some t ]
]

unfoldable pub total_records : Db → ℕ
total_records db = length db.records
