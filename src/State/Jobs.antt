-- ===== src/State/Jobs.antt =====
-- sync/state.py: the queue of filter analysis jobs.
pub mod Active
pub mod Exclusive
use aa_metadata_worker.Prelude.{
  ℕ, ◌+◌, Text, Bool, true, false, Option, none, some, List, [], ◌∷◌, ◌++◌, ◌&&◌, not, ◌==◌, nat_eq,
  text_eq, Dict, insert, get_or, find?, find_last?, update_where, if◌then◌else◌, is_some, take,
}
use aa_metadata_worker.Database.{
  JobStatus, pending, running, done, broken, Job, Stat, Release, Db, stat_key_eq,
}
use aa_metadata_worker.State.Releases.{find_release}

abbrev pub is_pending : JobStatus → Bool
is_pending pending = true
is_pending _ = false

abbrev pub is_running : JobStatus → Bool
is_running running = true
is_running _ = false

-- `status IN ('pending', 'running')`
abbrev pub is_active : JobStatus → Bool
is_active pending = true
is_active running = true
is_active _ = false

abbrev pub active_for : ℕ → Job → Bool
active_for release_id j = j.release_id == release_id && is_active j.status

abbrev pub new_job : ℕ → ℕ → Dict Text Bool → ℕ → Job
new_job id release_id snapshot total = record {
  id = id;
  release_id = release_id;
  status = pending;
  filters_snapshot = snapshot;
  progress_bytes = 0;
  total_bytes = total;
  records_scanned = 0;
  result_counts = [];
  error_message = none;
  started_at = none;
  completed_at = none;
}

-- The id of the job, and whether it is new.
unfoldable pub enqueue_filter_analysis : ℕ → Dict Text Bool → ℕ → Db → (ℕ × Bool) × Db
enqueue_filter_analysis release_id snapshot total db =
    elim (find_last? (active_for release_id) db.jobs) [
      | some job ↦ ((job.id, false), db)
      | none ↦ (
        (db.job_seq, true),
        record db {
          jobs = db.jobs ++ (new_job db.job_seq release_id snapshot total ∷ []);
          job_seq = db.job_seq + 1;
        },
      )
    ]

abbrev pub job_by_id : ℕ → Job → Bool
job_by_id id j = j.id == id

-- A pending job whose release exists (the `JOIN`) and which no other transaction holds.
abbrev pub job_claimable : (ℕ → Bool) → Db → Job → Bool
job_claimable locked db j =
    is_pending j.status && is_some (find_release j.release_id db) && not (locked j.id)

abbrev pub start_job : ℕ → Job → Job
start_job now j = record j {
  status = running;
  started_at = some now;
  error_message = none;
  progress_bytes = 0;
  records_scanned = 0;
  result_counts = [];
}

-- What the claim returns: the row as it was, with its release.
pub record Claim : Type 0 where
  pub id : ℕ
  pub release_id : ℕ
  pub collection : Text
  pub release_identifier : Text
  pub filters_snapshot : Dict Text Bool
  pub total_bytes : ℕ

unfoldable pub claim_filter_analysis_job : (ℕ → Bool) → Db → Option Claim × Db
unfolding find_release
claim_filter_analysis_job locked db = elim (find? (job_claimable locked db) db.jobs) [
  | none ↦ (none, db)
  | some j ↦ elim (find_release j.release_id db) [
    | none ↦ (none, db)
    | some r ↦ (
      some (record {
        id = j.id;
        release_id = j.release_id;
        collection = r.collection;
        release_identifier = r.identifier;
        filters_snapshot = j.filters_snapshot;
        total_bytes = j.total_bytes;
      }),
      record db { jobs = update_where (job_by_id j.id) (start_job db.now) db.jobs },
    )
  ]
]

unfoldable pub update_filter_analysis_progress : ℕ → ℕ → ℕ → Db → Db
update_filter_analysis_progress job_id progress_bytes records_scanned db = record db {
  jobs =
      update_where (λ j. j.id == job_id && is_running j.status)
        (λ j. record j { progress_bytes = progress_bytes; records_scanned = records_scanned })
        db.jobs;
}

-- The loop over the names of the snapshot.
unfoldable pub store_stats :
    ℕ → ℕ → ℕ → Dict Text ℕ → Dict Text Bool → Dict (ℕ × Text) Stat → Dict (ℕ × Text) Stat
store_stats now job_id release_id counts [] stats = stats
store_stats now job_id release_id counts ((name, blocked) ∷ snapshot) stats =
    let key : ℕ × Text = (release_id, name) in
    store_stats now job_id release_id counts snapshot (
      insert key
        (record {
          matching_records = get_or name 0 counts;
          filter_blocked = blocked;
          analyzed_at = now;
          analysis_job_id = job_id;
        })
        stats)

unfoldable pub complete_filter_analysis : ℕ → ℕ → Dict Text Bool → Dict Text ℕ → ℕ → ℕ → Db → Db
unfolding store_stats
complete_filter_analysis job_id release_id snapshot counts total_bytes records_scanned db =
    record db {
      stats = store_stats db.now job_id release_id counts snapshot db.stats;
      jobs =
          update_where (job_by_id job_id)
            (λ j. record j {
              status = done;
              progress_bytes = total_bytes;
              records_scanned = records_scanned;
              result_counts = counts;
              completed_at = some db.now;
            })
            db.jobs;
    }

unfoldable pub fail_filter_analysis : ℕ → Text → Db → Db
fail_filter_analysis job_id message db = record db {
  jobs =
      update_where (job_by_id job_id)
        (λ j. record j {
          status = broken;
          error_message = some (take 2000 message);
          completed_at = some db.now;
        })
        db.jobs;
}

-- `UPDATE ... SET status = 'pending'` of sync/filter_analysis.py, at the start of the worker and after
-- an interruption.
abbrev pub requeue_running : Db → Db
requeue_running db = record db {
  jobs = update_where (λ j. is_running j.status) (λ j. record j { status = pending }) db.jobs;
}

abbrev pub requeue : ℕ → Db → Db
requeue job_id db = record db {
  jobs = update_where (job_by_id job_id) (λ j. record j { status = pending }) db.jobs;
}
