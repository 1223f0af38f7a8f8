-- ===== src/State/Jobs/Exclusive.antt =====
-- sync/state.py and sync/filter_analysis.py: a release has at most one active job, whatever the API and
-- the analysis worker do. There is one worker, which holds the job that it has claimed. A request that
-- queues an analysis is one step: the code reads the active jobs and inserts the new one in two
-- statements, and requests that overlap are left out.
use aa_metadata_worker.Prelude.{
  ℕ, ◌≡◌, ◌<◌, refl, Text, Bool, true, Option, none, some, List, arith, Dict, All, Option-cases,
  inl, inr, find?, find_last?, [], ◌∷◌, All-append,
}
use aa_metadata_worker.Database.{pending, done, Job, Db}
use aa_metadata_worker.State.Releases.{find_release}
use aa_metadata_worker.State.Jobs.{
  Claim, is_running, job_by_id, job_claimable, active_for, enqueue_filter_analysis,
  claim_filter_analysis_job, update_filter_analysis_progress, complete_filter_analysis,
  fail_filter_analysis, requeue_running, requeue,
}
use aa_metadata_worker.State.Jobs.Active.{
  IsSound, enqueue-IsSound, calm-IsSound, claim-IsSound, running-IsSound, start_job-runs,
  update_where-runs,
}

-- The tables, and the job that the worker works on.
pub record Queue : Type 0 where
  pub db : Db
  pub held : Option ℕ

abbrev pub claimed_id : Option Claim → Option ℕ
claimed_id none = none
claimed_id (some c) = some c.id

pub data JobStep : Queue → Queue → Type 0 where
  enqueue :
      (release_id : ℕ) (snapshot : Dict Text Bool) (total : ℕ) (q : Queue)
      → JobStep q (record q { db = (enqueue_filter_analysis release_id snapshot total q.db).1 })
  -- The worker starts, whatever the last one was doing.
  restart : (q : Queue) → JobStep q (record { db = requeue_running q.db; held = none })
  claim :
      (locked : ℕ → Bool) (q : Queue)
      → q.held ≡ none
      → JobStep q (record {
        db = (claim_filter_analysis_job locked q.db).1;
        held = claimed_id (claim_filter_analysis_job locked q.db).0;
      })
  progress :
      (job_id bytes scanned : ℕ) (q : Queue)
      → q.held ≡ some job_id
      → JobStep q (record q { db = update_filter_analysis_progress job_id bytes scanned q.db })
  complete :
      (job_id release_id : ℕ) (snapshot : Dict Text Bool) (counts : Dict Text ℕ) (total scanned : ℕ)
      (q : Queue)
      → q.held ≡ some job_id
      → JobStep q (record {
        db = complete_filter_analysis job_id release_id snapshot counts total scanned q.db;
        held = none;
      })
  fail :
      (job_id : ℕ) (message : Text) (q : Queue)
      → q.held ≡ some job_id
      → JobStep q (record { db = fail_filter_analysis job_id message q.db; held = none })
  interrupt :
      (job_id : ℕ) (q : Queue)
      → q.held ≡ some job_id
      → JobStep q (record { db = requeue job_id q.db; held = none })

pub data JobReach (q : Queue) : Queue → Type 0 where
  here : JobReach q q
  next : {a b : Queue} → JobReach q a → JobStep a b → JobReach q b

-- The tables are sound, and the job that is held is running.
pub record IsHeld (q : Queue) : Type 0 where
  pub sound : IsSound q.db
  pub runs :
      (id : ℕ)
      → q.held ≡ some id
      → (id < q.db.job_seq) × All (λ j. j.id ≡ id → is_running j.status ≡ true) q.db.jobs

-- A worker that holds nothing.
idle : (db : Db) → IsSound db → IsHeld (record { db = db; held = none })
idle db h = record { sound = h; runs = λ id e. absurd (cc) }

enqueue-runs :
    (release_id : ℕ) (snapshot : Dict Text Bool) (total : ℕ) (db : Db) (id : ℕ)
    → (id < db.job_seq) × All (λ j. j.id ≡ id → is_running j.status ≡ true) db.jobs
    → let after = (enqueue_filter_analysis release_id snapshot total db).1 in
      (id < after.job_seq) × All (λ j. j.id ≡ id → is_running j.status ≡ true) after.jobs
unfolding enqueue_filter_analysis
enqueue-runs release_id snapshot total db id h =
    elim (Option-cases (find_last? (active_for release_id) db.jobs)) [
      | inr (j, e) ↦ rw (e, enqueue_filter_analysis) h
      | inl e ↦
          rw (e, enqueue_filter_analysis)
            (
              omega (arith, h.0),
              All-append _ db.jobs _ h.1 ((λ same. absurd (omega (arith, h.0, same))), tt),
            )
    ]

find?-below :
    (n : ℕ) (p : Job → Bool) (jobs : List Job) (j : Job)
    → All (λ k. k.id < n) jobs
    → find? p jobs ≡ some j
    → j.id < n
find?-below n p [] j b e = absurd (cc)
find?-below n p (k ∷ jobs) j b e = ground (arith, b.0, find?-below n p jobs j b.1, e)

claim-runs :
    (locked : ℕ → Bool) (db : Db)
    → IsSound db
    → (id : ℕ) → claimed_id (claim_filter_analysis_job locked db).0 ≡ some id
    → let after = (claim_filter_analysis_job locked db).1 in
      (id < after.job_seq) × All (λ j. j.id ≡ id → is_running j.status ≡ true) after.jobs
unfolding claim_filter_analysis_job
claim-runs locked db h id c = elim (Option-cases (find? (job_claimable locked db) db.jobs)) [
  | inl e ↦ absurd (ground (arith, e, c))
  | inr (j, e) ↦ elim (Option-cases (find_release j.release_id db)) [
    | inl k ↦ absurd (ground (arith, e, k, c))
    | inr (r, k) ↦
        let same : j.id ≡ id = ground (arith, e, k, c) in
        rw (e, k, claim_filter_analysis_job, ← same)
          (
            find?-below db.job_seq (job_claimable locked db) db.jobs j h.below e,
            start_job-runs db.now j.id db.jobs,
          )
  ]
]

enqueue-IsHeld :
    (release_id : ℕ) (snapshot : Dict Text Bool) (total : ℕ) (q : Queue)
    → IsHeld q
    → IsHeld (record q { db = (enqueue_filter_analysis release_id snapshot total q.db).1 })
enqueue-IsHeld release_id snapshot total q h = record {
  sound = enqueue-IsSound release_id snapshot total q.db h.sound;
  runs = λ id e. enqueue-runs release_id snapshot total q.db id (h.runs id e);
}

claim-IsHeld :
    (locked : ℕ → Bool) (q : Queue)
    → IsHeld q
    → IsHeld (record {
      db = (claim_filter_analysis_job locked q.db).1;
      held = claimed_id (claim_filter_analysis_job locked q.db).0;
    })
claim-IsHeld locked q h = record {
  sound = claim-IsSound locked q.db h.sound;
  runs = claim-runs locked q.db h.sound;
}

progress-IsHeld :
    (job_id bytes scanned : ℕ) (q : Queue)
    → IsHeld q
    → IsHeld (record q { db = update_filter_analysis_progress job_id bytes scanned q.db })
unfolding update_filter_analysis_progress
progress-IsHeld job_id bytes scanned q h = record {
  sound = calm-IsSound _ _ q.db (λ j. refl) (λ i j p a. a) h.sound;
  runs = λ id e.
      ((h.runs id e).0, update_where-runs id _ _ q.db.jobs (λ j. refl) (λ j. refl) (h.runs id e).1);
}

JobStep-IsHeld : {a b : Queue} → JobStep a b → IsHeld a → IsHeld b
unfolding complete_filter_analysis fail_filter_analysis
JobStep-IsHeld (enqueue i snapshot total q) h = enqueue-IsHeld i snapshot total q h
JobStep-IsHeld (restart q) h = idle _ (
    calm-IsSound (λ j. is_running j.status) (λ j. record j { status = pending }) q.db (λ j. refl)
      (λ i j p a. ground (arith, p, a)) h.sound)
JobStep-IsHeld (claim locked q free) h = claim-IsHeld locked q h
JobStep-IsHeld (progress i bytes scanned q e) h = progress-IsHeld i bytes scanned q h
JobStep-IsHeld (complete i r snapshot counts total scanned q e) h =
    let k =
      calm-IsSound (job_by_id i)
        (λ j. record j {
          status = done;
          progress_bytes = total;
          records_scanned = scanned;
          result_counts = counts;
          completed_at = some q.db.now;
        })
        q.db (λ j. refl) (λ i j p a. ground arith) h.sound in
    idle _ (record { distinct = k.distinct; below = k.below; exclusive = k.exclusive })
JobStep-IsHeld (fail i message q e) h =
    idle _ (calm-IsSound _ _ q.db (λ j. refl) (λ i j p a. ground arith) h.sound)
JobStep-IsHeld (interrupt i q e) h = idle _ (
    running-IsSound i (λ j. record j { status = pending }) q.db (λ j. refl) (λ j. refl)
      (h.runs i e).1 h.sound)

-- Whatever sequence of steps the API and the worker make, from sound tables and a worker that holds
-- nothing, or a job that is running, no release ever has two active analysis jobs, job ids stay
-- distinct, and a job that the worker holds is running.
pub JobReach-IsSound : {a b : Queue} → IsHeld a → JobReach a b → IsHeld b
JobReach-IsSound h here = h
JobReach-IsSound h (next r st) = JobStep-IsHeld st (JobReach-IsSound h r)
