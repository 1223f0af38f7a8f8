-- ===== src/State/Jobs/Active.antt =====
-- The job queue of sync/state.py: what its statements leave of the active jobs of a release.
use aa_metadata_worker.Prelude.{
  ℕ, ◌+◌, ◌≤◌, ◌≡◌, refl, Text, Bool, true, false, none, some, List, [], ◌∷◌, ◌++◌, arith, ◌==◌,
  nat_eq, Dict, find?, find_last?, update_where, if◌then◌else◌, contains, Distinct, All, All-append,
  ◌||◌, ◌<◌, Option-cases, Bool-cases, inl, inr,
}
use aa_metadata_worker.Database.{JobStatus, Job, Db}
use aa_metadata_worker.State.Releases.{find_release}
use aa_metadata_worker.State.Jobs.{
  is_active, is_running, active_for, new_job, enqueue_filter_analysis, job_by_id, job_claimable,
  start_job, claim_filter_analysis_job,
}

-- How many active jobs a release has.
abbrev pub active_jobs : ℕ → List Job → ℕ
active_jobs release_id [] = 0
active_jobs release_id (j ∷ jobs) =
    (if active_for release_id j then 1 else 0) + active_jobs release_id jobs

-- A change that does not activate a job of any release activates none in the table.
abbrev pub IsCalm : (Job → Job) → (Job → Bool) → Type 0
IsCalm f p = (i : ℕ) (j : Job) → p j ≡ true → active_for i (f j) ≡ true → active_for i j ≡ true

active_jobs-update_where :
    (i : ℕ) (p : Job → Bool) (f : Job → Job) (jobs : List Job)
    → IsCalm f p
    → active_jobs i (update_where p f jobs) ≤ active_jobs i jobs
active_jobs-update_where i p f [] h = omega arith
active_jobs-update_where i p f (j ∷ jobs) h =
    ground (arith, h i j, active_jobs-update_where i p f jobs h)

pub active_jobs-append :
    (i : ℕ) (jobs : List Job) (j : Job)
    → active_jobs i (jobs ++ (j ∷ [])) ≡ active_jobs i jobs + (if active_for i j then 1 else 0)
active_jobs-append i [] j = omega arith
active_jobs-append i (k ∷ jobs) j = omega (arith, active_jobs-append i jobs j)

active_jobs-none :
    (i : ℕ) (jobs : List Job) → find_last? (active_for i) jobs ≡ none → active_jobs i jobs ≡ 0
active_jobs-none i [] h = refl
active_jobs-none i (j ∷ jobs) h = ground (arith, active_jobs-none i jobs)

abbrev pub job_ids : List Job → List ℕ
job_ids [] = []
job_ids (j ∷ jobs) = j.id ∷ job_ids jobs

job_ids-update_where :
    (p : Job → Bool) (f : Job → Job) (jobs : List Job)
    → ((j : Job) → (f j).id ≡ j.id)
    → job_ids (update_where p f jobs) ≡ job_ids jobs
job_ids-update_where p f [] h = refl
job_ids-update_where p f (j ∷ jobs) h = ground (arith, h j, job_ids-update_where p f jobs h)

contains-job_ids-append :
    (i : ℕ) (jobs : List Job) (j : Job)
    → contains i (job_ids (jobs ++ (j ∷ []))) ≡ (contains i (job_ids jobs) || j.id == i)
contains-job_ids-append i [] j = ground arith
contains-job_ids-append i (k ∷ jobs) j = ground (arith, contains-job_ids-append i jobs j)

abbrev AllBelow : ℕ → List Job → Type 0
AllBelow n = All (λ j. j.id < n)

AllBelow-fresh : (n : ℕ) (jobs : List Job) → AllBelow n jobs → contains n (job_ids jobs) ≡ false
AllBelow-fresh n [] h = refl
AllBelow-fresh n (j ∷ jobs) h = ground (arith, AllBelow-fresh n jobs h.1)

AllBelow-suc : (n : ℕ) (jobs : List Job) → AllBelow n jobs → AllBelow (n + 1) jobs
AllBelow-suc n [] h = tt
AllBelow-suc n (j ∷ jobs) h = (omega arith, AllBelow-suc n jobs h.1)

AllBelow-update_where :
    (n : ℕ) (p : Job → Bool) (f : Job → Job) (jobs : List Job)
    → ((j : Job) → (f j).id ≡ j.id)
    → AllBelow n jobs
    → AllBelow n (update_where p f jobs)
AllBelow-update_where n p f [] h b = tt
AllBelow-update_where n p f (j ∷ jobs) h b =
    ground (arith, h j, AllBelow-update_where n p f jobs h b.1)

Distinct-append :
    (jobs : List Job) (j : Job)
    → Distinct (job_ids jobs)
    → contains j.id (job_ids jobs) ≡ false
    → Distinct (job_ids (jobs ++ (j ∷ [])))
Distinct-append [] j d h = ground arith
Distinct-append (k ∷ jobs) j d h =
    ground (arith, Distinct-append jobs j d.1, contains-job_ids-append k.id jobs j)

pub find?-id :
    (p : Job → Bool) (jobs : List Job) (j : Job)
    → find? p jobs ≡ some j
    → (p j ≡ true) × (contains j.id (job_ids jobs) ≡ true)
find?-id p [] j h = cc
find?-id p (k ∷ jobs) j h = ground (arith, find?-id p jobs j)

update_where-absent :
    (i : ℕ) (f : Job → Job) (jobs : List Job)
    → contains i (job_ids jobs) ≡ false
    → update_where (job_by_id i) f jobs ≡ jobs
update_where-absent i f [] h = refl
update_where-absent i f (j ∷ jobs) h = ground (arith, update_where-absent i f jobs)

-- With distinct ids an `UPDATE ... WHERE id = …` of a job that was found changes that job alone.
active_jobs-update_found :
    (i : ℕ) (p : Job → Bool) (f : Job → Job) (jobs : List Job) (j : Job)
    → Distinct (job_ids jobs)
    → find? p jobs ≡ some j
    → (active_for i (f j) ≡ true → active_for i j ≡ true)
    → active_jobs i (update_where (job_by_id j.id) f jobs) ≤ active_jobs i jobs
active_jobs-update_found i p f [] j d e h = cc
active_jobs-update_found i p f (k ∷ jobs) j d e h = ground (
  arith,
  active_jobs-update_found i p f jobs j d.1,
  find?-id p jobs j,
  update_where-absent k.id f jobs d.0,
)

-- The ids are distinct and below the sequence, and no release has two active jobs.
pub record IsSound (db : Db) : Type 0 where
  pub distinct : Distinct (job_ids db.jobs)
  pub below : AllBelow db.job_seq db.jobs
  pub exclusive : (release_id : ℕ) → active_jobs release_id db.jobs ≤ 1

pub enqueue-IsSound :
    (release_id : ℕ) (snapshot : Dict Text Bool) (total : ℕ) (db : Db)
    → IsSound db
    → IsSound (enqueue_filter_analysis release_id snapshot total db).1
unfolding enqueue_filter_analysis
enqueue-IsSound release_id snapshot total db h =
    elim (Option-cases (find_last? (active_for release_id) db.jobs)) [
      | inr (j, e) ↦ rw (e, enqueue_filter_analysis) h
      | inl e ↦
          rw (e, enqueue_filter_analysis)
            (record {
              distinct =
                  Distinct-append db.jobs _ h.distinct (AllBelow-fresh db.job_seq db.jobs h.below);
              below =
                  All-append _ db.jobs _ (AllBelow-suc db.job_seq db.jobs h.below) (omega arith);
              exclusive = λ i. ground (
                arith,
                h.exclusive i,
                active_jobs-none release_id db.jobs,
                active_jobs-append i db.jobs (new_job db.job_seq release_id snapshot total),
              );
            })
    ]

-- An `UPDATE` that keeps the ids and activates nothing.
pub calm-IsSound :
    (p : Job → Bool) (f : Job → Job) (db : Db)
    → ((j : Job) → (f j).id ≡ j.id)
    → IsCalm f p
    → IsSound db
    → IsSound (record db { jobs = update_where p f db.jobs })
calm-IsSound p f db same calm h = record {
  distinct = rw (job_ids-update_where p f db.jobs same) h.distinct;
  below = AllBelow-update_where db.job_seq p f db.jobs same h.below;
  exclusive = λ i. omega (arith, h.exclusive i, active_jobs-update_where i p f db.jobs calm);
}

pub claim-IsSound :
    (locked : ℕ → Bool) (db : Db) → IsSound db → IsSound (claim_filter_analysis_job locked db).1
unfolding claim_filter_analysis_job
claim-IsSound locked db h = elim (Option-cases (find? (job_claimable locked db) db.jobs)) [
  | inl e ↦ rw (e, claim_filter_analysis_job) h
  | inr (j, e) ↦ elim (Option-cases (find_release j.release_id db)) [
    | inl k ↦ rw (e, k, claim_filter_analysis_job) h
    | inr (r, k) ↦
        rw (e, k, claim_filter_analysis_job)
          (record {
            distinct =
                rw (job_ids-update_where (job_by_id j.id) (start_job db.now) db.jobs (λ l. refl))
                  h.distinct;
            below =
                AllBelow-update_where db.job_seq (job_by_id j.id) (start_job db.now) db.jobs
                  (λ l. refl) h.below;
            exclusive = λ i. ground (
              arith,
              h.exclusive i,
              find?-id (job_claimable locked db) db.jobs j e,
              active_jobs-update_found i (job_claimable locked db) (start_job db.now) db.jobs j
                  h.distinct e,
            );
          })
  ]
]

running-active : (s : JobStatus) → is_running s ≡ true → is_active s ≡ true
running-active s h = ground arith

-- An `UPDATE ... WHERE id = …` of a job that is running activates nothing.
active_jobs-update_running :
    (i id : ℕ) (f : Job → Job) (jobs : List Job)
    → ((j : Job) → (f j).release_id ≡ j.release_id)
    → All (λ j. j.id ≡ id → is_running j.status ≡ true) jobs
    → active_jobs i (update_where (job_by_id id) f jobs) ≤ active_jobs i jobs
active_jobs-update_running i id f [] same h = omega arith
active_jobs-update_running i id f (j ∷ jobs) same h =
    let later = active_jobs-update_running i id f jobs same h.1 in
    elim (Bool-cases (j.id == id)) [
      | inr other ↦ ground (arith, other, later)
      | inl e ↦
          let ids : j.id ≡ id = ground (arith, e) in
          let active : is_active j.status ≡ true = running-active j.status (h.0 ids) in
          ground (arith, e, active, same j, later)
    ]

pub running-IsSound :
    (id : ℕ) (f : Job → Job) (db : Db)
    → ((j : Job) → (f j).id ≡ j.id)
    → ((j : Job) → (f j).release_id ≡ j.release_id)
    → All (λ j. j.id ≡ id → is_running j.status ≡ true) db.jobs
    → IsSound db
    → IsSound (record db { jobs = update_where (job_by_id id) f db.jobs })
running-IsSound id f db same_id same_release runs h = record {
  distinct = rw (job_ids-update_where (job_by_id id) f db.jobs same_id) h.distinct;
  below = AllBelow-update_where db.job_seq (job_by_id id) f db.jobs same_id h.below;
  exclusive = λ i.
      omega (arith, h.exclusive i, active_jobs-update_running i id f db.jobs same_release runs);
}

-- After an update of the job to running each row of its id runs.
pub start_job-runs :
    (now id : ℕ) (jobs : List Job)
    → All
        (λ j. j.id ≡ id → is_running j.status ≡ true)
        (update_where (job_by_id id) (start_job now) jobs)
start_job-runs now id [] = tt
start_job-runs now id (j ∷ jobs) = (λ e. ground arith, start_job-runs now id jobs)

-- An update that keeps ids and status leaves running jobs running.
pub update_where-runs :
    (id : ℕ) (p : Job → Bool) (f : Job → Job) (jobs : List Job)
    → ((j : Job) → (f j).id ≡ j.id)
    → ((j : Job) → (f j).status ≡ j.status)
    → All (λ j. j.id ≡ id → is_running j.status ≡ true) jobs
    → All (λ j. j.id ≡ id → is_running j.status ≡ true) (update_where p f jobs)
update_where-runs id p f [] same_id same_status h = tt
update_where-runs id p f (j ∷ jobs) same_id same_status h = (
  λ e. ground (arith, same_id j, same_status j, h.0),
  update_where-runs id p f jobs same_id same_status h.1,
)
