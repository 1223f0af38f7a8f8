-- ===== src/FilterAnalysis.antt =====
-- sync/filter_analysis.py: the scan of a retained payload, and the worker of the analysis queue. The
-- lines of the payload are given; `aacid_of` is `json.loads` and the look at `aacid`, and fails on a
-- line that is no JSON.
pub mod Counts
use aa_metadata_worker.Prelude.{
  ℕ, ◌+◌, Text, Bool, true, false, Option, none, some, List, [], ◌∷◌, ◌++◌, codes, Dict, lookup,
  insert, text_eq, ◌==◌, if◌then◌else◌, nat_eq, nonempty, is_some, max, keys, update_where, ◌&&◌,
  not,
}
use aa_metadata_worker.Result.{Exception, graceful_shutdown, error, Result, ok, err}
use aa_metadata_worker.Unicode.{Unicode}
use aa_metadata_worker.Discovery.{strip_prefix, then_text, then_timestamp, is_collection_char}
use aa_metadata_worker.Database.{JobStatus, pending, Job, Db}
use aa_metadata_worker.State.Modes.{get_collection_mode}
use aa_metadata_worker.State.Jobs.{
  requeue_running, requeue, Claim, job_by_id, is_running, claim_filter_analysis_job,
  update_filter_analysis_progress, complete_filter_analysis, fail_filter_analysis,
}
use aa_metadata_worker.Run.{failure_text}

abbrev pub upload_records : Text
upload_records = codes "upload_records"

module _ (u : Unicode) where
  -- `\d{8}T\d{6}Z__` at the head of a text
  abbrev pub is_stamp : Text → Bool
  is_stamp s = is_some (then_text u (codes "__") (then_timestamp u (some s)))

  -- `([a-z0-9_]+?)__` before the stamp: the shortest that fits.
  unfoldable pub match_group : Text → Text → Option Text
  match_group taken [] = none
  match_group taken (c ∷ s) =
      let longer = match_group (taken ++ (c ∷ [])) s in
      let here : Bool = elim (strip_prefix (codes "__") (c ∷ s)) [
        | none ↦ false
        | some rest ↦ is_stamp rest
      ] in
      if nonempty taken && here then some taken else if is_collection_char u c then longer else none

  -- Without the group the match has none to return.
  unfoldable pub subcollection_of : Option Text → Option Text
  unfolding match_group strip_prefix
  subcollection_of none = none
  subcollection_of (some aacid) = elim (strip_prefix (codes "aacid__upload_records_") aacid) [
    | none ↦ none
    | some rest ↦ match_group [] rest
  ]

-- A line of the payload: the bytes that have been read, whether a report is due, and whether a stop
-- has been requested by then.
pub record ScanEvent : Type 0 where
  pub line : Text
  pub bytes : ℕ
  pub due : Bool
  pub stop : Bool

-- The local variables of `analyze_payload` and the database.
pub record Scan : Type 0 where
  pub counts : Dict Text ℕ
  pub scanned : ℕ
  pub latest_bytes : ℕ
  pub db : Db

abbrev pub interrupted : Exception
interrupted = error (codes "InterruptedError") (codes "Filter analysis stopped during shutdown.")

abbrev pub zero_counts : List Text → Dict Text ℕ
zero_counts [] = []
zero_counts (name ∷ names) = insert name 0 (zero_counts names)

-- `if name in counts: counts[name] += 1`
unfoldable pub count_name : Option Text → Dict Text ℕ → Dict Text ℕ
count_name none counts = counts
count_name (some name) counts = elim (lookup name counts) [
  | none ↦ counts
  | some n ↦ insert name (n + 1) counts
]

-- `json.loads(line)` and the `aacid` of the value. A line that is no JSON has none; a value that is no
-- object raises, and so does an `aacid` that `subcollection_of` cannot match.
abbrev pub Reader : Type 0
Reader = Text → Option (Result (Option Text))

module _ (u : Unicode) (aacid_of : Reader) where
  -- What a line counts for.
  abbrev pub name_of : Text → Result (Option Text)
  name_of line = elim (aacid_of line) [
    | none ↦ ok none
    | some read ↦ elim read [ err e ↦ err e | ok aacid ↦ ok (subcollection_of u aacid) ]
  ]

module _ (u : Unicode) (aacid_of : Reader) (job_id : ℕ) where
  -- The callback, and one line with what it counts for.
  unfoldable pub scan_line : Option Text → ScanEvent → Scan → Scan
  unfolding count_name
  scan_line name ev st = record {
    counts = count_name name st.counts;
    scanned = st.scanned + 1;
    latest_bytes = ev.bytes;
    db = if ev.due then update_filter_analysis_progress job_id ev.bytes st.scanned st.db else st.db;
  }

  -- A stop is seen after the callback and before the line; a line that raises, after it too.
  abbrev pub stopped_at : ScanEvent → Scan → Db
  stopped_at ev st =
      if ev.due then update_filter_analysis_progress job_id ev.bytes st.scanned st.db else st.db

  unfoldable pub scan_lines : List ScanEvent → Scan → Result Scan × Db
  scan_lines [] st = (ok st, st.db)
  scan_lines (ev ∷ events) st =
      elim (if ev.stop then err interrupted else name_of u aacid_of ev.line) [
        | err e ↦ (err e, stopped_at ev st)
        | ok name ↦ scan_lines events (scan_line name ev st)
      ]

  -- The counts, the number of lines, and the database after the last report.
  unfoldable pub analyze_payload :
      List Text → ℕ → List ScanEvent → Db → Result (Dict Text ℕ × ℕ) × Db
  analyze_payload names size events db =
      let (r, db1) =
        scan_lines events
          (record { counts = zero_counts names; scanned = 0; latest_bytes = 0; db = db }) in
      elim r [
        | err e ↦ (err e, db1)
        | ok st ↦ (
          ok (st.counts, st.scanned),
          update_filter_analysis_progress job_id (max st.latest_bytes size) st.scanned db1,
        )
      ]

abbrev pub is_interruption : Exception → Bool
is_interruption graceful_shutdown = false
is_interruption (error name message) = name == codes "InterruptedError"

-- The retained payload of the upload collection.
pub record ScanFile : Type 0 where
  pub size : ℕ
  pub events : List ScanEvent

abbrev pub wrong_collection : Exception
wrong_collection =
    error (codes "ValueError") (codes "Only upload_records supports subcollection analysis.")

abbrev pub no_payload : Exception
no_payload =
    error (codes "FileNotFoundError")
      (codes "The retained upload_records payload is no longer available.")

abbrev pub wrong_release : Exception
wrong_release =
    error (codes "RuntimeError") (codes "The retained payload belongs to a different release.")

abbrev pub is_identifier : Text → Option Text → Bool
is_identifier identifier none = false
is_identifier identifier (some t) = t == identifier

module _ (u : Unicode) (aacid_of : Reader) (file : Option ScanFile) where
  unfoldable pub process_filter_analysis_job : Claim → Db → Result (Unit {0}) × Db
  process_filter_analysis_job job db =
      if not (job.collection == upload_records) then (err wrong_collection, db) else elim file [
        | none ↦ (err no_payload, db)
        | some f ↦
            if not (
              is_identifier job.release_identifier
                ((get_collection_mode upload_records db).last_imported_identifier))
            then (err wrong_release, db)
            else (let (r, db1) =
                  analyze_payload u aacid_of job.id (keys job.filters_snapshot) f.size f.events
                    db in
                elim r [
                  | err e ↦ (err e, db1)
                  | ok (counts, scanned) ↦ (
                    ok tt,
                    complete_filter_analysis job.id job.release_id job.filters_snapshot counts
                        f.size scanned db1,
                  )
                ])
      ]

  -- One round of the worker: the flag says that it goes on.
  unfoldable pub work_once : (ℕ → Bool) → Db → Bool × Db
  work_once locked db =
      let (claimed, db1) = claim_filter_analysis_job locked db in
      elim claimed [
        | none ↦ (true, db1)
        | some job ↦
            let (r, db2) = process_filter_analysis_job job db1 in
            elim r [
              | ok _ ↦ (true, db2)
              | err e ↦
                  if is_interruption e
                  then (false, requeue job.id db2)
                  else (true, fail_filter_analysis job.id (failure_text e) db2)
            ]
      ]
