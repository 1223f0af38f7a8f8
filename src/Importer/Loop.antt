-- ===== src/Importer/Loop.antt =====
-- sync/importer.py: `import_release` and `validate_import`. The lines of the payload come as a list
-- of events, and `parse` is `json.loads` followed by the adapter's `parse`. The abort rate is a
-- fraction and is compared exactly; the messages of the two refusals stand without their numbers.
pub mod Accounts
pub mod Bounds
pub mod Persist
use aa_metadata_worker.Prelude.{
  ℕ, ◌+◌, ◌-◌, ◌*◌, ◌/◌, ◌%◌, ◌≤◌, ◌<◌, Text, Bool, true, false, Option, none, some, List, [], ◌∷◌,
  ◌++◌, ◌&&◌, ◌||◌, not, codes, Eq, ◌==◌, nat_eq, nat_discrete, text_eq, Dict, lookup, insert,
  get_or, length, take, nonempty, contains, ltb, leb, if◌then◌else◌, max, min,
}
use aa_metadata_worker.Result.{Exception, graceful_shutdown, error, Result, ok, err}
use aa_metadata_worker.Unicode.{Unicode}
use aa_metadata_worker.Records.{NormalizedRecord, truthy_text}
use aa_metadata_worker.Database.{Status, importing, validating, Counters, zero_counters, Sample, Db}
use aa_metadata_worker.State.Releases.{
  set_release_status, update_release_counters, update_discard_analysis, update_import_progress,
}
use aa_metadata_worker.Importer.Batch.{ImportStats, process_batch}

abbrev pub empty_stats : ImportStats
empty_stats = record {
  seen = 0;
  inserted = 0;
  updated = 0;
  skipped = 0;
  discarded = 0;
  failures = 0;
  batches = 0;
  error_samples = [];
  discard_reasons = [];
  discard_samples = [];
}

-- The local variables of `import_release` and the database.
pub record Import : Type 0 where
  pub batch : List NormalizedRecord
  pub stats : ImportStats
  pub flushed : Counters
  pub flushed_reasons : Dict Text ℕ
  pub db : Db

-- A line of the payload. `progress` is the position that `on_bytes` reports before the line, if its
-- throttle lets the report through; `stop` says that a shutdown has been requested by then.
pub record Event : Type 0 where
  pub line : Text
  pub progress : Option ℕ
  pub stop : Bool

pub record ImportSettings : Type 0 where
  pub sync_batch_size : ℕ
  pub abort_num : ℕ
  pub abort_den : ℕ

abbrev pub batch_size : ImportSettings → ℕ
batch_size s = max 1 s.sync_batch_size

-- `stats.failed / max(stats.seen, 1) > settings.sync_error_abort_rate`
abbrev pub too_many : ImportSettings → ImportStats → Bool
too_many s stats = ltb (s.abort_num * max stats.seen 1) (stats.failures * s.abort_den)

abbrev pub rate_error : Exception
rate_error =
    error (codes "RuntimeError") (codes "Error rate exceeds threshold; aborting release import.")

abbrev pub final_rate_error : Exception
final_rate_error = error (codes "RuntimeError") (codes "Final error rate exceeds threshold.")

abbrev pub no_records_error : Exception
no_records_error =
    error (codes "RuntimeError") (codes "Payload contained no records; refusing to mark completed.")

abbrev pub counters_of : ImportStats → Counters
counters_of s = record {
  seen = s.seen;
  inserted = s.inserted;
  updated = s.updated;
  skipped = s.skipped;
  discarded = s.discarded;
  failures = s.failures;
}

abbrev pub subtract : Counters → Counters → Counters
subtract a b = record {
  seen = a.seen - b.seen;
  inserted = a.inserted - b.inserted;
  updated = a.updated - b.updated;
  skipped = a.skipped - b.skipped;
  discarded = a.discarded - b.discarded;
  failures = a.failures - b.failures;
}

-- `any(deltas.values())`
abbrev pub any_delta : Counters → Bool
any_delta d =
    ltb 0 d.seen
    || ltb 0 d.inserted
    || ltb 0 d.updated
    || ltb 0 d.skipped
    || ltb 0 d.discarded
    || ltb 0 d.failures

abbrev pub reason_deltas : Dict Text ℕ → Dict Text ℕ → Dict Text ℕ
reason_deltas flushed [] = []
reason_deltas flushed ((reason, count) ∷ rest) =
    (reason, count - get_or reason 0 flushed) ∷ reason_deltas flushed rest

abbrev pub any_positive : Dict Text ℕ → Bool
any_positive [] = false
any_positive ((_, delta) ∷ rest) = ltb 0 delta || any_positive rest

-- The part of `flush` after the batch: the deltas go to the release row.
unfoldable pub write_deltas : ℕ → Import → Import
write_deltas release_id st =
    let deltas = subtract (counters_of st.stats) st.flushed in
    let reasons = reason_deltas st.flushed_reasons st.stats.discard_reasons in
    let db = if any_delta deltas then update_release_counters release_id deltas st.db else st.db in
    record st {
      db =
          if any_positive reasons
          then update_discard_analysis release_id reasons st.stats.discard_samples db
          else db;
      flushed_reasons =
          if any_positive reasons then st.stats.discard_reasons else st.flushed_reasons;
      flushed = counters_of st.stats;
      batch = [];
    }

module _ (u : Unicode) (release_id : ℕ) where
  -- A batch that cannot be merged raises before anything is written.
  unfoldable pub flush : Import → Result (Unit {0}) × Import
  unfolding write_deltas
  flush st =
      if nonempty st.batch
      then (elim (process_batch u st.batch st.stats st.db) [
        | err e ↦ (err e, st)
        | ok (stats, db) ↦ (ok tt, write_deltas release_id (record st { stats = stats; db = db }))
      ])
      else (ok tt, write_deltas release_id st)

abbrev hex_char : ℕ → ℕ
hex_char n = if ltb n 10 then n + 48 else n + 87

-- `bytes.hex()`
unfoldable pub to_hex : Text → Text
to_hex [] = []
to_hex (b ∷ rest) = hex_char (b / 16) ∷ hex_char (b % 16) ∷ to_hex rest

pub sample_discrete : Discrete Sample
sample_discrete = hlevel nat_discrete

instance abbrev pub sample_eq : Eq Sample
sample_eq = record { dec = sample_discrete }

abbrev pub sample_of : NormalizedRecord → Sample
sample_of r = record {
  md5 = to_hex r.md5;
  source_record_id = r.source_record_id;
  aacid = r.aacid;
  title = if nonempty r.title then some (take 160 r.title) else none;
  authors = take 3 r.authors;
}

abbrev pub reason_of : NormalizedRecord → Text
reason_of r = elim r.discard_reason [
  | none ↦ codes "unspecified"
  | some reason ↦ if nonempty reason then reason else codes "unspecified"
]

abbrev pub add_sample : Sample → List Sample → List Sample
add_sample s samples =
    if ltb (length samples) 3 && not (contains s samples) then samples ++ (s ∷ []) else samples

-- A record that its adapter has discarded is counted and may become a sample.
unfoldable pub count_discarded : NormalizedRecord → ImportStats → ImportStats
count_discarded r stats =
    let reason = reason_of r in
    record stats {
      discarded = stats.discarded + 1;
      discard_reasons =
          insert reason (get_or reason 0 stats.discard_reasons + 1) stats.discard_reasons;
      discard_samples =
          insert reason (add_sample (sample_of r) (get_or reason [] stats.discard_samples))
            stats.discard_samples;
    }

-- The loop over the records of one line.
unfoldable pub take_records : List NormalizedRecord → Import → Import
unfolding count_discarded
take_records [] st = st
take_records (r ∷ rest) st = take_records rest (
    if r.discarded
    then record st { stats = count_discarded r st.stats }
    else record st { batch = st.batch ++ (r ∷ []) })

abbrev pub describe : Exception → Text → Text
describe graceful_shutdown line = codes "GracefulShutdown:  :: " ++ take 200 line
describe (error name message) line = name ++ codes ": " ++ message ++ codes " :: " ++ take 200 line

abbrev pub add_error : Text → List Text → List Text
add_error text samples = if ltb (length samples) 20 then samples ++ (text ∷ []) else samples

-- `stats.seen += 1` and the `try` statement.
unfoldable pub take_line : (Text → Result (List NormalizedRecord)) → Text → Import → Import
unfolding take_records
take_line parse line st =
    let stats = record (st.stats) { seen = st.stats.seen + 1 } in
    elim (parse line) [
      | err e ↦ record st {
        stats = record stats {
          failures = stats.failures + 1;
          error_samples = add_error (describe e line) stats.error_samples;
        };
      }
      | ok [] ↦ record st { stats = record stats { skipped = stats.skipped + 1 } }
      | ok (r ∷ rest) ↦ take_records (r ∷ rest) (record st { stats = stats })
    ]

abbrev pub is_full : ImportSettings → Import → Bool
is_full s st =
    leb (batch_size s) (length st.batch) || leb (batch_size s) (st.stats.seen - st.flushed.seen)

-- `on_bytes`, when its throttle lets the report through
abbrev pub report : ℕ → ℕ → Option ℕ → Import → Import
report release_id total none st = st
report release_id total (some done) st = record st {
  db = update_import_progress release_id (min done total) total st.db;
}

-- The state in which the loop begins.
abbrev pub start : ℕ → ℕ → Db → Import
start release_id total db = record {
  batch = [];
  stats = empty_stats;
  flushed = zero_counters;
  flushed_reasons = [];
  db =
      update_import_progress release_id 0 total
        (set_release_status release_id importing none false db);
}

module _ (u : Unicode) (release_id : ℕ) (s : ImportSettings) where
  -- The tests behind the `try` statement. A second flush comes before the abort.
  unfoldable pub flush_if_full : Import → Result (Unit {0}) × Import
  flush_if_full st =
      if not (is_full s st)
      then (ok tt, st)
      else (let (r, st') = flush u release_id st in
          elim r [
            | err e ↦ (err e, st')
            | ok _ ↦
                if leb 10000 st'.stats.seen && too_many s st'.stats
                then (let (r2, st2) = flush u release_id st' in
                    elim r2 [ err e ↦ (err e, st2) | ok _ ↦ (err rate_error, st2) ])
                else (ok tt, st')
          ])

  -- The body of the `for` loop.
  unfoldable pub on_event :
      (Text → Result (List NormalizedRecord)) → ℕ → Event → Import → Result (Unit {0}) × Import
  on_event parse total ev st =
      let st1 = report release_id total ev.progress st in
      if ev.stop
      then (let (r, st') = flush u release_id st1 in
          elim r [ err e ↦ (err e, st') | ok _ ↦ (err graceful_shutdown, st') ])
      else flush_if_full (take_line parse ev.line st1)

  unfoldable pub import_loop :
      (Text → Result (List NormalizedRecord)) → ℕ → List Event → Import → Result (Unit {0}) × Import
  import_loop parse total [] st = (ok tt, st)
  import_loop parse total (ev ∷ events) st =
      let (r, st') = on_event parse total ev st in
      elim r [ err e ↦ (err e, st') | ok _ ↦ import_loop parse total events st' ]

  -- What follows the loop.
  unfoldable pub finish : ℕ → Import → Result ImportStats × Db
  finish total st =
      let (r, st1) = flush u release_id st in
      elim r [
        | err e ↦ (err e, st1.db)
        | ok _ ↦
            let db = update_import_progress release_id total total st1.db in
            if st1.stats.seen == 0
            then (err no_records_error, db)
            else if too_many s st1.stats
            then (err final_rate_error, db)
            else (ok st1.stats, db)
      ]

  unfoldable pub import_release :
      (Text → Result (List NormalizedRecord)) → ℕ → List Event → Db → Result ImportStats × Db
  import_release parse total events db =
      let (r, st) = import_loop parse total events (start release_id total db) in
      elim r [ err e ↦ (err e, st.db) | ok _ ↦ finish total st ]

abbrev pub no_records_seen : Exception
no_records_seen = error (codes "RuntimeError") (codes "Validation failed: no records seen.")

unfoldable pub validate_import : ℕ → ImportStats → Db → Result (Unit {0}) × Db
validate_import release_id stats db =
    let db' = set_release_status release_id validating none false db in
    if stats.seen == 0 then (err no_records_seen, db') else (ok tt, db')
