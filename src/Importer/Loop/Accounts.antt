-- ===== src/Importer/Loop/Accounts.antt =====
-- The statistics of `import_release` against a plain count of the lines.
use aa_metadata_worker.Prelude.{
  ℕ, ◌+◌, ◌*◌, ◌≤◌, ◌<◌, ◌≡◌, refl, Text, Bool, true, false, Option, none, some, List, [], ◌∷◌,
  ◌++◌, arith, if◌then◌else◌, length, nonempty, ltb, Bool-cases, inl, inr, max, nat_eq,
}
use aa_metadata_worker.Result.{Result, Result-cases, ok, err}
use aa_metadata_worker.Unicode.{Unicode}
use aa_metadata_worker.Records.{NormalizedRecord}
use aa_metadata_worker.Database.{Db}
use aa_metadata_worker.Importer.Batch.{ImportStats, process_batch}
use aa_metadata_worker.Importer.Loop.{
  Import, Event, ImportSettings, too_many, write_deltas, flush, take_records, take_line,
  count_discarded, flush_if_full, report, on_event, start, import_loop, finish, import_release,
}

abbrev pub is_failure : Result (List NormalizedRecord) → Bool
is_failure (err _) = true
is_failure (ok _) = false

abbrev pub is_skip : Result (List NormalizedRecord) → Bool
is_skip (err _) = false
is_skip (ok []) = true
is_skip (ok (_ ∷ _)) = false

-- How many lines have a parse of this kind.
abbrev pub count_lines :
    (Result (List NormalizedRecord) → Bool)
    → (Text → Result (List NormalizedRecord))
    → List Event
    → ℕ
count_lines p parse [] = 0
count_lines p parse (ev ∷ events) =
    (if p (parse ev.line) then 1 else 0) + count_lines p parse events

-- The three statistics that count lines.
abbrev Tally : ImportStats → ImportStats → ℕ → ℕ → ℕ → Type 0
Tally a b seen failures skipped =
    (b.seen ≡ a.seen + seen)
    × (b.failures ≡ a.failures + failures)
    × (b.skipped ≡ a.skipped + skipped)

take_records-Tally :
    (records : List NormalizedRecord) (st : Import)
    → Tally st.stats (take_records records st).stats 0 0 0
unfolding take_records
take_records-Tally [] st = omega arith
take_records-Tally (r ∷ records) st = ground (
  arith,
  take_records-Tally records (record st { stats = count_discarded r st.stats }),
  take_records-Tally records (record st { batch = st.batch ++ (r ∷ []) }),
)

take_line-Tally :
    (parse : Text → Result (List NormalizedRecord)) (line : Text) (st : Import)
    → Tally st.stats
        (take_line parse line st).stats
        1
        (if is_failure (parse line) then 1 else 0)
        (if is_skip (parse line) then 1 else 0)
unfolding take_line
take_line-Tally parse line st = elim (Result-cases (parse line)) [
  | inr (x, e) ↦ rw (e, take_line) (omega arith)
  | inl ([], e) ↦ rw (e, take_line) (omega arith)
  | inl (r ∷ rest, e) ↦
      let stats : ImportStats = record (st.stats) { seen = st.stats.seen + 1 } in
      let t = take_records-Tally (r ∷ rest) (record st { stats = stats }) in
      rw (e, take_line) (omega arith)
]

process_batch-Tally :
    (u : Unicode) (records : List NormalizedRecord) (stats : ImportStats) (db : Db)
    {stats' : ImportStats} {db' : Db}
    → process_batch u records stats db ≡ ok (stats', db')
    → Tally stats stats' 0 0 0
unfolding process_batch
process_batch-Tally u records stats db h = ground arith

write_deltas-stats : (i : ℕ) (st : Import) → (write_deltas i st).stats ≡ st.stats
unfolding write_deltas
write_deltas-stats i st = refl

report-stats :
    (i total : ℕ) (progress : Option ℕ) (st : Import)
    → (report i total progress st).stats ≡ st.stats
report-stats i total none st = refl
report-stats i total (some done) st = refl

module _ (u : Unicode) (release_id : ℕ) where
  flush-Tally : (st : Import) → Tally st.stats (flush u release_id st).1.stats 0 0 0
  unfolding flush
  flush-Tally st = elim (Bool-cases (nonempty st.batch)) [
    | inr e ↦ rw e (omega arith)
    | inl e ↦ elim (Result-cases (process_batch u st.batch st.stats st.db)) [
      | inr (x, raised) ↦ rw (e, raised) (omega arith)
      | inl ((stats, db), returned) ↦
          let t = process_batch-Tally u st.batch st.stats st.db returned in
          rw (e, returned) (omega arith)
    ]
  ]

  module _ (s : ImportSettings) (parse : Text → Result (List NormalizedRecord)) (total : ℕ) where
    flush_if_full-Tally :
        (st : Import) → Tally st.stats (flush_if_full u release_id s st).1.stats 0 0 0
    unfolding flush_if_full
    flush_if_full-Tally st = ground (arith, flush-Tally st, flush-Tally (flush u release_id st).1)

    on_event-Tally :
        (ev : Event) (st : Import)
        → (on_event u release_id s parse total ev st).0 ≡ ok tt
        → Tally st.stats
            (on_event u release_id s parse total ev st).1.stats
            1
            (if is_failure (parse ev.line) then 1 else 0)
            (if is_skip (parse ev.line) then 1 else 0)
    unfolding on_event
    on_event-Tally ev st h =
        let st1 = report release_id total ev.progress st in
        ground (
          arith,
          report-stats release_id total ev.progress st,
          take_line-Tally parse ev.line st1,
          flush_if_full-Tally (take_line parse ev.line st1),
        )

    import_loop-Tally :
        (events : List Event) (st : Import)
        → (import_loop u release_id s parse total events st).0 ≡ ok tt
        → Tally st.stats
            (import_loop u release_id s parse total events st).1.stats
            (length events)
            (count_lines is_failure parse events)
            (count_lines is_skip parse events)
    unfolding import_loop
    import_loop-Tally [] st h = omega arith
    import_loop-Tally (ev ∷ events) st h = ground (
      arith,
      on_event-Tally ev st,
      import_loop-Tally events (on_event u release_id s parse total ev st).1,
    )

    finish-Tally :
        (st : Import) (stats : ImportStats)
        → (finish u release_id s total st).0 ≡ ok stats
        → Tally st.stats stats 0 0 0 × (0 < stats.seen) × (too_many s stats ≡ false)
    unfolding finish
    finish-Tally st stats h = ground (arith, flush-Tally st)

within_rate :
    (s : ImportSettings) (stats : ImportStats)
    → 0 < stats.seen
    → too_many s stats ≡ false
    → stats.failures * s.abort_den ≤ s.abort_num * stats.seen
within_rate s stats pos rate =
    let e : max stats.seen 1 ≡ stats.seen = omega arith in
    let rate' : ltb (s.abort_num * stats.seen) (stats.failures * s.abort_den) ≡ false =
      rw e at rate in
    ground arith

-- An import that returns has read every line once: `seen` is the number of lines, which is not 0,
-- `failed` the number of lines that could not be parsed, `skipped` the number of lines without a
-- record, and the share of failures does not exceed the abort rate.
pub import_release-accounts :
    (u : Unicode) (release_id : ℕ) (s : ImportSettings)
    (parse : Text → Result (List NormalizedRecord)) (total : ℕ) (events : List Event) (db : Db)
    (stats : ImportStats)
    → (import_release u release_id s parse total events db).0 ≡ ok stats
    → (stats.seen ≡ length events)
      × (0 < length events)
      × (stats.failures ≡ count_lines is_failure parse events)
      × (stats.skipped ≡ count_lines is_skip parse events)
      × (count_lines is_failure parse events * s.abort_den ≤ s.abort_num * length events)
unfolding import_release
import_release-accounts u release_id s parse total events db stats h =
    let st0 = start release_id total db in
    let st1 = (import_loop u release_id s parse total events st0).1 in
    let l = import_loop-Tally u release_id s parse total events st0 in
    let f = finish-Tally u release_id s parse total st1 stats in
    let done : (import_loop u release_id s parse total events st0).0 ≡ ok tt = ground arith in
    let finished : (finish u release_id s total st1).0 ≡ ok stats = ground arith in
    let (a, b, c) = l done in
    let ((d, e, g), pos, rate) = f finished in
    let seen : stats.seen ≡ length events = omega arith in
    let failures : stats.failures ≡ count_lines is_failure parse events = omega arith in
    (
      seen,
      omega arith,
      failures,
      omega arith,
      rw (← failures, ← seen) (within_rate s stats pos rate),
    )
