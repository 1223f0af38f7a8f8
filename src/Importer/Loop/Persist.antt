-- ===== src/Importer/Loop/Persist.antt =====
-- The counters of `import_release`: what the release row holds when the import ends.
use aa_metadata_worker.Prelude.{
  ℕ, ◌+◌, ◌≤◌, ◌≡◌, refl, ◌∙◌, ap, sym, Text, false, Option, none, some, List, [], ◌∷◌, ◌++◌, arith,
  nonempty, Bool-cases, inl, inr, min,
}
use aa_metadata_worker.Result.{Result, Result-cases, ok}
use aa_metadata_worker.Unicode.{Unicode}
use aa_metadata_worker.Records.{NormalizedRecord}
use aa_metadata_worker.Database.{Counters, importing, Db}
use aa_metadata_worker.State.Releases.{add_counters, update_release_counters}
use aa_metadata_worker.State.Releases.Counts.{
  release_counters, release_counters-update_release_counters,
  release_counters-update_discard_analysis, release_counters-update_import_progress,
  release_counters-set_release_status,
}
use aa_metadata_worker.Importer.Batch.{ImportStats, process_batch}
use aa_metadata_worker.Importer.Loop.{
  Import, Event, ImportSettings, counters_of, subtract, any_delta, reason_deltas, write_deltas,
  flush, take_records, take_line, count_discarded, flush_if_full, report, on_event, start,
  import_loop, finish, import_release,
}

-- No counter has fallen.
abbrev pub NotBelow : Counters → Counters → Type 0
NotBelow a b =
    (a.seen ≤ b.seen)
    × (a.inserted ≤ b.inserted)
    × (a.updated ≤ b.updated)
    × (a.skipped ≤ b.skipped)
    × (a.discarded ≤ b.discarded)
    × (a.failures ≤ b.failures)

module _ (release_id : ℕ) (base : Counters) where
  -- The release row holds what it held before the import and what has been flushed, and no more
  -- has been flushed than was counted.
  abbrev pub IsPersisted : Import → Type 0
  IsPersisted st =
      (release_counters release_id st.db ≡ some (add_counters base st.flushed))
      × NotBelow st.flushed (counters_of st.stats)

  process_batch_counts :
      (u : Unicode) (records : List NormalizedRecord) (stats : ImportStats) (db : Db)
      {stats' : ImportStats} {db' : Db}
      → process_batch u records stats db ≡ ok (stats', db')
      → (release_counters release_id db' ≡ release_counters release_id db)
        × NotBelow (counters_of stats) (counters_of stats')
        × (stats'.seen ≡ stats.seen)
  unfolding process_batch release_counters
  process_batch_counts u records stats db h = ground arith

  add_subtract :
      (a b : Counters)
      → NotBelow a b
      → add_counters (add_counters base a) (subtract b a) ≡ add_counters base b
  add_subtract a b h = ground arith

  no_delta : (a b : Counters) → NotBelow a b → any_delta (subtract b a) ≡ false → a ≡ b
  no_delta a b h e = ground arith

  write_deltas-counters :
      (st : Import)
      → IsPersisted st
      → release_counters release_id (write_deltas release_id st).db
        ≡ some (add_counters base (counters_of st.stats))
  unfolding write_deltas
  write_deltas-counters st p = ground (
    arith,
    no_delta st.flushed (counters_of st.stats) p.1,
    add_subtract st.flushed (counters_of st.stats) p.1,
    release_counters-update_release_counters release_id (subtract (counters_of st.stats) st.flushed)
        st.db,
    release_counters-update_discard_analysis release_id
        (reason_deltas st.flushed_reasons st.stats.discard_reasons) st.stats.discard_samples
        (update_release_counters release_id (subtract (counters_of st.stats) st.flushed) st.db),
    release_counters-update_discard_analysis release_id
        (reason_deltas st.flushed_reasons st.stats.discard_reasons) st.stats.discard_samples st.db,
  )

  NotBelow-refl : (a : Counters) → NotBelow a a
  NotBelow-refl a = omega arith

  NotBelow-trans : (a b c : Counters) → NotBelow a b → NotBelow b c → NotBelow a c
  NotBelow-trans a b c h k = omega arith

  write_deltas-IsPersisted :
      (st : Import)
      → IsPersisted st
      → IsPersisted (write_deltas release_id st)
        × ((write_deltas release_id st).flushed ≡ counters_of (write_deltas release_id st).stats)
  unfolding write_deltas
  write_deltas-IsPersisted st p = ((write_deltas-counters st p, NotBelow-refl _), refl)

  take_records-stats :
      (records : List NormalizedRecord) (st : Import)
      → ((take_records records st).db ≡ st.db)
        × ((take_records records st).flushed ≡ st.flushed)
        × NotBelow (counters_of st.stats) (counters_of (take_records records st).stats)
  unfolding take_records
  take_records-stats [] st = ground arith
  take_records-stats (r ∷ records) st = ground (
    arith,
    take_records-stats records (record st { stats = count_discarded r st.stats }),
    take_records-stats records (record st { batch = st.batch ++ (r ∷ []) }),
  )

  module _ (u : Unicode) where
    -- After a flush that returns, the row holds everything that has been counted.
    flush-counters :
        (st : Import)
        → IsPersisted st
        → IsPersisted (flush u release_id st).1
          × ((flush u release_id st).0 ≡ ok tt
              → (flush u release_id st).1.flushed ≡ counters_of (flush u release_id st).1.stats)
    unfolding flush
    flush-counters st p = elim (Bool-cases (nonempty st.batch)) [
      | inr e ↦ rw e (let (q, r) = write_deltas-IsPersisted st p in (q, λ _. r))
      | inl e ↦ elim (Result-cases (process_batch u st.batch st.stats st.db)) [
        | inr (x, raised) ↦ rw (e, raised) (p, λ h. cc)
        | inl ((stats, db), returned) ↦
            let st1 : Import = record st { stats = stats; db = db } in
            let (same, grown, _) = process_batch_counts u st.batch st.stats st.db returned in
            let p1 : IsPersisted st1 = (
              same ∙ p.0,
              NotBelow-trans st.flushed (counters_of st.stats) (counters_of stats) p.1 grown,
            ) in
            let (q, r) = write_deltas-IsPersisted st1 p1 in rw (e, returned) (q, λ _. r)
      ]
    ]

  take_line-IsPersisted :
      (parse : Text → Result (List NormalizedRecord)) (line : Text) (st : Import)
      → IsPersisted st
      → IsPersisted (take_line parse line st)
  unfolding take_line
  take_line-IsPersisted parse line st p = elim (Result-cases (parse line)) [
    | inr (x, e) ↦ rw (e, take_line) (p.0, omega arith)
    | inl ([], e) ↦ rw (e, take_line) (p.0, omega arith)
    | inl (r ∷ rest, e) ↦
        let stats : ImportStats = record (st.stats) { seen = st.stats.seen + 1 } in
        let (d, f, n) = take_records-stats (r ∷ rest) (record st { stats = stats }) in
        rw (e, take_line)
          (
            ap (release_counters release_id) d ∙ p.0 ∙ ap (λ c. some (add_counters base c)) (sym f),
            ground arith,
          )
  ]

  report-IsPersisted :
      (total : ℕ) (progress : Option ℕ) (st : Import)
      → IsPersisted st
      → IsPersisted (report release_id total progress st)
  report-IsPersisted total none st p = p
  report-IsPersisted total (some done) st p =
      (release_counters-update_import_progress release_id (min done total) total st.db ∙ p.0, p.1)

  module _ (u : Unicode) (s : ImportSettings) (parse : Text → Result (List NormalizedRecord)) where
    flush_if_full-IsPersisted :
        (st : Import) → IsPersisted st → IsPersisted (flush_if_full u release_id s st).1
    unfolding flush_if_full
    flush_if_full-IsPersisted st p =
        ground (arith, flush-counters u st p, flush-counters u (flush u release_id st).1)

    on_event-IsPersisted :
        (total : ℕ) (ev : Event) (st : Import)
        → IsPersisted st
        → IsPersisted (on_event u release_id s parse total ev st).1
    unfolding on_event
    on_event-IsPersisted total ev st p =
        let st1 = report release_id total ev.progress st in
        let p1 = report-IsPersisted total ev.progress st p in
        ground (
          arith,
          flush-counters u st1 p1,
          flush_if_full-IsPersisted (take_line parse ev.line st1)
              (take_line-IsPersisted parse ev.line st1 p1),
        )

    import_loop-IsPersisted :
        (total : ℕ) (events : List Event) (st : Import)
        → IsPersisted st
        → IsPersisted (import_loop u release_id s parse total events st).1
    unfolding import_loop
    import_loop-IsPersisted total [] st p = p
    import_loop-IsPersisted total (ev ∷ events) st p =
        let p1 = on_event-IsPersisted total ev st p in
        ground (
          arith,
          import_loop-IsPersisted total events (on_event u release_id s parse total ev st).1 p1,
        )

    finish-counters :
        (total : ℕ) (st : Import) (stats : ImportStats)
        → IsPersisted st
        → (finish u release_id s total st).0 ≡ ok stats
        → release_counters release_id (finish u release_id s total st).1
          ≡ some (add_counters base (counters_of stats))
    unfolding finish
    finish-counters total st stats p h =
        let st1 = (flush u release_id st).1 in
        let f = flush-counters u st p in
        ground (arith, f, release_counters-update_import_progress release_id total total st1.db)

-- When an import returns its statistics, the counters of its release have grown by exactly these
-- statistics: no flush is lost and none is counted twice.
pub import_release-counters :
    (u : Unicode) (release_id : ℕ) (s : ImportSettings)
    (parse : Text → Result (List NormalizedRecord)) (total : ℕ) (events : List Event) (db : Db)
    {base : Counters} {stats : ImportStats}
    → release_counters release_id db ≡ some base
    → (import_release u release_id s parse total events db).0 ≡ ok stats
    → release_counters release_id (import_release u release_id s parse total events db).1
      ≡ some (add_counters base (counters_of stats))
unfolding import_release
import_release-counters u release_id s parse total events db {base} {stats} known h =
    let st0 = start release_id total db in
    let p0 : IsPersisted release_id base st0 = (
      release_counters-update_import_progress release_id 0 total _
          ∙ release_counters-set_release_status release_id importing none db
          ∙ known
          ∙ ap some (ground arith),
      omega arith,
    ) in
    let p1 = import_loop-IsPersisted release_id base u s parse total events st0 p0 in
    ground (
      arith,
      finish-counters release_id base u s parse total
          (import_loop u release_id s parse total events st0).1 stats p1,
    )
