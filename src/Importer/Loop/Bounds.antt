-- ===== src/Importer/Loop/Bounds.antt =====
-- The memory of `import_release`: what is buffered between two lines is less than one batch.
use aa_metadata_worker.Prelude.{ℕ, ◌-◌, ◌<◌, ◌≡◌, Text, List, [], ◌∷◌, arith, length, text_eq}
use aa_metadata_worker.Result.{Result, ok}
use aa_metadata_worker.Unicode.{Unicode}
use aa_metadata_worker.Records.{NormalizedRecord}
use aa_metadata_worker.Importer.Loop.{
  Import, Event, ImportSettings, batch_size, flush, flush_if_full, on_event, import_loop, take_line,
  report,
}

-- Fewer records are buffered than a batch holds, and fewer lines than that are not yet counted in
-- the database.
abbrev pub IsBounded : ImportSettings → Import → Type 0
IsBounded s st = (length st.batch < batch_size s) × (st.stats.seen - st.flushed.seen < batch_size s)

module _ (u : Unicode) (release_id : ℕ) (s : ImportSettings) where
  flush_empties :
      (st : Import)
      → (flush u release_id st).0 ≡ ok tt
      → (length (flush u release_id st).1.batch ≡ 0)
        × ((flush u release_id st).1.stats.seen ≡ (flush u release_id st).1.flushed.seen)
  unfolding flush
  flush_empties st h = ground arith

  flush_if_full-IsBounded :
      (st : Import)
      → (flush_if_full u release_id s st).0 ≡ ok tt
      → IsBounded s (flush_if_full u release_id s st).1
  unfolding flush_if_full
  flush_if_full-IsBounded st h = ground (arith, flush_empties st)

  on_event-IsBounded :
      (parse : Text → Result (List NormalizedRecord)) (total : ℕ) (ev : Event) (st : Import)
      → (on_event u release_id s parse total ev st).0 ≡ ok tt
      → IsBounded s (on_event u release_id s parse total ev st).1
  unfolding on_event
  on_event-IsBounded parse total ev st h = ground (
    arith,
    flush_if_full-IsBounded (take_line parse ev.line (report release_id total ev.progress st)),
  )

  -- Whatever the lines and however many: between two lines the buffer holds less than one batch,
  -- and less than one batch of lines is not yet counted in the database.
  pub import_loop-IsBounded :
      (parse : Text → Result (List NormalizedRecord)) (total : ℕ) (events : List Event)
      (st : Import)
      → IsBounded s st
      → (import_loop u release_id s parse total events st).0 ≡ ok tt
      → IsBounded s (import_loop u release_id s parse total events st).1
  unfolding import_loop
  import_loop-IsBounded parse total [] st b h = b
  import_loop-IsBounded parse total (ev ∷ events) st b h = ground (
    arith,
    on_event-IsBounded parse total ev st,
    import_loop-IsBounded parse total events (on_event u release_id s parse total ev st).1,
  )
