-- ===== src/Worker/Loop/Starts.antt =====
-- sync/worker.py: when the worker starts a pass.
use aa_metadata_worker.Prelude.{ℕ, ◌≡◌, true, false, arith, inl, inr, none}
use aa_metadata_worker.Result.{Result, error, graceful_shutdown, Result-cases}
use aa_metadata_worker.Database.{Db}
use aa_metadata_worker.State.Commands.{is_paused}
use aa_metadata_worker.Worker.Poller.{poll}
use aa_metadata_worker.Worker.Loop.{
  Surroundings, Loop, starts, poll_once, wait_due, start_pass, decide, round, polls,
}

module _ (s : Surroundings) where
  poll_once-paused :
      (l : Loop)
      → (poll_once s l).crashed ≡ false
      → s.fails l.number ≡ none
      → (poll_once s l).poller.paused ≡ is_paused (poll_once s l).db
  unfolding poll_once poll
  poll_once-paused l alive h = ground (arith, alive, h)

  start_pass-db :
      (l : Loop) (db : Db) (r : Result (Unit {0})) → (start_pass s l).1 ≡ starts db r → db ≡ l.db
  unfolding start_pass
  start_pass-db l db r h = elim (Result-cases (s.run_sync l.poller.shutdown l.db).0) [
    | inl (_, e) ↦ ground (arith, e, h)
    | inr (graceful_shutdown, e) ↦ ground (arith, e, h)
    | inr (error name message, e) ↦ ground (arith, e, h)
  ]

  -- What holds where a pass starts, by the poll before it.
  abbrev pub IsReady : Loop → Db → Type 0
  IsReady l db =
      let polled = poll_once s l in
      (db ≡ polled.db)
      × (polled.poller.paused ≡ false)
      × (s.fails l.number ≡ none → is_paused db ≡ false)
      × (s.sync_enabled ≡ true)
      × (l.poller.stopping ≡ false)

  decide-starts :
      (l : Loop) (db : Db) (r : Result (Unit {0})) → (decide s l).1 ≡ starts db r → IsReady l db
  unfolding decide
  decide-starts l db r h =
      let polled = poll_once s l in
      let ready = record polled { poller = record (polled.poller) { run_requested = false } } in
      let same : db ≡ polled.db = ground (arith, h, start_pass-db ready db r) in
      let free : polled.poller.paused ≡ false = ground (arith, h) in
      let alive : polled.crashed ≡ false = ground (arith, h) in
      (
        same,
        free,
        λ k. ground (arith, poll_once-paused l alive k, free, same),
        ground (arith, h),
        ground (arith, h),
      )

  -- A round starts a pass only while synchronization is enabled, the worker has not been asked to
  -- stop, and its own flag, as the poll before the pass leaves it, does not say that it is paused. If
  -- no error ended this poll, the database from which the pass starts is not paused either.
  pub round-starts :
      (due_in : ℕ) (l : Loop) (db : Db) (r : Result (Unit {0}))
      → (round s due_in l).1 ≡ starts db r
      → IsReady (wait_due s (polls due_in) l) db
  unfolding round
  round-starts due_in l db r h = ground (arith, h, decide-starts (wait_due s (polls due_in) l) db r)
