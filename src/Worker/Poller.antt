-- ===== src/Worker/Poller.antt =====
-- sync/worker.py: `CommandPoller`, with the polls that an error of the database ends.
use aa_metadata_worker.Prelude.{
  ℕ, Option, none, some, take, Bool, true, false, List, [], ◌∷◌, ◌≡◌, refl, sym, ◌||◌, not,
  if◌then◌else◌, arith, text_eq,
}
use aa_metadata_worker.Database.{Command, run_now, pause, resume, Db}
use aa_metadata_worker.State.Commands.{pop_pending_commands, is_paused, set_paused}
use aa_metadata_worker.State.Commands.Queue.{is_paused-set_paused}

-- The fields of the poller, the flag of sync/importer.py that stops an import, and the event that
-- stops the worker.
pub record Poller : Type 0 where
  pub run_requested : Bool
  pub paused : Bool
  pub shutdown : Bool
  pub stopping : Bool

-- The branch of one command.
unfoldable pub on_command : Command → Poller × Db → Poller × Db
on_command run_now (p, db) = (record p { run_requested = true }, db)
on_command pause (p, db) =
    (record p { paused = true; shutdown = p.shutdown || not p.stopping }, set_paused true db)
on_command resume (p, db) = (record p { paused = false }, set_paused false db)

unfoldable pub on_commands : List (ℕ × Command) → Poller × Db → Poller × Db
on_commands [] st = st
on_commands ((_, command) ∷ rest) st = on_commands rest (on_command command st)

unfoldable pub poll : (ℕ → Bool) → Poller × Db → Poller × Db
poll locked (p, db) =
    let (rows, db1) = pop_pending_commands locked db in
    let (p2, db2) = on_commands rows (p, db1) in (record p2 { paused = is_paused db2 }, db2)

-- A poll that an error of the database ends: when the commands are read, or after some of them have
-- been taken and as many as the number says were followed. The flags stay as they are then.
unfoldable pub poll_failing : Option ℕ → (ℕ → Bool) → Poller × Db → Poller × Db
poll_failing none locked st = st
poll_failing (some followed) locked (p, db) =
    let (rows, db1) = pop_pending_commands locked db in on_commands (take followed rows) (p, db1)

-- `install_signal_handlers` clears the flag first; off the main thread `signal.signal` then raises,
-- which is swallowed.
unfoldable pub clear_pause_interrupt : Poller → Poller
clear_pause_interrupt p = record p { shutdown = false }

-- What the commands say about pausing, the last one counting.
abbrev pub last_word : Bool → List (ℕ × Command) → Bool
last_word before [] = before
last_word before ((_, run_now) ∷ rest) = last_word before rest
last_word before ((_, pause) ∷ rest) = last_word true rest
last_word before ((_, resume) ∷ rest) = last_word false rest

abbrev pub asks_run : List (ℕ × Command) → Bool
asks_run [] = false
asks_run ((_, run_now) ∷ rest) = true
asks_run ((_, pause) ∷ rest) = asks_run rest
asks_run ((_, resume) ∷ rest) = asks_run rest

abbrev pub asks_pause : List (ℕ × Command) → Bool
asks_pause [] = false
asks_pause ((_, pause) ∷ rest) = true
asks_pause ((_, run_now) ∷ rest) = asks_pause rest
asks_pause ((_, resume) ∷ rest) = asks_pause rest

on_commands-paused :
    (rows : List (ℕ × Command)) (p : Poller) (db : Db)
    → is_paused (on_commands rows (p, db)).1 ≡ last_word (is_paused db) rows
unfolding on_commands on_command
on_commands-paused [] p db = refl
on_commands-paused ((_, run_now) ∷ rest) p db = on_commands-paused rest _ db
on_commands-paused ((_, pause) ∷ rest) p db =
    rw
      (
        on_commands-paused rest
            (record p { paused = true; shutdown = p.shutdown || not p.stopping })
            (set_paused true db),
        is_paused-set_paused true db,
      )
      refl
on_commands-paused ((_, resume) ∷ rest) p db =
    rw
      (
        on_commands-paused rest (record p { paused = false }) (set_paused false db),
        is_paused-set_paused false db,
      )
      refl

on_commands-flags :
    (rows : List (ℕ × Command)) (p : Poller) (db : Db)
    → ((on_commands rows (p, db)).0.run_requested ≡ (p.run_requested || asks_run rows))
      × ((on_commands rows (p, db)).0.stopping ≡ p.stopping)
      × ((on_commands rows (p, db)).0.shutdown
          ≡ (p.shutdown || (if p.stopping then false else asks_pause rows)))
unfolding on_commands on_command
on_commands-flags [] p db = (ground arith, refl, ground arith)
on_commands-flags ((_, run_now) ∷ rest) p db =
    ground (arith, on_commands-flags rest (record p { run_requested = true }) db)
on_commands-flags ((_, pause) ∷ rest) p db = ground (
  arith,
  on_commands-flags rest (record p { paused = true; shutdown = p.shutdown || not p.stopping })
      (set_paused true db),
)
on_commands-flags ((_, resume) ∷ rest) p db =
    ground (arith, on_commands-flags rest (record p { paused = false }) (set_paused false db))

pop-is_paused :
    (locked : ℕ → Bool) (db : Db) → is_paused (pop_pending_commands locked db).1 ≡ is_paused db
unfolding pop_pending_commands is_paused
pop-is_paused locked db = refl

-- After a poll the database is paused exactly if the last pause or resume among the commands taken
-- was a pause, or there was none and it was paused before; the poller agrees with the database, a run
-- is requested if one was or a run command was taken, and a pause that was taken while the worker is
-- not stopping asks an import to stop.
pub poll_lem :
    (locked : ℕ → Bool) (p : Poller) (db : Db)
    → let rows = (pop_pending_commands locked db).0 in
      let after = poll locked (p, db) in
      (is_paused after.1 ≡ last_word (is_paused db) rows)
      × (after.0.paused ≡ is_paused after.1)
      × (after.0.run_requested ≡ (p.run_requested || asks_run rows))
      × (after.0.shutdown ≡ (p.shutdown || (if p.stopping then false else asks_pause rows)))
unfolding poll
poll_lem locked p db =
    let (rows, db1) = pop_pending_commands locked db in
    let (run, _, stop) = on_commands-flags rows p db1 in
    (rw (sym (pop-is_paused locked db)) (on_commands-paused rows p db1), refl, run, stop)
