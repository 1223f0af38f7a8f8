-- ===== src/Worker/Loop.antt =====
-- sync/worker.py: a round of `run_worker_forever`. Between two polls the other processes write to the
-- database and the stop event may be set; both are given for each poll by its number. The wait is a
-- number of microseconds, and is divided into as many polls as the loop makes.
pub mod Starts
use aa_metadata_worker.Prelude.{
  ℕ, zero, suc, ◌+◌, ◌-◌, ◌*◌, ◌/◌, Text, Bool, true, false, Option, none, some, ◌&&◌, List, ◌||◌,
  not, if◌then◌else◌,
}
use aa_metadata_worker.Result.{Exception, graceful_shutdown, error, Result, ok, err}
use aa_metadata_worker.Database.{Db}
use aa_metadata_worker.Worker.Poller.{Poller, poll, poll_failing, clear_pause_interrupt}

abbrev pub poll_interval : ℕ
poll_interval = 10000000

-- How often the loop waits: `due_in` falls by the poll interval, and by what is left at the end.
abbrev pub polls : ℕ → ℕ
polls due_in = (due_in + (poll_interval - 1)) / poll_interval

pub record Surroundings : Type 0 where
  pub others : ℕ → Db → Db
  pub stops : ℕ → Bool
  pub stops_in_pass : ℕ → Bool
  pub locked : ℕ → ℕ → Bool
  -- A poll that an error of the database ends, and one that gets no connection.
  pub fails : ℕ → Option (Option ℕ)
  pub refused : ℕ → Bool
  -- A pass, with the flag that stops its import; it returns, or raises.
  pub run_sync : Bool → Db → Result (Unit {0}) × Db
  pub sync_enabled : Bool

pub record Loop : Type 0 where
  pub poller : Poller
  pub db : Db
  pub number : ℕ
  pub connected : Bool
  -- An exception of `connect` has ended the worker.
  pub crashed : Bool

-- Why a round ends, and whether a pass was started.
pub data Round : Type 0 where
  exits : Round
  ignores : Round
  starts : Db → Result (Unit {0}) → Round

module _ (s : Surroundings) where
  -- `request_stop` sets the event and the flag.
  abbrev pub stopped : Loop → Loop
  stopped l = record l { poller = record (l.poller) { stopping = true; shutdown = true } }

  -- The writes of the others, and a poll.
  unfoldable pub poll_once : Loop → Loop
  poll_once l =
      let n = l.number in
      let db0 = s.others n l.db in
      let moved : Poller × Db → Bool → Loop = λ st connected. record {
        poller = st.0;
        db = st.1;
        number = n + 1;
        connected = connected;
        crashed = l.crashed;
      } in
      if not l.connected && s.refused n
      then record (moved (l.poller, db0) false) { crashed = true }
      else elim (s.fails n) [
        | none ↦ moved (poll (s.locked n) (l.poller, db0)) true
        | some fault ↦ moved (poll_failing fault (s.locked n) (l.poller, db0)) false
      ]

  -- The inner loop.
  unfoldable pub wait_due : ℕ → Loop → Loop
  wait_due zero l = l
  wait_due (suc n) l =
      if l.poller.stopping
      then l
      else if s.stops l.number
      then stopped l
      else (let l' = poll_once l in
          if l'.crashed || l'.poller.run_requested || l'.poller.paused then l' else wait_due n l')

  -- The pass, and its exception handlers; the flag says that the worker goes on.
  unfoldable pub start_pass : Loop → Bool × Round × Loop
  unfolding clear_pause_interrupt
  start_pass l =
      let (r, db) = s.run_sync l.poller.shutdown l.db in
      let ended = record l { db = db } in
      let l' = if s.stops_in_pass l.number then stopped ended else ended in
      let round = starts l.db r in
      elim r [
        | ok _ ↦ (true, round, l')
        | err graceful_shutdown ↦
            if l'.poller.stopping
            then (false, round, l')
            else (true, round, record l' { poller = clear_pause_interrupt l'.poller })
        | err (error name message) ↦ (true, round, l')
      ]

  -- The body of the outer loop after the wait.
  unfoldable pub decide : Loop → Bool × Round × Loop
  decide l =
      if l.poller.stopping || l.crashed
      then (false, exits, l)
      else (let polled = poll_once l in
          let l' = record polled { poller = record (polled.poller) { run_requested = false } } in
          if polled.crashed
          then (false, exits, polled)
          else if l'.poller.paused
          then (true, ignores, l')
          else if not s.sync_enabled
          then (true, ignores, l')
          else start_pass l')

  -- One round, with the wait until the schedule.
  unfoldable pub round : ℕ → Loop → Bool × Round × Loop
  round due_in l =
      if l.poller.stopping then (false, exits, l) else decide (wait_due (polls due_in) l)
