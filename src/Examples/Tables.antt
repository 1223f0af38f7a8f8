-- ===== src/Examples/Tables.antt =====
-- Commands, filters, jobs, the manifest, the schedule and the storage budget.
use aa_metadata_worker.Prelude.{
  nat_eq, All, ℕ, ◌+◌, ◌/◌, ◌*◌, ◌≤◌, ◌<◌, ◌≡◌, ◌↔◌, refl, Text, Bool, true, false, ◌||◌, none,
  List, [], ◌∷◌, ◌++◌, codes, arith, contains, Distinct, text_eq, text_discrete, nat_discrete, keys,
  lookup, get_or, IsSorted,
}
use aa_metadata_worker.Result.{ok}
use aa_metadata_worker.Unicode.{ascii}
use aa_metadata_worker.Database.{Db, pause}
use aa_metadata_worker.State.Commands.{ids, enqueue_command, pop_pending_commands, is_paused}
use aa_metadata_worker.State.Commands.Queue.{start, further, queues, pop_pending_commands-once}
use aa_metadata_worker.State.Filters.{effective_upload_blocked_subcollections}
use aa_metadata_worker.State.Filters.Effective.{effective-overrides}
use aa_metadata_worker.State.Jobs.{requeue, enqueue_filter_analysis, claim_filter_analysis_job}
use aa_metadata_worker.State.Jobs.Active.{IsSound}
use aa_metadata_worker.State.Jobs.Exclusive.{
  Queue, claimed_id, IsHeld, here, next, enqueue, claim, interrupt, JobReach-IsSound,
}
use aa_metadata_worker.Discovery.{find_release, Entry, latest_releases}
use aa_metadata_worker.Discovery.Newest.{current_of, IsNewest, latest_releases-IsNewest}
use aa_metadata_worker.Storage.{Amount, stop, warn, evaluate_storage}
use aa_metadata_worker.Storage.Budget.{evaluate_storage-allowed}
use aa_metadata_worker.Worker.Schedule.{
  parse_schedule, seconds_until, seconds_until-lands, target_of, wall_clock, day, split_colon,
  int_of, digits,
}
use aa_metadata_worker.Worker.Poller.{Poller, poll, poll_lem, last_word, asks_run, asks_pause}
use aa_metadata_worker.Normalize.{strip, lstrip, rstrip}
use aa_metadata_worker.Examples.{some, one_release}

abbrev free : ℕ → Bool
free i = false

abbrev queued : Db
queued = (enqueue_command pause none one_release).1

abbrev first_id : ℕ
first_id = (enqueue_command pause none one_release).0

handed_out : contains first_id (ids (pop_pending_commands free queued).0) ≡ true
unfolding pop_pending_commands enqueue_command nat_discrete
handed_out = refl

queued-below : All (λ c. c.id < queued.command_seq) queued.commands
unfolding enqueue_command
queued-below = (omega arith, tt)

-- Another command is queued before the next poll.
pop_pending_commands-once_example :
    contains first_id (
      ids
        (pop_pending_commands free
          (enqueue_command pause none (pop_pending_commands free queued).1).1).0)
    ≡ false
pop_pending_commands-once_example =
    pop_pending_commands-once free free first_id queued
      (enqueue_command pause none (pop_pending_commands free queued).1).1 queued-below handed_out
      (further start (queues pause none (pop_pending_commands free queued).1))

abbrev poller : Poller
poller = record { run_requested = false; paused = false; shutdown = false; stopping = false }

poll_lem_example :
    (is_paused (poll free (poller, queued)).1
      ≡ last_word (is_paused queued) (pop_pending_commands free queued).0)
    × ((poll free (poller, queued)).0.paused ≡ is_paused (poll free (poller, queued)).1)
    × ((poll free (poller, queued)).0.run_requested
        ≡ (false || asks_run (pop_pending_commands free queued).0))
    × ((poll free (poller, queued)).0.shutdown
        ≡ (false || asks_pause (pop_pending_commands free queued).0))
poll_lem_example = poll_lem free poller queued

abbrev filtered : Db
filtered = record one_release { filters = (codes "aaaaarg", false) ∷ (codes "misc", true) ∷ [] }

abbrev defaults : List Text
defaults = codes "aaaaarg" ∷ codes "airitibooks" ∷ []

filtered-Distinct : Distinct (keys filtered.filters)
unfolding text_discrete nat_discrete
filtered-Distinct = (refl, (refl, tt))

effective-overrides_example :
    ((x : Text)
      → contains x (effective_upload_blocked_subcollections filtered defaults)
        ≡ get_or x (contains x defaults) filtered.filters)
    × IsSorted (effective_upload_blocked_subcollections filtered defaults)
effective-overrides_example = effective-overrides filtered defaults filtered-Distinct

one_release-IsSound : IsSound one_release
one_release-IsSound = record { distinct = tt; below = tt; exclusive = λ i. omega arith }

abbrev no_job : Queue
no_job = record { db = one_release; held = none }

no_job-IsHeld : IsHeld no_job
no_job-IsHeld = record { sound = one_release-IsSound; runs = λ id e. absurd (cc) }

abbrev job_queued : Queue
job_queued = record no_job { db = (enqueue_filter_analysis 1 [] 40 one_release).1 }

abbrev job_claimed : Queue
job_claimed = record {
  db = (claim_filter_analysis_job free job_queued.db).1;
  held = claimed_id (claim_filter_analysis_job free job_queued.db).0;
}

one_claimed : job_claimed.held ≡ some 1
unfolding claim_filter_analysis_job enqueue_filter_analysis find_release nat_discrete
one_claimed = refl

JobReach-IsSound_example : IsHeld (record { db = requeue 1 job_claimed.db; held = none })
JobReach-IsSound_example = JobReach-IsSound no_job-IsHeld (
    next (next (next here (enqueue 1 [] 40 no_job)) (claim free job_queued refl))
      (interrupt 1 job_claimed one_claimed))

abbrev entry : Text → Entry
entry stamp = record {
  display_name =
      codes "annas_archive_meta__aacid__zlib3_records__20240809T171652Z--"
      ++ stamp
      ++ codes ".jsonl.seekable.zst.torrent";
  is_metadata = true;
  obsolete = false;
  btih = codes "aa";
  url = codes "https://example.org/t";
  magnet_link = [];
  data_size = 1000;
}

abbrev manifest : List Entry
manifest = entry (codes "20260101T000000Z") ∷ entry (codes "20260821T041731Z") ∷ []

abbrev zlib3 : Text
zlib3 = codes "zlib3_records"

zlib3-wanted : contains zlib3 (zlib3 ∷ []) ≡ true
unfolding text_discrete nat_discrete
zlib3-wanted = refl

latest_releases-IsNewest_example :
    IsNewest
      (current_of ascii zlib3 manifest)
      (lookup zlib3 (latest_releases ascii manifest (zlib3 ∷ [])))
latest_releases-IsNewest_example =
    latest_releases-IsNewest ascii manifest (zlib3 ∷ []) zlib3 zlib3-wanted

abbrev amount : ℕ → Amount
amount n = record { num = n; den = 100 }

evaluate_storage-allowed_example :
    let decision = evaluate_storage 500 0 (amount 10500) 300 400 in
    let bytes = 0 + 10500 / 100 in
    (decision.allowed ≡ true ↔ ((bytes < 400 * 1073741824) × (10500 ≤ 500 * 100)))
    × (decision.level ≡ stop ↔ decision.allowed ≡ false)
    × (decision.level ≡ warn ↔ ((decision.allowed ≡ true) × (300 * 1073741824 ≤ bytes)))
evaluate_storage-allowed_example = evaluate_storage-allowed 500 0 (amount 10500) 300 400

-- Two hours ahead of UTC.
abbrev summer_time : ℕ → ℕ
summer_time t = 7200000000

-- At half past one UTC, for half past four on the wall clock.
abbrev wait : ℕ
wait = 3600000000

wait-ok : seconds_until ascii (codes "04:30") summer_time 5400000000 ≡ ok wait
unfolding seconds_until parse_schedule split_colon int_of digits strip lstrip rstrip nat_discrete
wait-ok = refl

seconds_until-lands_example :
    (at : ℕ × ℕ) × (parse_schedule ascii (codes "04:30") ≡ ok at)
    × (at.0 ≤ 23)
    × (at.1 ≤ 59)
    × (0 < wait)
    × (wait ≤ day)
    × (summer_time (5400000000 + wait) ≡ summer_time 5400000000
        → wall_clock summer_time (5400000000 + wait) ≡ target_of at)
seconds_until-lands_example =
    seconds_until-lands ascii (codes "04:30") summer_time 5400000000 wait wait-ok
