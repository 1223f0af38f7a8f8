-- ===== src/Examples/Routes.antt =====
-- The loop of the worker and the control routes.
use aa_metadata_worker.Prelude.{
  ℕ, ◌≡◌, refl, Text, true, false, ◌||◌, none, some, List, [], ◌∷◌, codes, lookup, contains, keys,
  if◌then◌else◌, ◌⊎◌, All, nat_eq, ◌==◌, text_eq, nat_discrete,
}
use aa_metadata_worker.Result.{ok}
use aa_metadata_worker.Database.{Db, run_now}
use aa_metadata_worker.State.Commands.{enqueue_command, pop_pending_commands, is_paused}
use aa_metadata_worker.State.Filters.{effective_upload_blocked_subcollections}
use aa_metadata_worker.Worker.Poller.{poll, on_commands, on_command}
use aa_metadata_worker.Worker.Loop.{
  Surroundings, Loop, starts, poll_once, wait_due, start_pass, decide, round, polls,
}
use aa_metadata_worker.Worker.Loop.Starts.{IsReady, round-starts}
use aa_metadata_worker.Control.{
  Response, Site, ApiSettings, answer, in_collection, filters_snapshot, delete_retained_payload,
}
use aa_metadata_worker.Control.Snapshot.{filters_snapshot-effective}
use aa_metadata_worker.Control.Payloads.{delete_retained_payload-unused}
use aa_metadata_worker.Examples.{one_release}

abbrev pressed : ℕ → Db → Db
pressed n db = if n == 0 then (enqueue_command run_now none db).1 else db

abbrev surroundings : Surroundings
surroundings = record {
  others = pressed;
  stops = λ n. false;
  stops_in_pass = λ n. false;
  locked = λ n i. false;
  fails = λ n. none;
  refused = λ n. false;
  run_sync = λ flag db. (ok tt, db);
  sync_enabled = true;
}

abbrev loop : Loop
loop = record {
  poller = record { run_requested = false; paused = false; shutdown = false; stopping = false };
  db = one_release;
  number = 0;
  connected = false;
  crashed = false;
}

abbrev start_db : Db
start_db = (pop_pending_commands (λ i. false) (pressed 0 one_release)).1

loop-starts : (round surroundings 20000000 loop).1 ≡ starts start_db (ok tt)
unfolding round decide wait_due poll_once start_pass poll on_commands on_command
    pop_pending_commands enqueue_command is_paused nat_discrete lookup
loop-starts = refl

round-starts_example : IsReady surroundings (wait_due surroundings (polls 20000000) loop) start_db
round-starts_example = round-starts surroundings 20000000 loop start_db (ok tt) loop-starts

abbrev filtered : Db
filtered = record one_release { filters = (codes "aaaaarg", false) ∷ (codes "misc", true) ∷ [] }

abbrev defaults : List Text
defaults = codes "aaaaarg" ∷ codes "airitibooks" ∷ []

filters_snapshot-effective_example : lookup (codes "misc") (filters_snapshot defaults filtered) ≡ (
    if contains (codes "misc") defaults || contains (codes "misc") (keys filtered.filters)
    then some (contains (codes "misc") (effective_upload_blocked_subcollections filtered defaults))
    else none)
filters_snapshot-effective_example = filters_snapshot-effective defaults filtered (codes "misc")

abbrev site : Site
site = record { db = one_release; payloads = (codes "zlib3_records", 70) ∷ [] }

abbrev settings : ApiSettings
settings = record {
  aa_collections = codes "zlib3_records" ∷ [];
  sync_enabled = true;
  upload_blocked_subcollections = [];
}

abbrev deletion : Response ℕ × Site
deletion = delete_retained_payload settings (codes "zlib3_records") site

delete_retained_payload-unused_example :
    ((deletion.1 ≡ site) × ((bytes : ℕ) → ¬ (deletion.0 ≡ answer bytes)))
    ⊎ ((contains (codes "zlib3_records") settings.aa_collections ≡ true)
        × All (λ j. in_collection (codes "zlib3_records") site.db.releases j ≡ false) site.db.jobs
        × ((bytes : ℕ) × (lookup (codes "zlib3_records") site.payloads ≡ some bytes)
            × (deletion.0 ≡ answer bytes))
        × (lookup (codes "zlib3_records") deletion.1.payloads ≡ none)
        × ((other : Text)
            → other == codes "zlib3_records" ≡ false
            → lookup other deletion.1.payloads ≡ lookup other site.payloads)
        × (deletion.1.db.jobs ≡ site.db.jobs))
delete_retained_payload-unused_example =
    delete_retained_payload-unused settings (codes "zlib3_records") site
