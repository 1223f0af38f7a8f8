-- ===== src/Examples/Passes.antt =====
-- Passes over one collection.
use aa_metadata_worker.Prelude.{
  if◌then◌else◌, Distinct, ◌+◌, ◌≡◌, refl, Text, true, false, some, List, [], ◌∷◌, Dict, codes,
  text_eq, text_discrete, nat_discrete, lookup, insert,
}
use aa_metadata_worker.Result.{ok, err, error}
use aa_metadata_worker.Unicode.{ascii}
use aa_metadata_worker.Database.{empty_db}
use aa_metadata_worker.State.Releases.{set_release_status, ensure_release, find_release}
use aa_metadata_worker.State.Modes.{get_collection_modes}
use aa_metadata_worker.Discovery.{ReleaseInfo}
use aa_metadata_worker.Importer.Loop.{
  import_release, import_loop, finish, on_event, flush_if_full, take_line, flush, validate_import,
}
use aa_metadata_worker.Importer.Batch.{process_batch, fold_batch}
use aa_metadata_worker.Run.{
  PayloadFile, in_work, complete, broken, Settings, Env, World, Info, empty_summary, handled,
}
use aa_metadata_worker.Run.Payload.{import_result, run_import, import_payload}
use aa_metadata_worker.Run.Payload.Outcome.{Outcome, import_payload-Outcome}
use aa_metadata_worker.Run.Download.{
  download_failed, PoolStep, progress, finished, on_fetched, download_next, download_sequential,
  download_pool,
}
use aa_metadata_worker.Run.Download.Handled.{finishes, download_pool-handled}
use aa_metadata_worker.Run.Plan.{Plan, plan_release, plan_loop, guard_allows, reimport_of}
use aa_metadata_worker.Run.Entries.{entries}
use aa_metadata_worker.Run.Plan.Decided.{decided, is_offered, plan_loop-decided}
use aa_metadata_worker.Run.Sync.{import_retained, download_all, run_phases, run_sync}
use aa_metadata_worker.Run.Sync.Lock.{run_sync-lock}
use aa_metadata_worker.Run.Sync.Accounts.{FinishesAll, run_phases-accounts, planned}
use aa_metadata_worker.Examples.{parse, line, half}

abbrev zlib3 : Text
zlib3 = codes "zlib3_records"

abbrev payload : PayloadFile
payload = record { size = 40; strict = line (codes "a") ∷ []; resilient = [] }

abbrev settings : Settings
settings = record {
  importing = half;
  sync_reuse_prev_payload = true;
  storage_warn_gib = 300;
  storage_stop_gib = 400;
  sync_max_downloads = 1;
  aa_collections = zlib3 ∷ [];
}

abbrev env : Env
env = record {
  unicode = ascii;
  settings = settings;
  adapter = λ collection. some parse;
  torrent = λ release w. ((20, 40) ∷ (40, 40) ∷ [], complete payload);
  database_size_bytes = λ db. 0;
  disk_free_bytes = λ w. 1000000;
}

abbrev world : World
world = record { db = empty_db 600; work = []; prev = []; locked = false; summary = empty_summary }

abbrev offer : ReleaseInfo
offer = record {
  collection = zlib3;
  identifier = codes "r1";
  btih = codes "aa";
  torrent_url = codes "t";
  magnet_link = [];
  data_size_bytes = 40;
}

abbrev info : Info
info = record { release = offer; release_id = 1 }

abbrev plan : Dict Text Info
plan = (zlib3, info) ∷ []

abbrev fetched_world : World
fetched_world = record world { work = (codes "r1", payload) ∷ [] }

import_payload-Outcome_example :
    Outcome zlib3 info fetched_world
      (import_payload env zlib3 (in_work (codes "r1")) info false fetched_world).1
      (import_result env zlib3 (in_work (codes "r1")) 1 false fetched_world)
      (import_payload env zlib3 (in_work (codes "r1")) info false fetched_world).0
import_payload-Outcome_example =
    import_payload-Outcome env zlib3 info (in_work (codes "r1")) false fetched_world

run_sync-lock_example :
    (run_sync env false [] (err (error (codes "RuntimeError") [])) [] [] world).1.locked ≡ false
run_sync-lock_example =
    run_sync-lock env false [] (err (error (codes "RuntimeError") [])) [] [] world

sequential-ok : (download_sequential env plan world).0 ≡ ok tt
unfolding download_sequential download_next on_fetched import_payload lookup insert text_discrete
    run_import import_release import_loop on_event flush_if_full take_line nat_discrete flush
    process_batch fold_batch finish validate_import
sequential-ok = refl

abbrev steps : List PoolStep
steps =
    progress 1 20 40
    ∷ finished zlib3 (broken (codes "TorrentDownloadError") (codes "no peers"))
    ∷ []

pool-ok : (download_pool env plan steps world).0 ≡ ok tt
unfolding download_pool lookup text_discrete on_fetched
pool-ok = refl

download_pool-handled_example :
    handled (download_pool env plan steps world).1.summary ≡ 0 + finishes plan steps
download_pool-handled_example = download_pool-handled env plan steps world pool-ok

abbrev releases : Dict Text ReleaseInfo
releases = (zlib3, offer) ∷ []

abbrev start : Plan
start = record { to_download = []; to_import = []; world = world }

plan-ok : (plan_loop env false releases [] (zlib3 ∷ []) start).0 ≡ ok tt
unfolding plan_loop lookup text_discrete reimport_of plan_release find_release ensure_release
    nat_discrete guard_allows
plan-ok = refl

plan_loop-decided_example :
    decided zlib3 (plan_loop env false releases [] (zlib3 ∷ []) start).1
    ≡ decided zlib3 start + (if is_offered zlib3 releases (zlib3 ∷ []) then 1 else 0)
unfolding lookup
plan_loop-decided_example =
    plan_loop-decided env false zlib3 releases [] (zlib3 ∷ []) start (refl, tt) ((refl, refl), tt)
      plan-ok

-- A pass over two collections in a pool, which finishes the second download first.
abbrev pool_env : Env
pool_env = record env { settings = record settings { sync_max_downloads = 4 } }

abbrev other : Text
other = codes "gbooks_records"

abbrev two_releases : Dict Text ReleaseInfo
two_releases =
    (zlib3, offer) ∷ (other, record offer { collection = other; identifier = codes "r2" }) ∷ []

abbrev both : List Text
both = zlib3 ∷ other ∷ []

abbrev both_steps : List PoolStep
both_steps =
    finished other (broken (codes "E") [])
    ∷ progress 1 40 40
    ∷ finished zlib3 (broken (codes "E") [])
    ∷ []

both-Distinct : Distinct both
unfolding text_discrete nat_discrete
both-Distinct = (refl, (refl, tt))

both_finish :
    FinishesAll pool_env other
      (planned pool_env false both two_releases world).to_download
      both_steps
unfolding plan_loop lookup insert text_discrete reimport_of get_collection_modes plan_release
    find_release ensure_release nat_discrete guard_allows set_release_status
both_finish p = refl

phases-ok : (run_phases pool_env false both_steps both two_releases world).0 ≡ ok tt
unfolding run_phases plan_loop reimport_of get_collection_modes plan_release find_release
    ensure_release guard_allows import_retained download_all download_pool on_fetched
    download_failed lookup insert text_discrete nat_discrete set_release_status
phases-ok = refl

run_phases-accounts_example :
    entries other (run_phases pool_env false both_steps both two_releases world).1.summary
    ≡ entries other world.summary + (if is_offered other two_releases both then 1 else 0)
run_phases-accounts_example =
    run_phases-accounts pool_env other false both_steps both two_releases world both-Distinct
      both_finish phases-ok
