-- ===== src/Run/Plan.antt =====
-- sync/run.py: the first phase of `run_sync`, which decides what each collection needs.
pub mod Decided
use aa_metadata_worker.Prelude.{
  ℕ, ◌*◌, Text, Bool, true, false, Option, none, some, List, [], ◌∷◌, ◌++◌, ◌&&◌, ◌||◌, not, codes,
  Dict, text_eq, lookup, insert, if◌then◌else◌, nonempty,
}
use aa_metadata_worker.Result.{Exception, error, Result, ok, err}
use aa_metadata_worker.Database.{
  downloading, importing, blocked_storage, Mode, auto, import_only, ModeRow, Db,
}
use aa_metadata_worker.State.Releases.{
  is_completed, ensure_release, set_release_status, find_release,
}
use aa_metadata_worker.Storage.{Amount, evaluate_storage}
use aa_metadata_worker.Discovery.{ReleaseInfo}
use aa_metadata_worker.Run.{PayloadFile, World, Env, Settings, Info}

-- The local variables that the phase fills.
pub record Plan : Type 0 where
  pub to_download : Dict Text Info
  pub to_import : Dict Text (Info × PayloadFile)
  pub world : World

abbrev pub assertion_error : Exception
assertion_error = error (codes "AssertionError") []

-- `release.data_size_bytes * 1.05`
abbrev pub with_slack : ReleaseInfo → Amount
with_slack release = record { num = release.data_size_bytes * 105; den = 100 }

-- The identifier and the payload of a collection that is to be imported again from its retained
-- payload.
unfoldable pub reimport_of : Text → Dict Text ModeRow → World → Option (Text × PayloadFile)
reimport_of collection modes w = elim (lookup collection modes) [
  | none ↦ none
  | some row ↦ elim row.mode [
    | auto ↦ none
    | import_only ↦ elim row.last_imported_identifier [
      | none ↦ none
      | some identifier ↦
          if nonempty identifier
          then (elim (lookup collection w.prev) [ none ↦ none | some p ↦ some (identifier, p) ])
          else none
    ]
  ]
]

abbrev pub retained_release : Text → Text → PayloadFile → ReleaseInfo
retained_release collection identifier p = record {
  collection = collection;
  identifier = identifier;
  btih = [];
  torrent_url = [];
  magnet_link = [];
  data_size_bytes = p.size;
}

module _ (env : Env) (force : Bool) where
  -- `_guard_or_block`
  unfoldable pub guard_allows : ReleaseInfo → World → Bool
  unfolding evaluate_storage
  guard_allows release w =
      (evaluate_storage (env.disk_free_bytes w) (env.database_size_bytes w.db) (with_slack release)
        env.settings.storage_warn_gib env.settings.storage_stop_gib).allowed

  -- The branch of a retained payload.
  unfoldable pub plan_reimport : Text → Text → PayloadFile → Plan → Plan
  plan_reimport collection identifier p plan =
      let w = plan.world in
      let (id, db) = ensure_release collection identifier none none (some p.size) w.db in
      record plan {
        world = record w { db = set_release_status id importing none true db };
        to_import =
            insert collection
              (record { release = retained_release collection identifier p; release_id = id }, p)
              plan.to_import;
      }

  abbrev pub add_skipped : Text → World → World
  add_skipped collection w = record w {
    summary = record (w.summary) {
      skipped_completed = w.summary.skipped_completed ++ (collection ∷ []);
    };
  }

  abbrev pub block : Text → Info → World → World
  block collection info w = record w {
    db =
        set_release_status info.release_id blocked_storage
          (some (codes "Storage guard blocked download.")) false w.db;
    summary = record (w.summary) {
      blocked = w.summary.blocked ++ ((collection, info.release.identifier) ∷ []);
    };
  }

  -- The branch of the release that the manifest offers.
  unfoldable pub plan_release : Text → ReleaseInfo → Plan → Result (Unit {0}) × Plan
  plan_release collection release plan =
      let w = plan.world in
      let (id, db) =
        ensure_release collection release.identifier (some release.btih) (some release.torrent_url)
          (some release.data_size_bytes) w.db in
      let w1 = record w { db = db } in
      let info : Info = record { release = release; release_id = id } in
      elim (find_release id db) [
        | none ↦ (err assertion_error, record plan { world = w1 })
        | some current ↦
            if not force && is_completed current.status
            then (ok tt, record plan { world = add_skipped collection w1 })
            else if not (guard_allows release w1)
            then (ok tt, record plan { world = block collection info w1 })
            else (
              ok tt,
              record plan {
                world = record w1 { db = set_release_status id downloading none true db };
                to_download = insert collection info plan.to_download;
              },
            )
      ]

  unfoldable pub plan_loop :
      Dict Text ReleaseInfo → Dict Text ModeRow → List Text → Plan → Result (Unit {0}) × Plan
  plan_loop releases modes [] plan = (ok tt, plan)
  plan_loop releases modes (collection ∷ rest) plan = elim (lookup collection releases) [
    | none ↦ plan_loop releases modes rest plan
    | some release ↦ elim (reimport_of collection modes plan.world) [
      | some (identifier, p) ↦
          plan_loop releases modes rest (plan_reimport collection identifier p plan)
      | none ↦
          let (r, plan') = plan_release collection release plan in
          elim r [ err e ↦ (err e, plan') | ok _ ↦ plan_loop releases modes rest plan' ]
    ]
  ]
