-- ===== src/Run/Sync/Accounts.antt =====
-- sync/run.py: the summary of a pass accounts for every collection.
use aa_metadata_worker.Prelude.{
  if◌then◌else◌, ◌&&◌, true, ltb, ◌+◌, ◌≡◌, Text, Bool, false, List, [], ◌∷◌, Dict, arith, text_eq,
  length, Distinct, All, lookup, none, lookup-nil,
}
use aa_metadata_worker.Result.{ok}
use aa_metadata_worker.Discovery.{ReleaseInfo}
use aa_metadata_worker.State.Modes.{get_collection_modes}
use aa_metadata_worker.Run.{PayloadFile, in_prev, World, Env, Info}
use aa_metadata_worker.Run.Payload.{import_payload}
use aa_metadata_worker.Run.Download.{PoolStep}
use aa_metadata_worker.Run.Entries.{labelled, entries}
use aa_metadata_worker.Run.Download.Entries.{
  import_payload-entries, download_sequential-entries, download_pool-entries, finishes_of,
}
use aa_metadata_worker.Run.Plan.{Plan, plan_loop}
use aa_metadata_worker.Run.Plan.Decided.{is_offered, plan_loop-decided}
use aa_metadata_worker.Run.Sync.{import_retained, download_all, run_phases}

-- The plan before any collection is decided.
abbrev pub nothing_yet : World → Plan
nothing_yet w = record { to_download = []; to_import = []; world = w }

module _ (env : Env) where
  -- The plan of a pass.
  abbrev pub planned : Bool → List Text → Dict Text ReleaseInfo → World → Plan
  planned force wanted releases w =
      (plan_loop env force releases (get_collection_modes w.db) wanted (nothing_yet w)).1

  import_retained-entries :
      (c : Text) (to_import : Dict Text (Info × PayloadFile)) (w : World)
      → (import_retained env to_import w).0 ≡ ok tt
      → entries c (import_retained env to_import w).1.summary
        ≡ entries c w.summary + labelled c to_import
  unfolding import_retained
  import_retained-entries c [] w e = omega arith
  import_retained-entries c ((collection, (info, p)) ∷ rest) w e =
      let next = import_payload env collection (in_prev collection) info false w in
      ground (
        arith,
        import_payload-entries env c collection (in_prev collection) info false w,
        import_retained-entries c rest next.1,
      )

  nothing_planned :
      (w : World) (wanted : List Text)
      → All
          (λ c. (lookup {V = Info} c [] ≡ none) × (lookup {V = Info × PayloadFile} c [] ≡ none))
          wanted
  nothing_planned w [] = tt
  nothing_planned w (c ∷ wanted) = ((lookup-nil c, lookup-nil c), nothing_planned w wanted)

  -- Whether the downloads run in a pool.
  abbrev pub pooled : Dict Text Info → Bool
  pooled to_download = ltb 1 env.settings.sync_max_downloads && ltb 1 (length to_download)

  -- The pool, if there is one, finishes each planned download of a collection.
  abbrev pub FinishesAll : Text → Dict Text Info → List PoolStep → Type 0
  FinishesAll c to_download pool =
      pooled to_download ≡ true → finishes_of c to_download pool ≡ labelled c to_download

  -- The third phase, sequential or in a pool.
  download_all-entries :
      (c : Text) (pool : List PoolStep) (to_download : Dict Text Info) (w : World)
      → FinishesAll c to_download pool
      → (download_all env pool to_download w).0 ≡ ok tt
      → entries c (download_all env pool to_download w).1.summary
        ≡ entries c w.summary + labelled c to_download
  unfolding download_all
  download_all-entries c pool to_download w full e = ground (
    arith,
    full,
    download_sequential-entries env c to_download w,
    download_pool-entries env c to_download pool w,
  )

  -- A pass over distinct collections that comes to its end, sequential or with a pool that finishes
  -- the download of a collection if one is planned, has exactly one entry of the summary more for the
  -- collection, processed, skipped, blocked or failed, if it is wanted and has a release, and none
  -- more otherwise.
  pub run_phases-accounts :
      (c : Text) (force : Bool) (pool : List PoolStep) (wanted : List Text)
      (releases : Dict Text ReleaseInfo) (w : World)
      → Distinct wanted
      → FinishesAll c (planned force wanted releases w).to_download pool
      → (run_phases env force pool wanted releases w).0 ≡ ok tt
      → entries c (run_phases env force pool wanted releases w).1.summary
        ≡ entries c w.summary + (if is_offered c releases wanted then 1 else 0)
  unfolding run_phases
  run_phases-accounts c force pool wanted releases w d full e =
      let plan = planned force wanted releases w in
      let retained = import_retained env plan.to_import plan.world in
      ground (
        arith,
        full,
        plan_loop-decided env force c releases (get_collection_modes w.db) wanted (nothing_yet w) d
            (nothing_planned w wanted),
        import_retained-entries c plan.to_import plan.world,
        download_all-entries c pool plan.to_download retained.1,
      )
