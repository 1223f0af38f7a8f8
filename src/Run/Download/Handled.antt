-- ===== src/Run/Download/Handled.antt =====
-- sync/run.py: each download that ends gives its collection one entry of the summary.
use aa_metadata_worker.Prelude.{
  ℕ, ◌+◌, ◌≡◌, Text, Bool, true, false, List, [], ◌∷◌, arith, Dict, text_eq, lookup, length,
  length-append, is_some, if◌then◌else◌, Option-cases, inl, inr,
}
use aa_metadata_worker.Result.{Result, ok}
use aa_metadata_worker.Run.{
  Place, Fetched, complete, partial, broken, World, Env, Info, delete_payload, handled,
}
use aa_metadata_worker.Run.Payload.{import_payload}
use aa_metadata_worker.Run.Payload.Outcome.{
  Outcome, imported, refused, interrupted, import_payload-Outcome,
}
use aa_metadata_worker.Run.Download.{
  download_failed, on_fetched, download_next, download_sequential, PoolStep, progress, finished,
  download_pool,
}

Outcome-handled :
    {collection : Text} {info : Info} {w v : World} {result r : Result (Unit {0})}
    → Outcome collection info w v result r
    → r ≡ ok tt
    → handled v.summary ≡ handled w.summary + 1
Outcome-handled {collection} {info} {w} (imported _ h _) e =
    ground
      (arith, h, length-append w.summary.processed ((collection, info.release.identifier) ∷ []))
Outcome-handled {collection} {w = w} (refused name message _ h _) e =
    ground (arith, h, length-append w.summary.failures ((collection, message) ∷ []))
Outcome-handled (interrupted _ _ _ _) e = cc

-- How many downloads of the plan finish.
abbrev pub finishes : Dict Text Info → List PoolStep → ℕ
finishes to_download [] = 0
finishes to_download (progress _ _ _ ∷ steps) = finishes to_download steps
finishes to_download (finished collection _ ∷ steps) =
    (if is_some (lookup collection to_download) then 1 else 0) + finishes to_download steps

module _ (env : Env) where
  pub import_payload-handled :
      (collection : Text) (place : Place) (info : Info) (resilient : Bool) (w : World)
      → (import_payload env collection place info resilient w).0 ≡ ok tt
      → handled (import_payload env collection place info resilient w).1.summary
        ≡ handled w.summary + 1
  import_payload-handled collection place info resilient w e =
      Outcome-handled (import_payload-Outcome env collection info place resilient w) e

  on_fetched-handled :
      (collection : Text) (info : Info) (fetched : Fetched) (w : World)
      → (on_fetched env collection info fetched w).0 ≡ ok tt
      → handled (on_fetched env collection info fetched w).1.summary ≡ handled w.summary + 1
  unfolding on_fetched download_failed delete_payload
  on_fetched-handled collection info (complete p) w e =
      import_payload-handled collection _ info false _ e
  on_fetched-handled collection info (partial p) w e =
      import_payload-handled collection _ info true _ e
  on_fetched-handled collection info (broken name message) w e =
      omega (arith, length-append w.summary.failures ((collection, message) ∷ []))

  download_next-handled :
      (collection : Text) (info : Info) (w : World)
      → (download_next env collection info w).0 ≡ ok tt
      → handled (download_next env collection info w).1.summary ≡ handled w.summary + 1
  unfolding download_next
  download_next-handled collection info w e = on_fetched-handled collection info _ _ e

  -- Downloads in sequence that are not interrupted give each collection one entry of the summary,
  -- whatever fails on the way.
  pub download_sequential-handled :
      (to_download : Dict Text Info) (w : World)
      → (download_sequential env to_download w).0 ≡ ok tt
      → handled (download_sequential env to_download w).1.summary
        ≡ handled w.summary + length to_download
  unfolding download_sequential
  download_sequential-handled [] w e = omega arith
  download_sequential-handled ((collection, info) ∷ rest) w e =
      let next = download_next env collection info w in
      ground
        (arith, download_next-handled collection info w, download_sequential-handled rest next.1)

  -- In a pool, too, every download of the plan that finishes gives one entry, in whichever order the
  -- downloads finish and however the reports of progress fall between them.
  pub download_pool-handled :
      (to_download : Dict Text Info) (steps : List PoolStep) (w : World)
      → (download_pool env to_download steps w).0 ≡ ok tt
      → handled (download_pool env to_download steps w).1.summary
        ≡ handled w.summary + finishes to_download steps
  unfolding download_pool
  download_pool-handled to_download [] w e = omega arith
  download_pool-handled to_download (progress i done total ∷ steps) w e =
      download_pool-handled to_download steps _ e
  download_pool-handled to_download (finished collection fetched ∷ steps) w e =
      elim (Option-cases (lookup collection to_download)) [
        | inl k ↦ ground (arith, k, download_pool-handled to_download steps w)
        | inr (info, k) ↦
            let next = on_fetched env collection info fetched w in
            ground (
              arith,
              k,
              on_fetched-handled collection info fetched w,
              download_pool-handled to_download steps next.1,
            )
      ]
