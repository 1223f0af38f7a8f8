-- ===== src/Run/Download/Entries.antt =====
-- sync/run.py: each download that ends gives its own collection one entry of the summary, and no other.
use aa_metadata_worker.Prelude.{
  false, Bool, ℕ, ◌+◌, ◌≡◌, Text, true, List, [], ◌∷◌, ◌&&◌, arith, ◌==◌, Dict, text_eq, lookup,
  is_some, if◌then◌else◌, Option-cases, inl, inr,
}
use aa_metadata_worker.Result.{Result, ok}
use aa_metadata_worker.Run.{
  Place, Fetched, complete, partial, broken, World, Env, Info, delete_payload,
}
use aa_metadata_worker.Run.Entries.{labelled, entries, labelled-append}
use aa_metadata_worker.Run.Payload.{import_payload}
use aa_metadata_worker.Run.Payload.Outcome.{
  Outcome, imported, refused, interrupted, import_payload-Outcome,
}
use aa_metadata_worker.Run.Download.{
  download_failed, on_fetched, download_next, download_sequential, PoolStep, progress, finished,
  download_pool,
}

Outcome-entries :
    (c : Text) {collection : Text} {info : Info} {w v : World} {result r : Result (Unit {0})}
    → Outcome collection info w v result r
    → r ≡ ok tt
    → entries c v.summary ≡ entries c w.summary + (if c == collection then 1 else 0)
Outcome-entries c {collection} {info} {w} (imported _ h _) e =
    ground (arith, h, labelled-append c collection info.release.identifier w.summary.processed)
Outcome-entries c {collection} {w = w} (refused name message _ h _) e =
    ground (arith, h, labelled-append c collection message w.summary.failures)
Outcome-entries c (interrupted _ _ _ _) e = cc

-- How many downloads of the plan that finish are of this collection.
abbrev pub finishes_of : Text → Dict Text Info → List PoolStep → ℕ
finishes_of c to_download [] = 0
finishes_of c to_download (progress _ _ _ ∷ steps) = finishes_of c to_download steps
finishes_of c to_download (finished collection _ ∷ steps) =
    (if is_some (lookup collection to_download) && c == collection then 1 else 0)
    + finishes_of c to_download steps

module _ (env : Env) (c : Text) where
  pub import_payload-entries :
      (collection : Text) (place : Place) (info : Info) (resilient : Bool) (w : World)
      → (import_payload env collection place info resilient w).0 ≡ ok tt
      → entries c (import_payload env collection place info resilient w).1.summary
        ≡ entries c w.summary + (if c == collection then 1 else 0)
  import_payload-entries collection place info resilient w e =
      Outcome-entries c (import_payload-Outcome env collection info place resilient w) e

  on_fetched-entries :
      (collection : Text) (info : Info) (fetched : Fetched) (w : World)
      → (on_fetched env collection info fetched w).0 ≡ ok tt
      → entries c (on_fetched env collection info fetched w).1.summary
        ≡ entries c w.summary + (if c == collection then 1 else 0)
  unfolding on_fetched download_failed delete_payload
  on_fetched-entries collection info (complete p) w e =
      import_payload-entries collection _ info false _ e
  on_fetched-entries collection info (partial p) w e =
      import_payload-entries collection _ info true _ e
  on_fetched-entries collection info (broken name message) w e =
      omega (arith, labelled-append c collection message w.summary.failures)

  download_next-entries :
      (collection : Text) (info : Info) (w : World)
      → (download_next env collection info w).0 ≡ ok tt
      → entries c (download_next env collection info w).1.summary
        ≡ entries c w.summary + (if c == collection then 1 else 0)
  unfolding download_next
  download_next-entries collection info w e = on_fetched-entries collection info _ _ e

  pub download_sequential-entries :
      (to_download : Dict Text Info) (w : World)
      → (download_sequential env to_download w).0 ≡ ok tt
      → entries c (download_sequential env to_download w).1.summary
        ≡ entries c w.summary + labelled c to_download
  unfolding download_sequential
  download_sequential-entries [] w e = omega arith
  download_sequential-entries ((collection, info) ∷ rest) w e =
      let next = download_next env collection info w in
      ground
        (arith, download_next-entries collection info w, download_sequential-entries rest next.1)

  pub download_pool-entries :
      (to_download : Dict Text Info) (steps : List PoolStep) (w : World)
      → (download_pool env to_download steps w).0 ≡ ok tt
      → entries c (download_pool env to_download steps w).1.summary
        ≡ entries c w.summary + finishes_of c to_download steps
  unfolding download_pool
  download_pool-entries to_download [] w e = omega arith
  download_pool-entries to_download (progress i done total ∷ steps) w e =
      download_pool-entries to_download steps _ e
  download_pool-entries to_download (finished collection fetched ∷ steps) w e =
      elim (Option-cases (lookup collection to_download)) [
        | inl k ↦ ground (arith, k, download_pool-entries to_download steps w)
        | inr (info, k) ↦
            let next = on_fetched env collection info fetched w in
            ground (
              arith,
              k,
              on_fetched-entries collection info fetched w,
              download_pool-entries to_download steps next.1,
            )
      ]
