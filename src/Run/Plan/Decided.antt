-- ===== src/Run/Plan/Decided.antt =====
-- sync/run.py: the plan of a pass. Each collection that has a release is decided once.
use aa_metadata_worker.Prelude.{
  ℕ, ◌+◌, ◌≡◌, refl, Text, Bool, false, none, some, List, [], ◌∷◌, arith, ◌==◌, Dict, text_eq,
  lookup, lookup-insert, ◌&&◌, is_some, if◌then◌else◌, Option-cases, inl, inr, All, Distinct,
  contains,
}
use aa_metadata_worker.Result.{ok, Result-cases}
use aa_metadata_worker.Database.{ModeRow}
use aa_metadata_worker.State.Releases.{ensure_release}
use aa_metadata_worker.Discovery.{ReleaseInfo}
use aa_metadata_worker.Run.{PayloadFile, Env, Info}
use aa_metadata_worker.Run.Entries.{
  labelled, entries, labelled-append, named-append, labelled-insert,
}
use aa_metadata_worker.Run.Plan.{
  Plan, reimport_of, retained_release, plan_reimport, plan_release, plan_loop,
}

-- How often a collection is decided: with an entry of the summary, or of one of the two lists.
abbrev pub decided : Text → Plan → ℕ
decided c plan =
    entries c plan.world.summary + labelled c plan.to_download + labelled c plan.to_import

abbrev Untouched : Plan → List Text → Type 0
Untouched plan = All (λ c. (lookup c plan.to_download ≡ none) × (lookup c plan.to_import ≡ none))

-- What planning one collection leaves of the others.
abbrev Others : Text → Plan → Plan → Type 0
Others collection plan plan' =
    (c : Text)
    → c == collection ≡ false
    → (lookup c plan'.to_download ≡ lookup c plan.to_download)
      × (lookup c plan'.to_import ≡ lookup c plan.to_import)

Untouched-Others :
    (collection : Text) (plan plan' : Plan) (rest : List Text)
    → Others collection plan plan'
    → contains collection rest ≡ false
    → Untouched plan rest
    → Untouched plan' rest
Untouched-Others collection plan plan' [] o d u = tt
Untouched-Others collection plan plan' (c ∷ rest) o d u =
    ground (arith, o c, Untouched-Others collection plan plan' rest o, u.0, u.1)

-- Whether a collection is wanted and has a release.
abbrev pub is_offered : Text → Dict Text ReleaseInfo → List Text → Bool
is_offered c releases wanted = contains c wanted && is_some (lookup c releases)

module _ (env : Env) (force : Bool) (c : Text) where
  plan_reimport-decided :
      (collection identifier : Text) (p : PayloadFile) (plan : Plan)
      → lookup collection plan.to_import ≡ none
      → (decided c (plan_reimport env force collection identifier p plan)
          ≡ decided c plan + (if c == collection then 1 else 0))
        × Others collection plan (plan_reimport env force collection identifier p plan)
  unfolding plan_reimport
  plan_reimport-decided collection identifier p plan h =
      let e = ensure_release collection identifier none none (some p.size) plan.world.db in
      let entry : Info × PayloadFile =
        (record { release = retained_release collection identifier p; release_id = e.0 }, p) in
      (
        ground (arith, h, labelled-insert c collection entry plan.to_import),
        λ k d. (refl, ground (arith, lookup-insert k collection entry plan.to_import)),
      )

  plan_release-decided :
      (collection : Text) (release : ReleaseInfo) (plan : Plan)
      → lookup collection plan.to_download ≡ none
      → (plan_release env force collection release plan).0 ≡ ok tt
      → (decided c (plan_release env force collection release plan).1
          ≡ decided c plan + (if c == collection then 1 else 0))
        × Others collection plan (plan_release env force collection release plan).1
  unfolding plan_release
  plan_release-decided collection release plan h e =
      let made =
        ensure_release collection release.identifier (some release.btih) (some release.torrent_url)
          (some release.data_size_bytes) plan.world.db in
      let info : Info = record { release = release; release_id = made.0 } in
      let s = plan.world.summary in
      (
        ground (
          arith,
          h,
          labelled-insert c collection info plan.to_download,
          named-append c collection s.skipped_completed,
          labelled-append c collection release.identifier s.blocked,
        ),
        λ k d. ground (arith, lookup-insert k collection info plan.to_download),
      )

  -- Planning decides each collection that is wanted and has a release exactly once, and no other: it
  -- gets one entry of the summary, as skipped or as blocked, or one place in the list of those to be
  -- downloaded, or in the list of those to be imported again.
  pub plan_loop-decided :
      (releases : Dict Text ReleaseInfo) (modes : Dict Text ModeRow) (wanted : List Text)
      (plan : Plan)
      → Distinct wanted
      → Untouched plan wanted
      → (plan_loop env force releases modes wanted plan).0 ≡ ok tt
      → decided c (plan_loop env force releases modes wanted plan).1
        ≡ decided c plan + (if is_offered c releases wanted then 1 else 0)
  unfolding plan_loop
  plan_loop-decided releases modes [] plan d u e = omega arith
  plan_loop-decided releases modes (collection ∷ rest) plan d u e =
      elim (Option-cases (lookup collection releases)) [
        | inl k ↦ ground (arith, k, plan_loop-decided releases modes rest plan d.1 u.1)
        | inr (release, k) ↦ elim (Option-cases (reimport_of collection modes plan.world)) [
          | inr ((identifier, p), m) ↦
              let plan' = plan_reimport env force collection identifier p plan in
              let (count, others) = plan_reimport-decided collection identifier p plan u.0.1 in
              ground (
                arith,
                k,
                m,
                count,
                plan_loop-decided releases modes rest plan' d.1
                    (Untouched-Others collection plan plan' rest others d.0 u.1),
              )
          | inl m ↦ elim (Result-cases (plan_release env force collection release plan).0) [
            | inr (x, f) ↦ ground (arith, k, m, f)
            | inl (_, f) ↦
                let plan' = (plan_release env force collection release plan).1 in
                let (count, others) = plan_release-decided collection release plan u.0.0 f in
                ground (
                  arith,
                  k,
                  m,
                  f,
                  count,
                  plan_loop-decided releases modes rest plan' d.1
                      (Untouched-Others collection plan plan' rest others d.0 u.1),
                )
          ]
        ]
      ]
