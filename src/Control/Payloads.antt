-- ===== src/Control/Payloads.antt =====
-- app/routes/control.py: a retained payload is not deleted while an analysis needs it.
use aa_metadata_worker.Prelude.{
  ℕ, ◌≡◌, refl, Text, Bool, true, false, none, List, [], ◌∷◌, arith, lookup, text_eq, nat_eq, ◌==◌,
  contains, any, filter, not, All, Dict, inl, inr, ◌⊎◌, some, Bool-cases, Option-cases,
}
use aa_metadata_worker.Database.{Db, Job}
use aa_metadata_worker.State.Modes.{clear_retained_payload_identifier}
use aa_metadata_worker.Control.{Site, ApiSettings, answer, in_collection, delete_retained_payload}

none_of : (p : Job → Bool) (jobs : List Job) → any p jobs ≡ false → All (λ j. p j ≡ false) jobs
none_of p [] h = tt
none_of p (j ∷ jobs) h = (ground (arith, h), none_of p jobs (ground (arith, h)))

lookup-gone : (k : Text) (d : Dict Text ℕ) → lookup k (filter (λ p. not (p.0 == k)) d) ≡ none
unfolding lookup
lookup-gone k [] = refl
lookup-gone k ((j, v) ∷ d) = ground (arith, lookup-gone k d)

clear_retained_payload_identifier-jobs :
    (collection : Text) (db : Db) → (clear_retained_payload_identifier collection db).jobs ≡ db.jobs
unfolding clear_retained_payload_identifier
clear_retained_payload_identifier-jobs collection db = ground (arith)

lookup-other :
    (k c : Text) (d : Dict Text ℕ)
    → k == c ≡ false
    → lookup k (filter (λ p. not (p.0 == c)) d) ≡ lookup k d
unfolding lookup
lookup-other k c [] h = refl
lookup-other k c ((j, v) ∷ d) h = ground (arith, h, lookup-other k c d h)

-- A request either changes nothing, neither the database nor a payload, and is not answered with a
-- number of bytes; or the collection is active, no analysis job of it is pending or running, the
-- answer is the size of its payload, afterwards the payload is gone, those of other collections are
-- as they were, and no job has changed.
pub delete_retained_payload-unused :
    (settings : ApiSettings) (collection : Text) (site : Site)
    → let out = delete_retained_payload settings collection site in
      ((out.1 ≡ site) × ((bytes : ℕ) → ¬ (out.0 ≡ answer bytes)))
      ⊎ ((contains collection settings.aa_collections ≡ true)
          × All (λ j. in_collection collection site.db.releases j ≡ false) site.db.jobs
          × ((bytes : ℕ) × (lookup collection site.payloads ≡ some bytes) × (out.0 ≡ answer bytes))
          × (lookup collection out.1.payloads ≡ none)
          × ((other : Text)
              → other == collection ≡ false
              → lookup other out.1.payloads ≡ lookup other site.payloads)
          × (out.1.db.jobs ≡ site.db.jobs))
unfolding delete_retained_payload
delete_retained_payload-unused settings collection site =
    elim (Bool-cases (contains collection settings.aa_collections)) [
      | inr e ↦ inl (ground (arith, e), λ bytes h. ground (arith, e, h))
      | inl e ↦ elim (Bool-cases (any (in_collection collection site.db.releases) site.db.jobs)) [
        | inl e' ↦ inl (ground (arith, e, e'), λ bytes h. ground (arith, e, e', h))
        | inr e' ↦ elim (Option-cases (lookup collection site.payloads)) [
          | inl e'' ↦ inl (ground (arith, e, e', e''), λ bytes h. ground (arith, e, e', e'', h))
          | inr (size, e'') ↦ inr (
            e,
            none_of (in_collection collection site.db.releases) site.db.jobs e',
            (size, e'', ground (arith, e, e', e'')),
            ground (arith, e, e', e'', lookup-gone collection site.payloads),
            λ other d. ground (arith, e, e', e'', lookup-other other collection site.payloads d),
            ground (arith, e, e', e'', clear_retained_payload_identifier-jobs collection site.db),
          )
        ]
      ]
    ]
