-- ===== src/Discovery/Newest.antt =====
-- sync/discovery.py: `latest_releases` chooses the release of the largest identifier.
use aa_metadata_worker.Prelude.{
  Text, true, false, Option, none, some, List, [], ◌∷◌, ◌≡◌, refl, arith, ◌||◌, Bool-cases,
  text_lt_asymm, ◌==◌, text_eq, contains, lookup, lookup-insert, lookup-nil, if◌then◌else◌, All,
  text_lt, text_lt_irrefl, text_ge_trans, Option-cases, inl, inr,
}
use aa_metadata_worker.Unicode.{Unicode}
use aa_metadata_worker.Discovery.{
  ReleaseInfo, release_info_eq, Entry, parse_release, is_better, consider, latest_loop,
  latest_releases,
}

-- No release of the list has a larger identifier than this one.
abbrev pub AllAtMost : ReleaseInfo → List ReleaseInfo → Type 0
AllAtMost r = All (λ q. text_lt r.identifier q.identifier ≡ false)

-- The release is one of the list, and none of the list has a larger identifier; without a release
-- the list is empty.
abbrev pub IsNewest : List ReleaseInfo → Option ReleaseInfo → Type 0
IsNewest releases none = releases ≡ []
IsNewest releases (some r) = (contains r releases ≡ true) × AllAtMost r releases

module _ (u : Unicode) where
  -- The releases of a collection that the manifest lists as current, in its order.
  unfoldable pub current_of : Text → List Entry → List ReleaseInfo
  current_of collection [] = []
  current_of collection (e ∷ manifest) =
      let rest = current_of collection manifest in
      elim (parse_release u e) [
        | none ↦ rest
        | some r ↦ if r.collection == collection then r ∷ rest else rest
      ]

  -- The better of the best so far and the releases of a list.
  abbrev best_of : List ReleaseInfo → Option ReleaseInfo → Option ReleaseInfo
  best_of [] best = best
  best_of (r ∷ rest) best = best_of rest (if is_better u r best then some r else best)

  -- The loop keeps the collections apart.
  lookup-latest_loop :
      (wanted : List Text) (collection : Text) (manifest : List Entry)
      (best : List (Text × ReleaseInfo))
      → contains collection wanted ≡ true
      → lookup collection (latest_loop u wanted manifest best)
        ≡ best_of (current_of collection manifest) (lookup collection best)
  unfolding latest_loop current_of
  lookup-latest_loop wanted collection [] best h = refl
  lookup-latest_loop wanted collection (e ∷ manifest) best h =
      let next = consider u wanted (parse_release u e) best in
      elim (Option-cases (parse_release u e)) [
        | inl k ↦ ground (arith, k, lookup-latest_loop wanted collection manifest next h)
        | inr (r, k) ↦ ground (
          arith,
          k,
          lookup-latest_loop wanted collection manifest next h,
          lookup-insert collection r.collection r best,
        )
      ]

  -- The result, from a best so far.
  best_of-bound :
      (releases : List ReleaseInfo) (b : ReleaseInfo)
      → (r : ReleaseInfo) × (best_of releases (some b) ≡ some r)
        × (text_lt r.identifier b.identifier ≡ false)
        × AllAtMost r releases
        × ((r == b || contains r releases) ≡ true)
  best_of-bound [] b = (b, refl, text_lt_irrefl b.identifier, tt, ground arith)
  best_of-bound (q ∷ rest) b = elim (Bool-cases (text_lt b.identifier q.identifier)) [
    | inl e ↦
        let (r, k, low, most, mem) = best_of-bound rest q in
        let q_ge_b = text_lt_asymm b.identifier q.identifier e in
        (
          r,
          rw e k,
          text_ge_trans r.identifier q.identifier b.identifier low q_ge_b,
          (low, most),
          ground (arith, mem),
        )
    | inr e ↦
        let (r, k, low, most, mem) = best_of-bound rest b in
        (
          r,
          rw e k,
          low,
          (text_ge_trans r.identifier b.identifier q.identifier low e, most),
          ground (arith, mem),
        )
  ]

  best_of-IsNewest : (releases : List ReleaseInfo) → IsNewest releases (best_of releases none)
  best_of-IsNewest [] = refl
  best_of-IsNewest (r ∷ rest) =
      let (b, e, low, most, mem) = best_of-bound rest r in rw e (ground (arith, mem), (low, most))

  -- For a wanted collection the result has a release exactly if the manifest lists a current one;
  -- it is then one of those listed, and no other of them has an identifier that is larger as a
  -- string.
  pub latest_releases-IsNewest :
      (manifest : List Entry) (collections : List Text) (collection : Text)
      → contains collection collections ≡ true
      → IsNewest
          (current_of collection manifest)
          (lookup collection (latest_releases u manifest collections))
  unfolding latest_releases
  latest_releases-IsNewest manifest collections collection h =
      rw (lookup-latest_loop collections collection manifest [] h, lookup-nil collection)
        (best_of-IsNewest (current_of collection manifest))
