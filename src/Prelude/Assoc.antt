-- ===== src/Prelude/Assoc.antt =====
-- Python's `dict`, and a table with a primary key: an association list in order of insertion.
use Prim.Native.Nat.{◌+◌}
use mathlib.Core.Path.{◌≡◌, refl}
use mathlib.Core.Bool.{true}
use mathlib.Core.Option.{Option, none, some}
use mathlib.Core.List.{List, [], ◌∷◌}
use native.Mathlib.Omega.{arith}
use aa_metadata_worker.Prelude.Equality.{Eq, ◌==◌, contains}
use aa_metadata_worker.Prelude.Lists.{if◌then◌else◌, is_some, length, Distinct}

abbrev pub Dict {ℓ κ} : Type ℓ → Type κ → Type (ℓ ⊔ κ)
Dict K V = List (K × V)

abbrev pub keys {ℓ κ} : {K : Type ℓ} {V : Type κ} → Dict K V → List K
keys [] = []
keys ((k, _) ∷ d) = k ∷ keys d

module _ {ℓ κ} {K : Type ℓ} {V : Type κ} ⦃e : Eq K⦄ where
  -- `d.get(k)`
  unfoldable pub lookup : K → Dict K V → Option V
  lookup k [] = none
  lookup k ((j, v) ∷ d) = if k == j then some v else lookup k d

  -- `d[k] = v`: the value of an old key is replaced in its place
  unfoldable pub insert : K → V → Dict K V → Dict K V
  insert k v [] = (k, v) ∷ []
  insert k v ((j, w) ∷ d) = if k == j then (j, v) ∷ d else (j, w) ∷ insert k v d

  -- `d.get(k, default)`
  unfoldable pub get_or : K → V → Dict K V → V
  unfolding lookup
  get_or k v d = elim (lookup k d) [ none ↦ v | some w ↦ w ]

  pub lookup-nil : (k : K) → lookup k [] ≡ none
  unfolding lookup
  lookup-nil k = refl

  pub lookup-insert :
      (j k : K) (v : V) (d : Dict K V)
      → lookup j (insert k v d) ≡ (if j == k then some v else lookup j d)
  unfolding insert lookup
  lookup-insert j k v [] = refl
  lookup-insert j k v (_ ∷ d) = ground (arith, lookup-insert j k v d)

  pub contains-keys : (k : K) (d : Dict K V) → contains k (keys d) ≡ is_some (lookup k d)
  unfolding lookup
  contains-keys k [] = refl
  contains-keys k (_ ∷ d) = ground (arith, contains-keys k d)

  pub contains-keys-insert :
      (j k : K) (v : V) (d : Dict K V)
      → contains j (keys (insert k v d)) ≡ (if j == k then true else contains j (keys d))
  unfolding insert
  contains-keys-insert j k v [] = ground arith
  contains-keys-insert j k v (_ ∷ d) = ground (arith, contains-keys-insert j k v d)

  pub Distinct-insert :
      (k : K) (v : V) (d : Dict K V) → Distinct (keys d) → Distinct (keys (insert k v d))
  unfolding insert
  Distinct-insert k v [] h = ground arith
  Distinct-insert k v ((j, _) ∷ d) h =
      ground (arith, Distinct-insert k v d h.1, contains-keys-insert j k v d)

  pub length-insert :
      (k : K) (v : V) (d : Dict K V)
      → length (insert k v d) ≡ (if is_some (lookup k d) then length d else length d + 1)
  unfolding insert lookup
  length-insert k v [] = omega arith
  length-insert k v (_ ∷ d) = ground (arith, length-insert k v d)
