-- ===== src/Records/Arrays.antt =====
-- `_merge_arrays` of common/records.py is an order-stable union.
use aa_metadata_worker.Prelude.{
  Text, ◌≡◌, refl, ap, ◌∙◌, true, false, ◌||◌, not, ◌&&◌, List, [], ◌∷◌, ◌++◌, arith, Eq, text_eq,
  contains, contains-append, Distinct, nonempty, append-nil, append_assoc,
}
use aa_metadata_worker.Records.{unseen, merge_arrays}

module _ {ℓ} {A : Type ℓ} ⦃e : Eq A⦄ where
  contains-unseen :
      (x : A) (seen xs : List A)
      → contains x (unseen seen xs) ≡ (contains x xs && not (contains x seen))
  unfolding unseen
  contains-unseen x seen [] = refl
  contains-unseen x seen (y ∷ xs) = ground (
    arith,
    contains-unseen x (seen ++ (y ∷ [])) xs,
    contains-unseen x seen xs,
    contains-append x seen (y ∷ []),
  )

  Distinct-unseen : (seen xs : List A) → Distinct (unseen seen xs)
  unfolding unseen
  Distinct-unseen seen [] = tt
  Distinct-unseen seen (x ∷ xs) = ground (
    arith,
    Distinct-unseen seen xs,
    Distinct-unseen (seen ++ (x ∷ [])) xs,
    contains-unseen x (seen ++ (x ∷ [])) xs,
    contains-append x seen (x ∷ []),
  )

  contains-middle :
      (x : A) (seen xs : List A) → Distinct (seen ++ (x ∷ xs)) → contains x seen ≡ false
  contains-middle x [] xs h = refl
  contains-middle x (y ∷ seen) xs h =
      ground (arith, contains-middle x seen xs h.1, contains-append y seen (x ∷ xs))

  -- A list without repetitions, none of which has been seen, is kept as it is.
  unseen-append :
      (seen xs ys : List A)
      → Distinct (seen ++ xs)
      → unseen seen (xs ++ ys) ≡ xs ++ unseen (seen ++ xs) ys
  unfolding unseen
  unseen-append seen [] ys h = rw append-nil
  unseen-append seen (x ∷ xs) ys h = rw (contains-middle x seen xs h) (
      ap (λ r. x ∷ r)
        (unseen-append (seen ++ (x ∷ [])) xs ys (rw append_assoc h) ∙ rw append_assoc))

contains-merge_arrays :
    (x : Text) (existing incoming : List Text)
    → contains x (merge_arrays existing incoming) ≡ (contains x existing || contains x incoming)
unfolding merge_arrays
contains-merge_arrays x existing incoming =
    ground (arith, contains-unseen x [] (existing ++ incoming), contains-append x existing incoming)

Distinct-merge_arrays : (existing incoming : List Text) → Distinct (merge_arrays existing incoming)
unfolding merge_arrays
Distinct-merge_arrays existing incoming = Distinct-unseen [] (existing ++ incoming)

-- What the stored side has, if it repeats nothing, stays in front and in its order.
merge_arrays-prefix :
    (existing incoming : List Text)
    → Distinct existing
    → merge_arrays existing incoming ≡ existing ++ unseen existing incoming
unfolding merge_arrays
merge_arrays-prefix existing incoming h = unseen-append [] existing incoming h

unseen_self :
    (seen xs : List Text)
    → ((x : Text) → contains x xs ≡ true → contains x seen ≡ true)
    → unseen seen xs ≡ []
unfolding unseen
unseen_self seen [] h = refl
unseen_self seen (x ∷ xs) h = ground (arith, h x, unseen_self seen xs (λ y m. h y (ground arith)))

-- The union with itself changes nothing.
pub merge_arrays_self : (xs : List Text) → Distinct xs → merge_arrays xs xs ≡ xs
merge_arrays_self xs h =
    merge_arrays-prefix xs xs h ∙ rw (unseen_self xs xs (λ x m. m)) (append-nil _)

-- The union is empty only if both sides are.
pub nonempty-merge_arrays :
    (a b : List Text) → nonempty (merge_arrays a b) ≡ (nonempty a || nonempty b)
unfolding merge_arrays unseen
nonempty-merge_arrays [] [] = refl
nonempty-merge_arrays [] (x ∷ b) = refl
nonempty-merge_arrays (x ∷ a) b = refl

-- The union with a stored list that repeats nothing contains what either list contains, repeats
-- nothing, and is the stored list followed by what is new.
pub merge_arrays-union :
    (existing incoming : List Text)
    → Distinct existing
    → ((x : Text)
        → contains x (merge_arrays existing incoming)
          ≡ (contains x existing || contains x incoming))
      × Distinct (merge_arrays existing incoming)
      × (merge_arrays existing incoming ≡ existing ++ unseen existing incoming)
merge_arrays-union existing incoming h = (
  λ x. contains-merge_arrays x existing incoming,
  Distinct-merge_arrays existing incoming,
  merge_arrays-prefix existing incoming h,
)
