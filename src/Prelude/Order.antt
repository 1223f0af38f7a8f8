-- ===== src/Prelude/Order.antt =====
-- Python's order of strings (by code points), and `sorted` on lists of strings.
use mathlib.Core.Path.{◌≡◌, refl}
use mathlib.Core.Bool.{Bool, true, false, ◌||◌}
use mathlib.Core.List.{List, [], ◌∷◌}
use native.Mathlib.Omega.{arith}
use aa_metadata_worker.Prelude.Equality.{◌==◌, contains, Text, text_eq}
use aa_metadata_worker.Prelude.Lists.{if◌then◌else◌, ltb}

-- `s < t` on strings
unfoldable pub text_lt : Text → Text → Bool
text_lt s [] = false
text_lt [] (d ∷ t) = true
text_lt (c ∷ s) (d ∷ t) =
    let rest = text_lt s t in if ltb c d then true else if ltb d c then false else rest

pub text_lt_irrefl : (s : Text) → text_lt s s ≡ false
unfolding text_lt
text_lt_irrefl [] = refl
text_lt_irrefl (c ∷ s) = ground (arith, text_lt_irrefl s)

pub text_lt_trans : (r s t : Text) → text_lt r s ≡ true → text_lt s t ≡ true → text_lt r t ≡ true
unfolding text_lt
text_lt_trans [] [] t p q = q
text_lt_trans (c ∷ r) [] t p q = ground arith
text_lt_trans r (d ∷ s) [] p q = ground arith
text_lt_trans [] (d ∷ s) (e ∷ t) p q = refl
text_lt_trans (c ∷ r) (d ∷ s) (e ∷ t) p q = ground (arith, text_lt_trans r s t)

-- Two strings of which neither is smaller are equal.
pub text_lt_antisymm : (s t : Text) → text_lt s t ≡ false → text_lt t s ≡ false → s ≡ t
unfolding text_lt
text_lt_antisymm [] [] p q = refl
text_lt_antisymm [] (d ∷ t) p q = ground arith
text_lt_antisymm (c ∷ s) [] p q = ground arith
text_lt_antisymm (c ∷ s) (d ∷ t) p q = ground (arith, text_lt_antisymm s t)

-- `s ≤ t < u` gives `s ≤ u`, and so on: not smaller is transitive.
pub text_ge_trans : (r s t : Text) → text_lt r s ≡ false → text_lt s t ≡ false → text_lt r t ≡ false
unfolding text_lt
text_ge_trans r s [] p q = ground arith
text_ge_trans r [] (e ∷ t) p q = ground arith
text_ge_trans [] (d ∷ s) (e ∷ t) p q = ground arith
text_ge_trans (c ∷ r) (d ∷ s) (e ∷ t) p q = ground (arith, text_ge_trans r s t)

insert_sorted : Text → List Text → List Text
insert_sorted x [] = x ∷ []
insert_sorted x (y ∷ ys) =
    let rest = insert_sorted x ys in if text_lt y x then y ∷ rest else x ∷ y ∷ ys

-- `sorted(xs)`
unfoldable pub sorted : List Text → List Text
unfolding insert_sorted text_lt
sorted [] = []
sorted (x ∷ xs) = insert_sorted x (sorted xs)

contains-insert_sorted :
    (x y : Text) (ys : List Text) → contains x (insert_sorted y ys) ≡ (y == x || contains x ys)
unfolding insert_sorted
contains-insert_sorted x y [] = ground arith
contains-insert_sorted x y (z ∷ ys) = ground (arith, contains-insert_sorted x y ys)

pub contains-sorted : (x : Text) (xs : List Text) → contains x (sorted xs) ≡ contains x xs
unfolding sorted
contains-sorted x [] = refl
contains-sorted x (y ∷ xs) =
    ground (arith, contains-insert_sorted x y (sorted xs), contains-sorted x xs)

-- No element is smaller than the one before it.
abbrev pub IsSorted : List Text → Type 0
IsSorted [] = Unit
IsSorted (x ∷ []) = Unit
IsSorted (x ∷ y ∷ ys) = (text_lt y x ≡ false) × IsSorted (y ∷ ys)

pub text_lt_asymm : (s t : Text) → text_lt s t ≡ true → text_lt t s ≡ false
unfolding text_lt
text_lt_asymm s [] p = ground arith
text_lt_asymm [] (d ∷ t) p = refl
text_lt_asymm (c ∷ s) (d ∷ t) p = ground (arith, text_lt_asymm s t)

insert_sorted-IsSorted : (x : Text) (ys : List Text) → IsSorted ys → IsSorted (insert_sorted x ys)
unfolding insert_sorted
insert_sorted-IsSorted x [] h = tt
insert_sorted-IsSorted x (y ∷ []) h = ground (arith, text_lt_asymm y x)
insert_sorted-IsSorted x (y ∷ z ∷ ys) h =
    ground (arith, text_lt_asymm y x, text_lt_asymm z x, insert_sorted-IsSorted x (z ∷ ys) h.1)

pub sorted-IsSorted : (xs : List Text) → IsSorted (sorted xs)
unfolding sorted
sorted-IsSorted [] = tt
sorted-IsSorted (x ∷ xs) = insert_sorted-IsSorted x (sorted xs) (sorted-IsSorted xs)
