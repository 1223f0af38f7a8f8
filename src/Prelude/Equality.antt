-- ===== src/Prelude/Equality.antt =====
-- Python's `==` and `in`, for every type whose equality is decided.
use Prim.Native.Nat.{ℕ}
use mathlib.Core.Logic.{ite}
use mathlib.Core.Bool.{Bool, true, false, ◌||◌}
use mathlib.Core.List.{List, [], ◌∷◌}
use native.Mathlib.Decide.{ℕ_discrete}

pub record Eq {ℓ} (A : Type ℓ) : Type ℓ where
  pub dec : Discrete A

module _ {ℓ} {A : Type ℓ} ⦃e : Eq A⦄ where
  infix 50 ◌==◌
  abbrev pub ◌==◌ : A → A → Bool
  x == y = ite (e.dec x y) true false

  -- `x in xs`
  abbrev pub contains : A → List A → Bool
  contains x [] = false
  contains x (y ∷ ys) = y == x || contains x ys

-- Text is the list of its code points, and `bytes` the list of its bytes.
abbrev pub Text : Type 0
Text = List ℕ

unfoldable pub text_discrete : Discrete Text
unfolding ℕ_discrete
text_discrete = hlevel ℕ_discrete

unfoldable pub nat_discrete : Discrete ℕ
unfolding ℕ_discrete
nat_discrete = ℕ_discrete

instance abbrev pub nat_eq : Eq ℕ
nat_eq = record { dec = nat_discrete }

instance abbrev pub text_eq : Eq Text
text_eq = record { dec = text_discrete }
