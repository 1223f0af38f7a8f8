-- ===== src/Sources/Returns.antt =====
-- A property of what a call returns, with a rule for each way to build one: by these a property of
-- the records of an adapter is proved along the statements of its `parse`.
use aa_metadata_worker.Prelude.{
  ◌≡◌, refl, subst, Bool, true, false, Option, none, some, if◌then◌else◌,
}
use aa_metadata_worker.Result.{Exception, Result, ok, err, ◌>>=◌}
use aa_metadata_worker.Sources.Record.{on_option}

-- What `m` returns, if it returns, has the property `P`.
pub record Returns {A : Type 0} (P : A → Type 0) (m : Result A) : Type 0 where
  pub at : (a : A) → m ≡ ok a → P a

module _ {A : Type 0} {P : A → Type 0} where
  pub Returns-ok : (a : A) → P a → Returns P (ok a)
  Returns-ok a p = record { at = λ b e. subst P (cc) p }

  pub Returns-err : (e : Exception) → Returns P (err e)
  Returns-err e = record { at = λ b h. absurd (cc) }

  pub Returns-if :
      (b : Bool) (m n : Result A)
      → (b ≡ true → Returns P m)
      → (b ≡ false → Returns P n)
      → Returns P (if b then m else n)
  Returns-if true m n km kn = km refl
  Returns-if false m n km kn = kn refl

  pub Returns-on_option :
      {B : Type 0} (o : Option B) (missing : Result A) (given : B → Result A)
      → Returns P missing
      → ((b : B) → o ≡ some b → Returns P (given b))
      → Returns P (on_option o missing given)
  unfolding on_option
  Returns-on_option none missing given h k = h
  Returns-on_option (some b) missing given h k = k b refl

  pub Returns-bind :
      {B : Type 0} (m : Result B) (k : B → Result A)
      → ((b : B) → m ≡ ok b → Returns P (k b))
      → Returns P (m >>= k)
  Returns-bind (ok b) k h = h b refl
  Returns-bind (err e) k h = Returns-err e

  -- The same for a statement of which nothing need be known.
  pub Returns-then :
      {B : Type 0} (m : Result B) (k : B → Result A)
      → ((b : B) → Returns P (k b))
      → Returns P (m >>= k)
  Returns-then (ok b) k h = h b
  Returns-then (err e) k h = Returns-err e
