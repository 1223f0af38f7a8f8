-- ===== src/Result.antt =====
-- Python exceptions as values. A function that may raise returns a `Result`.
use aa_metadata_worker.Prelude.{Text, ◌≡◌, refl, ◌⊎◌, inl, inr}

-- An exception is known by its class and its message. `GracefulShutdown` of sync/importer.py has a
-- handler of its own.
pub data Exception : Type 0 where
  graceful_shutdown : Exception
  error : Text → Text → Exception

-- What a call ends with: a value that it returns, or an exception that it raises.
pub data Result {ℓ} (R : Type ℓ) : Type ℓ where
  err : Exception → Result R
  ok : R → Result R

infixl 5 ◌>>=◌ ◌>>◌
module _ {ℓ κ} {R : Type ℓ} {S : Type κ} where
  -- One statement after another: an exception leaves out the rest.
  abbrev pub ◌>>=◌ : Result R → (R → Result S) → Result S
  ◌>>=◌ (err raised) rest = err raised
  ◌>>=◌ (ok value) rest = rest value

  abbrev pub ◌>>◌ : Result R → Result S → Result S
  ◌>>◌ call rest = ◌>>=◌ call (λ _. rest)

  -- A chain that returned has returned at its first statement.
  pub >>=-returned :
      (call : Result R) (rest : R → Result S) {result : S}
      → ◌>>=◌ call rest ≡ ok result
      → (value : R) × (call ≡ ok value) × (rest value ≡ ok result)
  >>=-returned (err raised) rest h = cc
  >>=-returned (ok value) rest h = (value, refl, h)

module _ {ℓ} {R : Type ℓ} where
  pub Result-cases :
      (call : Result R)
      → ((value : R) × (call ≡ ok value)) ⊎ ((raised : Exception) × (call ≡ err raised))
  Result-cases (err raised) = inr (raised, refl)
  Result-cases (ok value) = inl (value, refl)
