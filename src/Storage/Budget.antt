-- ===== src/Storage/Budget.antt =====
-- sync/storage_guard.py: what a permission promises.
use aa_metadata_worker.Prelude.{ℕ, suc, ◌+◌, false, ◌*◌, ◌/◌, ◌≤◌, ◌<◌, ◌≡◌, ◌↔◌, true, arith}
use native.Mathlib.Nat.{le-div_iff_mul-le, div-mul-le_self, mul-le-mul_right, zero-lt-suc, le_trans}
use aa_metadata_worker.Storage.{Amount, stop, warn, evaluate_storage}

-- An operation is allowed exactly if the bytes of the database with those that it needs stay below the
-- stop threshold and the free disk space holds what it needs. Its level is `stop` exactly if it is
-- refused, and `warn` exactly if it is allowed and the bytes reach the warn threshold.
pub evaluate_storage-allowed :
    (disk_free db_size : ℕ) (needed : Amount) (warn_gib stop_gib : ℕ)
    → let decision = evaluate_storage disk_free db_size needed warn_gib stop_gib in
      let bytes = db_size + needed.num / needed.den in
      (decision.allowed ≡ true
        ↔ ((bytes < stop_gib * 1073741824) × (needed.num ≤ disk_free * needed.den)))
      × (decision.level ≡ stop ↔ decision.allowed ≡ false)
      × (decision.level ≡ warn ↔ ((decision.allowed ≡ true) × (warn_gib * 1073741824 ≤ bytes)))
unfolding evaluate_storage
evaluate_storage-allowed disk_free db_size needed warn_gib stop_gib = (
  (λ h. ground arith, λ h. ground arith),
  (λ h. ground arith, λ h. ground arith),
  (λ h. ground arith, λ h. ground arith),
)

-- A larger amount has a larger whole part.
div_mono : (a b d : ℕ) → a ≤ b → a / suc d ≤ b / suc d
div_mono a b d h =
    (le-div_iff_mul-le {k = suc d} {x = a / suc d} {y = b} (zero-lt-suc d)).1
      (le_trans (div-mul-le_self a (suc d)) h)

-- Where an operation is allowed, one that needs no more bytes is allowed too, on a database that is
-- no larger and a disk that has no less space.
pub evaluate_storage-monotone :
    (disk_free disk_free' db_size db_size' : ℕ) (num num' den warn_gib stop_gib : ℕ)
    → disk_free ≤ disk_free'
    → db_size' ≤ db_size
    → num' ≤ num
    → (evaluate_storage disk_free db_size
        (record { num = num; den = suc den })
        warn_gib
        stop_gib).allowed
      ≡ true
    → (evaluate_storage disk_free' db_size'
        (record { num = num'; den = suc den })
        warn_gib
        stop_gib).allowed
      ≡ true
evaluate_storage-monotone disk_free disk_free' db_size db_size' num num' den warn_gib stop_gib f d n
      h =
    let (fits, room) =
      (evaluate_storage-allowed disk_free db_size (record { num = num; den = suc den }) warn_gib
          stop_gib).0.0
        h in
    (evaluate_storage-allowed disk_free' db_size' (record { num = num'; den = suc den }) warn_gib
        stop_gib).0.1
      (
        omega (arith, fits, d, div_mono num' num den n),
        omega (arith, room, n, mul-le-mul_right (suc den) f),
      )
