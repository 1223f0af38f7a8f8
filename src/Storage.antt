-- ===== src/Storage.antt =====
-- sync/storage_guard.py: whether a download or an import may start. The bytes that it needs are a
-- fraction, since the callers multiply a size by 1.05 and by 1.1, and the arithmetic is exact; the
-- free disk space is a parameter. The message of a decision is not modelled.
pub mod Budget
use aa_metadata_worker.Prelude.{ℕ, ◌+◌, ◌*◌, ◌/◌, Bool, true, false, ◌||◌, ltb, leb, if◌then◌else◌}

pub data Level : Type 0 where
  fine warn stop : Level

pub record StorageDecision : Type 0 where
  pub allowed : Bool
  pub level : Level
  pub database_size_bytes : ℕ
  pub disk_free_bytes : ℕ
  pub projected_total_bytes : ℕ

-- A number of bytes, `num / den`, with a denominator that is not 0.
pub record Amount : Type 0 where
  pub num : ℕ
  pub den : ℕ

abbrev pub gib : ℕ
gib = 1073741824

-- `int(db_size_bytes + max(0, additional_bytes_needed))`
abbrev pub projected : ℕ → Amount → ℕ
projected db_size needed = db_size + needed.num / needed.den

-- `disk_free < additional_bytes_needed`
abbrev pub too_small : ℕ → Amount → Bool
too_small disk_free needed = ltb (disk_free * needed.den) needed.num

unfoldable pub evaluate_storage : ℕ → ℕ → Amount → ℕ → ℕ → StorageDecision
evaluate_storage disk_free db_size needed warn_gib stop_gib =
    let total = projected db_size needed in
    let decide : Bool → Level → StorageDecision = λ allowed level. record {
      allowed = allowed;
      level = level;
      database_size_bytes = db_size;
      disk_free_bytes = disk_free;
      projected_total_bytes = total;
    } in
    if leb (stop_gib * gib) total || too_small disk_free needed
    then decide false stop
    else if leb (warn_gib * gib) total
    then decide true warn
    else decide true fine
