-- ===== src/CountCache.antt =====
-- app/routes/dashboard.py: the cache of the exact record counts, and the thread that refreshes it. The
-- lock makes each function below one step. `monotonic()` is a number of microseconds. The reset for
-- the tests is left out.
pub mod Single
use aa_metadata_worker.Prelude.{
  ℕ, ◌+◌, ◌-◌, ◌*◌, Text, Bool, true, false, Option, none, some, List, [], ◌∷◌, ◌++◌, ◌&&◌, ◌≡◌,
  Dict, Eq, ◌==◌, ltb, if◌then◌else◌,
}
use native.Mathlib.Decide.{ℕ_discrete}

-- The active collections, and the instant of the last completed sync as a text.
abbrev pub CacheKey : Type 0
CacheKey = List Text × Option Text

unfoldable pub key_discrete : Discrete CacheKey
unfolding ℕ_discrete
key_discrete = hlevel ℕ_discrete

unfoldable pub option_key_discrete : Discrete (Option CacheKey)
unfolding ℕ_discrete
option_key_discrete = hlevel ℕ_discrete

instance abbrev pub option_key_eq : Eq (Option CacheKey)
option_key_eq = record { dec = option_key_discrete }

instance abbrev pub key_eq : Eq CacheKey
key_eq = record { dec = key_discrete }

-- Exact counts by collection, and when they were calculated.
abbrev pub Snapshot : Type 0
Snapshot = Dict Text ℕ × ℕ

pub record Cached : Type 0 where
  pub key : CacheKey
  pub stored_at : ℕ
  pub snapshot : Snapshot

-- The variables of the module, and the refresh threads that run.
pub record CountState : Type 0 where
  pub cache : Option Cached
  pub refresh_key : Option CacheKey
  pub running : List CacheKey

abbrev pub fresh_start : CountState
fresh_start = record { cache = none; refresh_key = none; running = [] }

abbrev pub ttl : ℕ
ttl = 60 * 1000000

abbrev pub stale_result : CacheKey → Option Cached → Option Snapshot
stale_result key none = none
stale_result key (some c) = if c.key == key then some c.snapshot else none

abbrev pub is_fresh : CacheKey → ℕ → Option Cached → Bool
is_fresh key now none = false
is_fresh key now (some c) = c.key == key && ltb (now - c.stored_at) ttl

-- A refresh is asked for; the flag says that the thread can be started.
unfoldable pub ask_refresh : Bool → CacheKey → CountState → CountState
ask_refresh can_start key s = elim s.refresh_key [
  | some _ ↦ s
  | none ↦
      if can_start
      then record s { refresh_key = some key; running = s.running ++ (key ∷ []) }
      else s
]

unfoldable pub current_counts : Bool → CacheKey → ℕ → CountState → Option Snapshot × CountState
current_counts can_start key now s =
    (stale_result key s.cache, if is_fresh key now s.cache then s else ask_refresh can_start key s)

-- The snapshot of a thread that succeeded is kept.
abbrev pub keep_snapshot : CacheKey → ℕ → Option Snapshot → Option Cached → Option Cached
keep_snapshot key now none cache = cache
keep_snapshot key now (some snapshot) cache =
    some (record { key = key; stored_at = now; snapshot = snapshot })

-- The end of the thread of a key, of which those before and after it go on.
unfoldable pub finish_refresh :
    CacheKey → ℕ → Option Snapshot → List CacheKey → List CacheKey → CountState → CountState
finish_refresh key now result before after s =
    if s.refresh_key == some key
    then record {
      cache = keep_snapshot key now result s.cache;
      refresh_key = none;
      running = before ++ after;
    }
    else record s { running = before ++ after }

pub data CountStep : CountState → CountState → Type 0 where
  asks :
      (can_start : Bool) (key : CacheKey) (now : ℕ) (s : CountState)
      → CountStep s (current_counts can_start key now s).1
  finishes :
      (key : CacheKey) (now : ℕ) (result : Option Snapshot) (before after : List CacheKey)
      (s : CountState)
      → s.running ≡ before ++ (key ∷ after)
      → CountStep s (finish_refresh key now result before after s)

pub data CountReach : CountState → Type 0 where
  here : CountReach fresh_start
  next : {s t : CountState} → CountReach s → CountStep s t → CountReach t
