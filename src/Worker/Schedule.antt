-- ===== src/Worker/Schedule.antt =====
-- sync/worker.py: the daily schedule. An instant is a number of microseconds since a midnight of UTC,
-- and a time zone is what its wall clock is ahead of UTC at each instant. Two datetimes of one zone are
-- compared and subtracted by their wall clocks. `SYNC_SCHEDULE` is read as Python's `int` reads its two
-- parts.
use aa_metadata_worker.Prelude.{
  ℕ, ◌+◌, ◌-◌, ◌*◌, ◌%◌, ◌≤◌, ◌<◌, ◌≡◌, Text, Bool, true, false, Option, none, some, [], ◌∷◌, ◌++◌,
  ◌&&◌, ◌||◌, not, codes, ◌==◌, nat_eq, if◌then◌else◌, leb, arith,
}
use aa_metadata_worker.Result.{Exception, error, Result, ok, err, ◌>>=◌, >>=-returned}
use aa_metadata_worker.Unicode.{Unicode}
use aa_metadata_worker.Normalize.{strip}

abbrev pub microsecond_rate : ℕ
microsecond_rate = 1000000

abbrev pub day : ℕ
day = 86400 * microsecond_rate

-- `s.split(":", 1)` as two parts, where there is a colon
unfoldable pub split_colon : Text → Option (Text × Text)
split_colon [] = none
split_colon (c ∷ s) =
    let rest = split_colon s in
    if c == 58 then some ([], s) else elim rest [ none ↦ none | some (a, b) ↦ some (c ∷ a, b) ]

-- The instant of the day that the schedule names.
abbrev pub target_of : ℕ × ℕ → ℕ
target_of (hour, minute) = (hour * 3600 + minute * 60) * microsecond_rate

-- The wait in microseconds.
abbrev pub until : ℕ → ℕ → ℕ
until now target = if leb target now then target + day - now else target - now

-- The time of the day on the wall clock of a zone.
abbrev pub wall_clock : (ℕ → ℕ) → ℕ → ℕ
wall_clock zone now = (now + zone now) % day

module _ (u : Unicode) where
  -- Decimal digits, with single underscores between them; the flag says that a digit came last.
  unfoldable pub digits : Bool → ℕ → Text → Option ℕ
  digits after_digit value [] = if after_digit then some value else none
  digits after_digit value (c ∷ s) =
      let skipped = digits false value s in
      elim (u.decimal c) [
        | some d ↦ digits true (value * 10 + d) s
        | none ↦ if c == 95 && after_digit then skipped else none
      ]

  -- A number and whether a minus stands before it.
  abbrev signed : Text → Option (Bool × ℕ)
  signed [] = none
  signed (c ∷ s) =
      let read : Bool → Text → Option (Bool × ℕ) =
        λ minus t. elim (digits false 0 t) [ none ↦ none | some n ↦ some (minus, n) ] in
      if c == 45 then read true s else if c == 43 then read false s else read false (c ∷ s)

  -- `int(part)`
  unfoldable pub int_of : Text → Option (Bool × ℕ)
  unfolding strip digits
  int_of s = signed (strip u.is_space s)

  abbrev pub bad_schedule : Text → Exception
  bad_schedule s =
      error (codes "ValueError") (codes "Invalid SYNC_SCHEDULE '" ++ s ++ codes "', expected HH:MM")

  -- `0 <= n <= limit`
  abbrev pub within : ℕ → Bool × ℕ → Bool
  within limit (minus, n) = leb n limit && (not minus || n == 0)

  -- The hour and the minute.
  unfoldable pub parse_schedule : Text → Result (ℕ × ℕ)
  parse_schedule s = elim (split_colon s) [
    | none ↦ err (bad_schedule s)
    | some (a, b) ↦ elim (int_of a) [
      | none ↦ err (bad_schedule s)
      | some hour ↦ elim (int_of b) [
        | none ↦ err (bad_schedule s)
        | some minute ↦
            if within 23 hour && within 59 minute
            then ok (hour.1, minute.1)
            else err (bad_schedule s)
      ]
    ]
  ]

  -- The zone, and the present instant.
  unfoldable pub seconds_until : Text → (ℕ → ℕ) → ℕ → Result ℕ
  seconds_until s zone now = do
    at ← parse_schedule s
    ok (until (wall_clock zone now) (target_of at))

  parse_schedule-bounds :
      (s : Text) (hour minute : ℕ)
      → parse_schedule s ≡ ok (hour, minute)
      → (hour ≤ 23) × (minute ≤ 59)
  unfolding parse_schedule
  parse_schedule-bounds s hour minute h = ground arith

  until-lands :
      (now wait hour minute : ℕ)
      → now < day
      → hour ≤ 23
      → minute ≤ 59
      → until now (target_of (hour, minute)) ≡ wait
      → (0 < wait) × (wait ≤ day) × ((now + wait) % day ≡ target_of (hour, minute))
  until-lands now wait hour minute n h m e = ground arith

  ok_injective : {a b : ℕ} → ok a ≡ ok b → a ≡ b
  ok_injective h = cc

  wall_clock-later :
      (zone : ℕ → ℕ) (now wait target : ℕ)
      → (wall_clock zone now + wait) % day ≡ target
      → zone (now + wait) ≡ zone now
      → wall_clock zone (now + wait) ≡ target
  wall_clock-later zone now wait target h same = omega (arith, h, same)

  -- A schedule that is accepted names an hour and a minute, and the wait is longer than zero and at
  -- most a day. If the zone does not change its offset in between, the wall clock shows this hour and
  -- minute when the wait is over.
  pub seconds_until-lands :
      (s : Text) (zone : ℕ → ℕ) (now wait : ℕ)
      → seconds_until s zone now ≡ ok wait
      → (at : ℕ × ℕ) × (parse_schedule s ≡ ok at)
        × (at.0 ≤ 23)
        × (at.1 ≤ 59)
        × (0 < wait)
        × (wait ≤ day)
        × (zone (now + wait) ≡ zone now → wall_clock zone (now + wait) ≡ target_of at)
  unfolding seconds_until
  seconds_until-lands s zone now wait h =
      let local = wall_clock zone now in
      let (at, e, k) = >>=-returned (parse_schedule s) (λ at. ok (until local (target_of at))) h in
      let (hours, minutes) = parse_schedule-bounds s at.0 at.1 e in
      let (a, b, c) =
        until-lands local wait at.0 at.1 (omega arith) hours minutes (ok_injective k) in
      (at, e, hours, minutes, a, b, wall_clock-later zone now wait (target_of at) c)
