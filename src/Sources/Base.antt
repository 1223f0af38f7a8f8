-- ===== src/Sources/Base.antt =====
-- sync/sources/base.py: the timestamp of an AACID and the MD5 that stands in for a missing one. A
-- `datetime` is the number of seconds since the beginning of year 1.
use aa_metadata_worker.Prelude.{
  ℕ, ◌+◌, ◌-◌, ◌*◌, ◌/◌, ◌%◌, Text, Bool, Option, none, some, [], ◌∷◌, ◌++◌, ◌&&◌, ◌||◌, not, codes,
  ◌==◌, nat_eq, nonempty, is_some, leb, take, drop, if◌then◌else◌,
}
use aa_metadata_worker.Result.{Result, ok, err, ◌>>=◌}
use aa_metadata_worker.Unicode.{Unicode}
use aa_metadata_worker.Normalize.{strip, four_digits}
use aa_metadata_worker.Discovery.{strip_prefix, skip_digits, then_text, then_timestamp}
use aa_metadata_worker.Sources.Json.{Json, string, Python, truthy, type_error, type_name, get}

abbrev pub is_leap : ℕ → Bool
is_leap y = y % 4 == 0 && (not (y % 100 == 0) || y % 400 == 0)

abbrev pub days_in_month : ℕ → ℕ → ℕ
days_in_month y m =
    if m == 2
    then (if is_leap y then 29 else 28)
    else if m == 4 || m == 6 || m == 9 || m == 11
    then 30
    else 31

-- The days of a year before a month.
abbrev pub days_before_month : ℕ → ℕ → ℕ
days_before_month y m =
    let leap_day : ℕ = if leb 3 m && is_leap y then 1 else 0 in
    if leb m 2 then 31 * (m - 1) else (153 * (m - 3) + 2) / 5 + 59 + leap_day

abbrev pub days_before_year : ℕ → ℕ
days_before_year y = 365 * (y - 1) + (y - 1) / 4 - (y - 1) / 100 + (y - 1) / 400

-- The seconds of a date and a time that `datetime` accepts.
unfoldable pub instant : ℕ → ℕ → ℕ → ℕ → ℕ → ℕ → Option ℕ
instant y m d hour minute second =
    if leb 1 y && leb 1 d && leb d (days_in_month y m) && leb second 59
    then some (
        (days_before_year y + days_before_month y m + (d - 1)) * 86400
        + hour * 3600
        + minute * 60
        + second)
    else none

-- Two characters as `strptime` reads them: the first one of the ASCII digits `lo` to `hi`, the second
-- a decimal digit.
module _ (u : Unicode) where
  abbrev pub two : ℕ → ℕ → Text → Option (ℕ × Text)
  two lo hi (a ∷ b ∷ s) = elim (u.decimal b) [
    | none ↦ none
    | some n ↦ if leb (48 + lo) a && leb a (48 + hi) then some ((a - 48) * 10 + n, s) else none
  ]
  two lo hi _ = none

  -- The second one of the ASCII digits `lo` to `hi`, behind a given first one.
  abbrev pub behind : ℕ → ℕ → ℕ → Text → Option (ℕ × Text)
  behind first lo hi (a ∷ b ∷ s) =
      if a == 48 + first && leb (48 + lo) b && leb b (48 + hi)
      then some (first * 10 + (b - 48), s)
      else none
  behind first lo hi _ = none

  abbrev pub or_else : Option (ℕ × Text) → Option (ℕ × Text) → Option (ℕ × Text)
  or_else none b = b
  or_else (some a) b = some a

  -- `1[0-2]|0[1-9]`, `3[0-1]|[1-2]\d|0[1-9]`, `2[0-3]|[0-1]\d`, `[0-5]\d` and `6[0-1]|[0-5]\d`; the
  -- shorter alternatives of `strptime` never fill the width that the pattern before it has fixed.
  abbrev pub month_part : Text → Option (ℕ × Text)
  month_part s = or_else (behind 1 0 2 s) (behind 0 1 9 s)

  abbrev pub day_part : Text → Option (ℕ × Text)
  day_part s = or_else (behind 3 0 1 s) (or_else (two 1 2 s) (behind 0 1 9 s))

  abbrev pub hour_part : Text → Option (ℕ × Text)
  hour_part s = or_else (behind 2 0 3 s) (two 0 1 s)

  abbrev pub second_part : Text → Option (ℕ × Text)
  second_part s = or_else (behind 6 0 1 s) (two 0 5 s)

  -- `%Y`
  abbrev pub year_part : Text → Option (ℕ × Text)
  year_part s = elim (four_digits u s) [ none ↦ none | some y ↦ some (y, drop 4 s) ]

  -- `datetime.strptime(stamp, "%Y%m%dT%H%M%SZ")`, on a text that matches `\d{8}T\d{6}Z`
  unfoldable pub strptime : Text → Option ℕ
  unfolding instant four_digits
  strptime stamp = elim (year_part stamp) [
    | none ↦ none
    | some (y, s1) ↦ elim (month_part s1) [
      | none ↦ none
      | some (m, s2) ↦ elim (day_part s2) [
        | none ↦ none
        | some (d, s3) ↦ elim (hour_part (drop 1 s3)) [
          | none ↦ none
          | some (hour, s4) ↦ elim (two 0 5 s4) [
            | none ↦ none
            | some (minute, s5) ↦ elim (second_part s5) [
              | none ↦ none
              | some (second, s6) ↦ instant y m d hour minute second
            ]
          ]
        ]
      ]
    ]
  ]

  -- `__\d{8}T\d{6}Z__` at the head of a text
  abbrev pub has_stamp : Text → Bool
  has_stamp s = is_some (then_text u (codes "__") (then_timestamp u (strip_prefix (codes "__") s)))

  -- `_AACID_TS_RE.search`: the stamp of the leftmost match
  unfoldable pub search_stamp : Text → Option Text
  unfolding strip_prefix skip_digits
  search_stamp [] = none
  search_stamp (c ∷ s) =
      let later = search_stamp s in if has_stamp (c ∷ s) then some (take 16 (drop 1 s)) else later

  unfoldable pub aacid_timestamp : Json → Result (Option ℕ)
  unfolding search_stamp strptime
  aacid_timestamp (string s) =
      ok (elim (search_stamp s) [ none ↦ none | some stamp ↦ strptime stamp ])
  aacid_timestamp v =
      if truthy v
      then err (
          type_error
            (codes "expected string or bytes-like object, got '" ++ type_name v ++ codes "'"))
      else ok none

module _ (py : Python) where
  unfoldable pub synthetic_md5 : Text → Option Text → Result (Option Text)
  synthetic_md5 collection none = ok none
  synthetic_md5 collection (some record_id) =
      if not (nonempty (strip py.unicode.is_space record_id))
      then ok none
      else do digest ← py.sha256 (collection ++ codes "|" ++ record_id); ok (some (take 16 digest))

  unfoldable pub record_timestamp : Json → Result (Option ℕ)
  unfolding aacid_timestamp get
  record_timestamp raw = do aacid ← get (codes "aacid") raw; aacid_timestamp py.unicode aacid
