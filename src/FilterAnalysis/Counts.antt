-- ===== src/FilterAnalysis/Counts.antt =====
-- sync/filter_analysis.py: the counts of an analysis.
use aa_metadata_worker.Prelude.{
  ap, ℕ, ◌+◌, ◌≡◌, refl, Text, Bool, false, Option, none, some, List, [], ◌∷◌, arith, Dict, lookup,
  lookup-insert, text_eq, ◌==◌, if◌then◌else◌, contains, length, lookup-nil, Option-cases, inl, inr,
}
use aa_metadata_worker.Result.{ok, Result-cases}
use aa_metadata_worker.Unicode.{Unicode}
use aa_metadata_worker.Database.{Db}
use aa_metadata_worker.FilterAnalysis.{
  interrupted, err, Result, Reader, ScanEvent, Scan, zero_counts, count_name, name_of, scan_line,
  scan_lines, analyze_payload,
}

abbrev pub is_name : Text → Option Text → Bool
is_name name none = false
is_name name (some n) = name == n

-- What a line counts for, where it can be read.
abbrev pub name_read : Result (Option Text) → Option Text
name_read (ok name) = name
name_read (err e) = none

-- How many lines belong to a subcollection.
abbrev pub lines_of : (Text → Option Text) → Text → List ScanEvent → ℕ
lines_of name_of name [] = 0
lines_of name_of name (ev ∷ events) =
    (if is_name name (name_of ev.line) then 1 else 0) + lines_of name_of name events

abbrev add_to : ℕ → Option ℕ → Option ℕ
add_to n none = none
add_to n (some m) = some (m + n)

lookup-count_name :
    (name : Text) (found : Option Text) (counts : Dict Text ℕ)
    → lookup name (count_name found counts)
      ≡ add_to (if is_name name found then 1 else 0) (lookup name counts)
unfolding count_name
lookup-count_name name none counts = ground arith
lookup-count_name name (some n) counts = elim (Option-cases (lookup n counts)) [
  | inl e ↦ ground (arith, e)
  | inr (m, e) ↦ ground (arith, e, lookup-insert name n (m + 1) counts)
]

lookup-zero_counts :
    (name : Text) (names : List Text)
    → lookup name (zero_counts names) ≡ (if contains name names then some 0 else none)
lookup-zero_counts name [] = lookup-nil name
lookup-zero_counts name (n ∷ names) =
    ground (arith, lookup-insert name n 0 (zero_counts names), lookup-zero_counts name names)

module _ (u : Unicode) (aacid_of : Reader) (job_id : ℕ) where
  scanned-scan_line :
      (name : Option Text) (ev : ScanEvent) (st : Scan)
      → (scan_line u aacid_of job_id name ev st).scanned ≡ st.scanned + 1
  unfolding scan_line
  scanned-scan_line name ev st = refl

  counts-scan_line :
      (name : Option Text) (ev : ScanEvent) (st : Scan)
      → (scan_line u aacid_of job_id name ev st).counts ≡ count_name name st.counts
  unfolding scan_line
  counts-scan_line name ev st = refl

  -- What the lines of an analysis count for.
  abbrev pub read_name : Text → Option Text
  read_name line = name_read (name_of u aacid_of line)

  scan_lines-counts :
      (events : List ScanEvent) (st st' : Scan) (name : Text)
      → (scan_lines u aacid_of job_id events st).0 ≡ ok st'
      → (st'.scanned ≡ st.scanned + length events)
        × (lookup name st'.counts ≡ add_to (lines_of read_name name events) (lookup name st.counts))
  unfolding scan_lines
  scan_lines-counts [] st st' name h = ground arith
  scan_lines-counts (ev ∷ events) st st' name h =
      elim (Result-cases (if ev.stop then err interrupted else name_of u aacid_of ev.line)) [
        | inr (x, e) ↦ absurd (ground (arith, e, h))
        | inl (found, e) ↦
            let same : name_of u aacid_of ev.line ≡ ok found = ground (arith, e) in
            let read : read_name ev.line ≡ found = ap name_read same in
            ground (
              arith,
              e,
              h,
              read,
              scan_lines-counts events (scan_line u aacid_of job_id found ev st) st' name,
              scanned-scan_line found ev st,
              counts-scan_line found ev st,
              lookup-count_name name found st.counts,
            )
      ]

  -- An analysis that returns, neither interrupted nor ended by a line that raises, has scanned every
  -- line, and has for each name that was asked
  -- for the number of lines of that subcollection, and for no other name a count.
  pub analyze_payload-counts :
      (names : List Text) (size : ℕ) (events : List ScanEvent) (db : Db) (counts : Dict Text ℕ)
      (scanned : ℕ)
      → (analyze_payload u aacid_of job_id names size events db).0 ≡ ok (counts, scanned)
      → (scanned ≡ length events)
        × ((name : Text)
            → lookup name counts
              ≡ (if contains name names then some (lines_of read_name name events) else none))
  unfolding analyze_payload
  analyze_payload-counts names size events db counts scanned h =
      let start : Scan = record {
        counts = zero_counts names;
        scanned = 0;
        latest_bytes = 0;
        db = db;
      } in
      elim (Result-cases (scan_lines u aacid_of job_id events start).0) [
        | inr (x, e) ↦ ground (arith, e)
        | inl (st, e) ↦ (
          ground (arith, e, scan_lines-counts events start st [] e),
          λ name.
              ground
                (arith, e, scan_lines-counts events start st name e, lookup-zero_counts name names),
        )
      ]
