-- ===== src/Examples/Scans.antt =====
-- A stalled download, an analysis of a payload, and the pages of a search.
use aa_metadata_worker.Prelude.{
  ◌/◌, ◌*◌, ℕ, ◌+◌, ◌≡◌, refl, Text, true, false, none, some, List, [], ◌∷◌, ◌++◌, codes, arith,
  length, lookup, text_eq, contains, if◌then◌else◌, nat_discrete, text_lt,
}
use aa_metadata_worker.Result.{ok, Result}
use aa_metadata_worker.Unicode.{ascii}
use aa_metadata_worker.Database.{Db}
use aa_metadata_worker.Torrent.{Sample, Watch, watch, stalled}
use aa_metadata_worker.Torrent.Stall.{watch-stalls}
use aa_metadata_worker.FilterAnalysis.{Reader, ScanEvent, analyze_payload, scan_lines}
use aa_metadata_worker.FilterAnalysis.Counts.{read_name, lines_of, analyze_payload-counts}
use aa_metadata_worker.Search.{Hit}
use aa_metadata_worker.Search.Pages.{IsOrdered, follow, follow-all}
use aa_metadata_worker.Examples.{one_release, value_or}

abbrev sample : ℕ → Sample
sample now = record {
  now = now;
  total_done = 5;
  progress = 995000;
  checking = true;
  is_seeding = false;
}

abbrev quiet : Watch
quiet = record { last_total_done = 5; last_progress_change = 10; last_check_start = 10 }

watch-stalls_example : watch 60 300 ((sample 20 ∷ []) ++ (sample 3000 ∷ [])) quiet ≡ stalled
watch-stalls_example =
    watch-stalls 60 300 10 5 (sample 20 ∷ []) (sample 3000) quiet ((refl, refl, omega arith), tt)
      (refl, refl, omega arith) (omega arith) (refl, omega arith, omega arith)

abbrev aacid_of : Reader
aacid_of t = some (ok (some t))

abbrev scan_event : Text → ScanEvent
scan_event t = record { line = t; bytes = 10; due = true; stop = false }

abbrev scan_events : List ScanEvent
scan_events =
    scan_event (codes "aacid__upload_records_misc__20240101T000000Z__1")
    ∷ scan_event (codes "x")
    ∷ []

abbrev names : List Text
names = codes "misc" ∷ codes "magzdb" ∷ []

abbrev analysis : Result (List (Text × ℕ) × ℕ) × Db
analysis = analyze_payload ascii aacid_of 1 names 40 scan_events one_release

abbrev found : List (Text × ℕ) × ℕ
found = value_or ([], 0) analysis.0

analysis-ok : analysis.0 ≡ ok (found.0, found.1)
unfolding analyze_payload scan_lines
analysis-ok = refl

analyze_payload-counts_example :
    (found.1 ≡ 2)
    × ((name : Text)
        → lookup name found.0 ≡ (
            if contains name names
            then some (lines_of (read_name ascii aacid_of 1) name scan_events)
            else none))
analyze_payload-counts_example =
    analyze_payload-counts ascii aacid_of 1 names 40 scan_events one_release found.0 found.1
      analysis-ok

abbrev hit : ℕ → ℕ → Hit
hit rank byte = record { rank = rank; md5 = byte ∷ [] }

abbrev hits : List Hit
hits = hit 112 2 ∷ hit 80 1 ∷ hit 80 3 ∷ []

hits-IsOrdered : IsOrdered hits
unfolding text_lt nat_discrete
hits-IsOrdered = ((refl, (refl, tt)), ((refl, tt), (tt, tt)))

-- Ranks that are whole numbers come back, and others as the next smaller one, in sixteenths.
abbrev whole : ℕ → ℕ
whole rank = rank / 16 * 16

follow-all_example : follow whole (length hits + 1) hits 2 none ≡ hits
follow-all_example = follow-all whole hits 1 hits-IsOrdered (refl, (refl, (refl, tt)))
