-- ===== src/Sources/Uploads/Filters.antt =====
-- sync/sources/uploads.py: which uploads are discarded.
use aa_metadata_worker.Prelude.{
  refl, not, ◌≡◌, Text, true, false, ◌&&◌, Option, none, some, is_some, List, [], ◌∷◌, ◌++◌, codes,
  All, contains, text_eq, nonempty, if◌then◌else◌, arith, Option-cases, Bool-cases, ◌⊎◌, inl, inr,
  nat_eq,
}
use aa_metadata_worker.Result.{Result, ok, ◌>>=◌}
use aa_metadata_worker.Unicode.{Unicode}
use aa_metadata_worker.Records.{NormalizedRecord}
use aa_metadata_worker.Discovery.{strip_prefix}
use aa_metadata_worker.FilterAnalysis.{match_group, subcollection_of}
use aa_metadata_worker.Sources.Json.{get_object, Json, Python}
use aa_metadata_worker.Sources.Record.{SourceSettings, on_option, aacid_column}
use aa_metadata_worker.Sources.Returns.{
  Returns, Returns-then, Returns-ok, Returns-bind, Returns-on_option,
}
use aa_metadata_worker.Sources.Uploads.{
  text_of_either, discard_reason_of, discarded_record, upload_record, parse_upload,
}

match_group-nonempty :
    (u : Unicode) (taken s name : Text) → match_group u taken s ≡ some name → nonempty name ≡ true
unfolding match_group
match_group-nonempty u taken [] name h = absurd (cc)
match_group-nonempty u taken (c ∷ s) name h =
    ground (arith, h, match_group-nonempty u (taken ++ (c ∷ [])) s name)

subcollection_of-nonempty :
    (u : Unicode) (aacid : Option Text) (name : Text)
    → subcollection_of u aacid ≡ some name
    → nonempty name ≡ true
unfolding subcollection_of
subcollection_of-nonempty u none name h = absurd (cc)
subcollection_of-nonempty u (some aacid) name h =
    elim (Option-cases (strip_prefix (codes "aacid__upload_records_") aacid)) [
      | inl e ↦ ground (arith, e, h)
      | inr (rest, e) ↦ match_group-nonempty u [] rest name (ground (arith, e, h))
    ]

module _ {A : Type 0} {P : A → Type 0} (raw : Json) (k : Option Text → Result A) where
  Returns-aacid :
      ((aacid : Option Text) → aacid_column raw ≡ ok aacid → Returns P (k aacid))
      → Returns P (aacid_column raw >>= k)
  Returns-aacid h = Returns-bind (aacid_column raw) k h

if_title :
    (title other : Text) → nonempty title ≡ true → (if nonempty title then title else other) ≡ title
if_title title other h = ground arith

module _ (py : Python) where
  discarded_record-Returns :
      (raw meta : Json) (md5 title author reason : Text)
      → Returns
          (λ r.
            (aacid_column raw ≡ ok r.aacid)
            × (r.discarded ≡ true)
            × (r.discard_reason ≡ some reason))
          (discarded_record py raw meta md5 title author reason)
  unfolding discarded_record
  discarded_record-Returns raw meta md5 title author reason =
      search (Returns-ok, Returns-aacid, Returns-then) depth 20

  upload_record-Returns :
      (raw meta exif pikepdf : Json) (md5 title author : Text)
      → Returns
          (λ r. (aacid_column raw ≡ ok r.aacid) × (r.discarded ≡ false) × (r.discard_reason ≡ none))
          (upload_record py raw meta exif pikepdf md5 title author)
  unfolding upload_record
  upload_record-Returns raw meta exif pikepdf md5 title author =
      search (Returns-ok, Returns-aacid, Returns-then) depth 60

  upload_record-title :
      (raw meta exif pikepdf : Json) (md5 title author : Text)
      → nonempty title ≡ true
      → Returns (λ r. r.title ≡ title) (upload_record py raw meta exif pikepdf md5 title author)
  unfolding upload_record
  upload_record-title raw meta exif pikepdf md5 title author h =
      search (Returns-ok, Returns-then, if_title, h) depth 60

-- The title and the author that the metadata of a line give.
abbrev pub bibliographic : Python → Json → Result (Text × Text)
bibliographic py raw = do
  meta ← get_object (codes "metadata") raw
  exif ← get_object (codes "exiftool_output") meta
  pikepdf ← get_object (codes "pikepdf_docinfo") meta
  title ← text_of_either py (codes "Title") exif (codes "/Title") pikepdf
  author ← text_of_either py (codes "Author") exif (codes "/Author") pikepdf
  ok (title, author)

-- What the filters decide about the record of a line with this title and this author.
pub record IsFiltered (u : Unicode) (settings : SourceSettings) (title author : Text)
    (r : NormalizedRecord) : Type 0 where
  pub flag : r.discarded ≡ is_some r.discard_reason
  pub blocked :
      (name : Text)
      → subcollection_of u r.aacid ≡ some name
      → contains name settings.upload_blocked_subcollections ≡ true
      → r.discard_reason ≡ some (codes "blocked_subcollection:" ++ name)
  pub reasons :
      (reason : Text)
      → r.discard_reason ≡ some reason
      → ((reason ≡ codes "missing_title_or_author")
          × (settings.upload_require_title_author ≡ true)
          × ((title ≡ []) ⊎ (author ≡ [])))
        ⊎ ((name : Text) × (subcollection_of u r.aacid ≡ some name)
            × (contains name settings.upload_blocked_subcollections ≡ true)
            × (reason ≡ codes "blocked_subcollection:" ++ name))
  pub required :
      settings.upload_require_title_author ≡ true
      → r.discarded ≡ false
      → (nonempty title ≡ true) × (nonempty author ≡ true)
  pub titled : r.discarded ≡ false → nonempty title ≡ true → r.title ≡ title

one_missing :
    (title author : Text)
    → (nonempty title && nonempty author) ≡ false
    → (title ≡ []) ⊎ (author ≡ [])
one_missing [] author h = inl refl
one_missing (c ∷ title) [] h = inr refl
one_missing (c ∷ title) (d ∷ author) h = absurd (cc)

module _ (py : Python) (settings : SourceSettings) (aacid : Option Text) (title author : Text) where
  discard_reason_of-blocked :
      (name : Text)
      → subcollection_of py.unicode aacid ≡ some name
      → contains name settings.upload_blocked_subcollections ≡ true
      → discard_reason_of py settings aacid title author
        ≡ some (codes "blocked_subcollection:" ++ name)
  unfolding discard_reason_of
  discard_reason_of-blocked name e h =
      ground (arith, e, subcollection_of-nonempty py.unicode aacid name e, h)

  discard_reason_of-titled :
      settings.upload_require_title_author ≡ true
      → discard_reason_of py settings aacid title author ≡ none
      → (nonempty title ≡ true) × (nonempty author ≡ true)
  unfolding discard_reason_of
  discard_reason_of-titled q h = elim (Option-cases (subcollection_of py.unicode aacid)) [
    | inl e ↦ (ground (arith, e, q, h), ground (arith, e, q, h))
    | inr (name, e) ↦ (ground (arith, e, q, h), ground (arith, e, q, h))
  ]

  abbrev IsMissing : Text → Type 0
  IsMissing reason =
      (reason ≡ codes "missing_title_or_author")
      × (settings.upload_require_title_author ≡ true)
      × ((title ≡ []) ⊎ (author ≡ []))

  -- The second filter, where the first one lets the line through.
  reason-IsMissing :
      (reason : Text)
      → (if settings.upload_require_title_author && not (nonempty title && nonempty author)
          then some (codes "missing_title_or_author")
          else none)
        ≡ some reason
      → IsMissing reason
  reason-IsMissing reason h = elim (Bool-cases (nonempty title && nonempty author)) [
    | inl full ↦ absurd (ground (arith, full, h))
    | inr lacks ↦
        (ground (arith, lacks, h), ground (arith, lacks, h), one_missing title author lacks)
  ]

  discard_reason_of-reasons :
      (reason : Text)
      → discard_reason_of py settings aacid title author ≡ some reason
      → IsMissing reason
        ⊎ ((name : Text) × (subcollection_of py.unicode aacid ≡ some name)
            × (contains name settings.upload_blocked_subcollections ≡ true)
            × (reason ≡ codes "blocked_subcollection:" ++ name))
  unfolding discard_reason_of
  discard_reason_of-reasons reason h = elim (Option-cases (subcollection_of py.unicode aacid)) [
    | inl e ↦ inl (reason-IsMissing reason (ground (arith, e, h)))
    | inr (name, e) ↦
        elim (Bool-cases (nonempty name && contains name settings.upload_blocked_subcollections)) [
          | inl t ↦ inr (name, e, ground (arith, t), ground (arith, e, t, h))
          | inr f ↦ inl (reason-IsMissing reason (ground (arith, e, f, h)))
        ]
  ]

  -- A record that the filters let through, or that they discard.
  kept-IsFiltered :
      (r : NormalizedRecord)
      → discard_reason_of py settings aacid title author ≡ none
      → (r.aacid ≡ aacid) × (r.discarded ≡ false) × (r.discard_reason ≡ none)
      → (nonempty title ≡ true → r.title ≡ title)
      → IsFiltered py.unicode settings title author r
  kept-IsFiltered r h facts named = record {
    flag = ground (arith, facts);
    blocked = λ name e b.
        let seen : subcollection_of py.unicode aacid ≡ some name = rw (← facts.0) e in
        ground (arith, h, facts, discard_reason_of-blocked name seen b);
    reasons = λ reason e. absurd (ground (arith, e, facts));
    required = λ q d. discard_reason_of-titled q h;
    titled = λ d full. named full;
  }

  discarded-IsFiltered :
      (r : NormalizedRecord) (reason : Text)
      → discard_reason_of py settings aacid title author ≡ some reason
      → (r.aacid ≡ aacid) × (r.discarded ≡ true) × (r.discard_reason ≡ some reason)
      → IsFiltered py.unicode settings title author r
  discarded-IsFiltered r reason h facts = record {
    flag = ground (arith, facts);
    blocked = λ name e b.
        let seen : subcollection_of py.unicode aacid ≡ some name = rw (← facts.0) e in
        ground (arith, h, facts, discard_reason_of-blocked name seen b);
    reasons = λ other e.
        let same : discard_reason_of py settings aacid title author ≡ some other =
          ground (arith, e, h, facts) in
        rw (facts.0) (discard_reason_of-reasons other same);
    required = λ q d. absurd (ground (arith, d, facts));
    titled = λ d full. absurd (ground (arith, d, facts));
  }

module _ (py : Python) (settings : SourceSettings) where
  -- A record is filtered by the title and the author of its line.
  abbrev pub FilteredBy : Json → NormalizedRecord → Type 0
  FilteredBy raw r =
      (title : Text) × (author : Text) × (bibliographic py raw ≡ ok (title, author))
      × IsFiltered py.unicode settings title author r

  AllFiltered : Json → List NormalizedRecord → Type 0
  AllFiltered raw records = All (FilteredBy raw) records

  -- The branches of `parse` once the AACID, the title and the author are known.
  decided :
      (raw meta exif pikepdf : Json) (md5 : Text) (aacid : Option Text) (title author : Text)
      → get_object (codes "metadata") raw ≡ ok meta
      → get_object (codes "exiftool_output") meta ≡ ok exif
      → get_object (codes "pikepdf_docinfo") meta ≡ ok pikepdf
      → text_of_either py (codes "Title") exif (codes "/Title") pikepdf ≡ ok title
      → text_of_either py (codes "Author") exif (codes "/Author") pikepdf ≡ ok author
      → aacid_column raw ≡ ok aacid
      → Returns (AllFiltered raw) (
          on_option
            (discard_reason_of py settings aacid title author)
            (upload_record py raw meta exif pikepdf md5 title author >>= λ r. ok (r ∷ []))
            (λ reason. discarded_record py raw meta md5 title author reason >>= λ r. ok (r ∷ [])))
  unfolding AllFiltered on_option
  decided raw meta exif pikepdf md5 aacid title author m1 m2 m3 m4 m5 carried =
      let read : bibliographic py raw ≡ ok (title, author) = rw (m1, m2, m3, m4, m5) refl in
      elim (Option-cases (discard_reason_of py settings aacid title author)) [
        | inl none_left ↦
            rw (none_left, on_option)
              (Returns-bind (upload_record py raw meta exif pikepdf md5 title author)
                (λ r. ok (r ∷ []))
                (λ r e.
                  let facts =
                    (upload_record-Returns py raw meta exif pikepdf md5 title author).at r e in
                  let same : r.aacid ≡ aacid = cc in
                  Returns-ok (r ∷ []) (
                    (
                      title,
                      author,
                      read,
                      kept-IsFiltered py settings aacid title author r none_left
                          (same, facts.1, facts.2)
                          (λ h.
                            (upload_record-title py raw meta exif pikepdf md5 title author h).at r
                              e),
                    ),
                    tt,
                  )))
        | inr (reason, given) ↦
            rw (given, on_option)
              (Returns-bind (discarded_record py raw meta md5 title author reason)
                (λ r. ok (r ∷ []))
                (λ r e.
                  let facts =
                    (discarded_record-Returns py raw meta md5 title author reason).at r e in
                  let same : r.aacid ≡ aacid = cc in
                  Returns-ok (r ∷ []) (
                    (
                      title,
                      author,
                      read,
                      discarded-IsFiltered py settings aacid title author r reason given
                          (same, facts.1, facts.2),
                    ),
                    tt,
                  )))
      ]

  nothing : (raw : Json) → Returns (AllFiltered raw) (ok [])
  unfolding AllFiltered
  nothing raw = Returns-ok [] tt

  parse_upload-Returns : (raw : Json) → Returns (AllFiltered raw) (parse_upload py settings raw)
  unfolding parse_upload
  parse_upload-Returns raw =
      search (nothing, Returns-aacid, Returns-bind, Returns-on_option, decided) depth 30

  -- An upload is discarded exactly with a reason. The reason is that its AACID names a blocked
  -- subcollection, and always is if it does, or that both are required and the title or the author
  -- that its metadata give is empty. Where both are required, an upload that is kept has both, and
  -- a title that is given is the title of the record that is kept.
  pub parse_upload-IsFiltered :
      (raw : Json) (records : List NormalizedRecord)
      → parse_upload py settings raw ≡ ok records
      → All (FilteredBy raw) records
  unfolding AllFiltered
  parse_upload-IsFiltered raw records h = (parse_upload-Returns raw).at records h
