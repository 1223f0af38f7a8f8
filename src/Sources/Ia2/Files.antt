-- ===== src/Sources/Ia2/Files.antt =====
-- sync/sources/ia2.py: the records of an item have different MD5s.
use aa_metadata_worker.Prelude.{
  ◌≡◌, refl, Text, false, List, [], ◌∷◌, ◌++◌, All, Distinct, contains, contains-append, map,
  text_eq, arith,
}
use aa_metadata_worker.Result.{Result, ok, ◌>>=◌}
use aa_metadata_worker.Records.{NormalizedRecord}
use aa_metadata_worker.Sources.Json.{Json, Python}
use aa_metadata_worker.Sources.Record.{SourceSettings}
use aa_metadata_worker.Sources.Returns.{
  Returns, Returns-ok, Returns-bind, Returns-on_option, Returns-if,
}
use aa_metadata_worker.Sources.Ia2.{
  file_record, file_records, discarded_item, item_record, parse_ia2,
}

abbrev pub md5s : List NormalizedRecord → List Text
md5s records = map (λ r. r.md5) records

-- The MD5s differ from those seen and from one another.
abbrev IsFresh : List Text → List NormalizedRecord → Type 0
IsFresh seen records = All (λ r. contains r.md5 seen ≡ false) records × Distinct (md5s records)

unseen_before :
    (seen : List Text) (m : Text) (records : List NormalizedRecord)
    → All (λ r. contains r.md5 (seen ++ (m ∷ [])) ≡ false) records
    → All (λ r. contains r.md5 seen ≡ false) records × (contains m (md5s records) ≡ false)
unseen_before seen m [] h = (tt, refl)
unseen_before seen m (r ∷ records) h =
    let rest = unseen_before seen m records h.1 in
    (
      (ground (arith, h.0, contains-append r.md5 seen (m ∷ [])), rest.0),
      ground (arith, h.0, rest.1, contains-append r.md5 seen (m ∷ [])),
    )

module _ (py : Python) where
  file_record-md5 :
      (raw : Json) (item : NormalizedRecord) (file_info : Json) (md5 : Text)
      → Returns (λ r. r.md5 ≡ md5) (file_record py raw item file_info md5)
  unfolding file_record
  file_record-md5 raw item file_info md5 = search (Returns-ok, Returns-bind) depth 30

  one-IsFresh :
      (raw : Json) (item : NormalizedRecord) (file_info : Json) (seen : List Text) (m : Text)
      (files : List Json)
      → contains m seen ≡ false
      → Returns (IsFresh (seen ++ (m ∷ []))) (file_records py raw item (seen ++ (m ∷ [])) files)
      → Returns (IsFresh seen) (
          file_record py raw item file_info m >>= λ r.
          file_records py raw item (seen ++ (m ∷ [])) files >>= λ rest. ok (r ∷ rest))
  one-IsFresh raw item file_info seen m files h later =
      Returns-bind (file_record py raw item file_info m)
        (λ r. file_records py raw item (seen ++ (m ∷ [])) files >>= λ rest. ok (r ∷ rest))
        (λ r e.
          Returns-bind (file_records py raw item (seen ++ (m ∷ [])) files) (λ rest. ok (r ∷ rest))
            (λ rest e'.
              let same : r.md5 ≡ m = (file_record-md5 raw item file_info m).at r e in
              let fresh : IsFresh (seen ++ (m ∷ [])) rest = later.at rest e' in
              let old = unseen_before seen m rest fresh.0 in
              Returns-ok (r ∷ rest) ((rw same h, old.0), (rw same old.1, fresh.1))))

  file_records-IsFresh :
      (raw : Json) (item : NormalizedRecord) (seen : List Text) (files : List Json)
      → Returns (IsFresh seen) (file_records py raw item seen files)
  unfolding file_records
  file_records-IsFresh raw item seen [] = Returns-ok [] (tt, tt)
  file_records-IsFresh raw item seen (file_info ∷ files) =
      let skip = file_records-IsFresh raw item seen files in
      let one : (m : Text)
          → contains m seen ≡ false
          → Returns (IsFresh seen) (
              file_record py raw item file_info m >>= λ r.
              file_records py raw item (seen ++ (m ∷ [])) files >>= λ rest. ok (r ∷ rest)) =
        λ m h.
          one-IsFresh raw item file_info seen m files h
            (file_records-IsFresh raw item (seen ++ (m ∷ [])) files) in
      search (skip, one, Returns-bind, Returns-on_option, Returns-if) depth 12

  discarded_item-IsFresh :
      (meta : Json) (mediatype : Text) (files : List Json)
      → Returns (λ records. Distinct (md5s records)) (discarded_item py meta mediatype files)
  unfolding discarded_item
  discarded_item-IsFresh meta mediatype files =
      search (Returns-ok, Returns-bind, Returns-on_option) depth 20

  item_files-Distinct :
      (raw meta ia_meta : Json) (files : Result (List Json))
      → Returns
          (λ records. Distinct (md5s records))
          (item_record py meta ia_meta >>= λ item.
            files >>= λ entries. file_records py raw item [] entries)
  item_files-Distinct raw meta ia_meta files =
      Returns-bind (item_record py meta ia_meta)
        (λ item. files >>= λ entries. file_records py raw item [] entries)
        (λ item _.
          Returns-bind files (λ entries. file_records py raw item [] entries)
            (λ entries _. record {
              at = λ records e. ((file_records-IsFresh raw item [] entries).at records e).1;
            }))

  parse_ia2-Returns :
      (settings : SourceSettings) (raw : Json)
      → Returns (λ records. Distinct (md5s records)) (parse_ia2 py settings raw)
  unfolding parse_ia2
  parse_ia2-Returns settings raw =
      search (Returns-bind, Returns-if, discarded_item-IsFresh, item_files-Distinct) depth 20

  -- No two records of one item have the same MD5, whatever its list of files repeats.
  pub parse_ia2-Distinct :
      (settings : SourceSettings) (raw : Json) (records : List NormalizedRecord)
      → parse_ia2 py settings raw ≡ ok records
      → Distinct (md5s records)
  parse_ia2-Distinct settings raw records h = (parse_ia2-Returns settings raw).at records h
