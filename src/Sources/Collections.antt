-- ===== src/Sources/Collections.antt =====
-- Which collection the records of an adapter carry.
use aa_metadata_worker.Prelude.{
  ◌≡◌, Text, some, List, [], ◌∷◌, ◌++◌, All, Dict, lookup, text_discrete, text_eq, Option-cases,
  inl, inr, arith,
}
use aa_metadata_worker.Result.{Result, ok, ◌>>=◌}
use aa_metadata_worker.Records.{NormalizedRecord}
use aa_metadata_worker.Sources.Json.{Json, Python}
use aa_metadata_worker.Sources.Returns.{
  Returns, Returns-err, Returns-ok, Returns-bind, Returns-on_option, Returns-if,
}
use aa_metadata_worker.FilterAnalysis.{upload_records}
use aa_metadata_worker.Sources.Record.{SourceSettings}
use aa_metadata_worker.Sources.Zlib3.{zlib3_records, zlib3_record, parse_zlib3}
use aa_metadata_worker.Sources.Ia2.{
  ia2_records, item_record, file_record, file_records, discarded_item, parse_ia2,
}
use aa_metadata_worker.Sources.Uploads.{discarded_record, upload_record, parse_upload}
use aa_metadata_worker.Sources.Goodreads.{Element, goodreads_records, book_record, parse_goodreads}
use aa_metadata_worker.Sources.Gbooks.{gbooks_records, volume_record, parse_gbooks}
use aa_metadata_worker.Sources.Libby.{libby_records, title_record, parse_libby}
use aa_metadata_worker.Sources.Registry.{Adapter, adapters, get_adapter}

abbrev Carries : Text → NormalizedRecord → Type 0
Carries c r = r.source_collection ≡ c

-- Each record of a list carries the collection.
abbrev AllCarry : Text → List NormalizedRecord → Type 0
AllCarry c records = All (Carries c) records

one :
    (c : Text) (m : Result NormalizedRecord)
    → Returns (Carries c) m
    → Returns (AllCarry c) (m >>= λ r. ok (r ∷ []))
one c m h = Returns-bind m (λ r. ok (r ∷ [])) (λ r e. Returns-ok (r ∷ []) (h.at r e, tt))

one_more :
    (c : Text) (m : Result NormalizedRecord) (n : Result (List NormalizedRecord))
    → Returns (Carries c) m
    → Returns (AllCarry c) n
    → Returns (AllCarry c) (m >>= λ r. n >>= λ rest. ok (r ∷ rest))
one_more c m n h k =
    Returns-bind m (λ r. n >>= λ rest. ok (r ∷ rest))
      (λ r e.
        Returns-bind n (λ rest. ok (r ∷ rest))
          (λ rest e'. Returns-ok (r ∷ rest) (h.at r e, k.at rest e')))

module _ (py : Python) where
  zlib3_record-Carries :
      (raw meta : Json) (md5 : Text)
      → Returns (Carries zlib3_records) (zlib3_record py raw meta md5)
  unfolding zlib3_record
  zlib3_record-Carries raw meta md5 = search (Returns-ok, Returns-bind) depth 60

  parse_zlib3-AllCarry : (raw : Json) → Returns (AllCarry zlib3_records) (parse_zlib3 py raw)
  unfolding parse_zlib3
  parse_zlib3-AllCarry raw =
      search (Returns-ok, Returns-bind, Returns-on_option, one, zlib3_record-Carries) depth 20

  discarded_record-Carries :
      (raw meta : Json) (md5 title author reason : Text)
      → Returns (Carries upload_records) (discarded_record py raw meta md5 title author reason)
  unfolding discarded_record
  discarded_record-Carries raw meta md5 title author reason =
      search (Returns-ok, Returns-bind) depth 60

  upload_record-Carries :
      (raw meta exif pikepdf : Json) (md5 title author : Text)
      → Returns (Carries upload_records) (upload_record py raw meta exif pikepdf md5 title author)
  unfolding upload_record
  upload_record-Carries raw meta exif pikepdf md5 title author =
      search (Returns-ok, Returns-bind) depth 60

  parse_upload-AllCarry :
      (settings : SourceSettings) (raw : Json)
      → Returns (AllCarry upload_records) (parse_upload py settings raw)
  unfolding parse_upload
  parse_upload-AllCarry settings raw =
      search
        (
          Returns-ok, Returns-bind, Returns-on_option, one, upload_record-Carries,
          discarded_record-Carries,
        )
        depth 30

  item_record-Carries :
      (meta ia_meta : Json) → Returns (Carries ia2_records) (item_record py meta ia_meta)
  unfolding item_record
  item_record-Carries meta ia_meta = search (Returns-ok, Returns-bind) depth 60

  file_record-Carries :
      (raw : Json) (item : NormalizedRecord) (file_info : Json) (md5 : Text)
      → Carries ia2_records item
      → Returns (Carries ia2_records) (file_record py raw item file_info md5)
  unfolding file_record
  file_record-Carries raw item file_info md5 h = search (Returns-ok, Returns-bind, h) depth 60

  file_records-AllCarry :
      (raw : Json) (item : NormalizedRecord) (seen : List Text) (files : List Json)
      → Carries ia2_records item
      → Returns (AllCarry ia2_records) (file_records py raw item seen files)
  unfolding file_records
  file_records-AllCarry raw item seen [] h = Returns-ok [] tt
  file_records-AllCarry raw item seen (file_info ∷ files) h =
      let skip = file_records-AllCarry raw item seen files h in
      let next : (m : Text)
          → Returns (AllCarry ia2_records) (file_records py raw item (seen ++ (m ∷ [])) files) =
        λ m. file_records-AllCarry raw item (seen ++ (m ∷ [])) files h in
      let here : (m : Text) → Returns (Carries ia2_records) (file_record py raw item file_info m) =
        λ m. file_record-Carries raw item file_info m h in
      let rest : (m : Text)
          → Returns (AllCarry ia2_records) (
              file_record py raw item file_info m >>= λ r.
              file_records py raw item (seen ++ (m ∷ [])) files >>= λ rest. ok (r ∷ rest)) =
        λ m.
          one_more ia2_records (file_record py raw item file_info m)
            (file_records py raw item (seen ++ (m ∷ [])) files) (here m) (next m) in
      search (skip, rest, Returns-bind, Returns-on_option, Returns-if) depth 12

  discarded_item-AllCarry :
      (meta : Json) (mediatype : Text) (files : List Json)
      → Returns (AllCarry ia2_records) (discarded_item py meta mediatype files)
  unfolding discarded_item
  discarded_item-AllCarry meta mediatype files =
      search (Returns-ok, Returns-bind, Returns-on_option) depth 20

  item_files-AllCarry :
      (raw meta ia_meta : Json) (files : Result (List Json))
      → Returns (AllCarry ia2_records) (
          item_record py meta ia_meta >>= λ item.
          files >>= λ entries. file_records py raw item [] entries)
  item_files-AllCarry raw meta ia_meta files =
      Returns-bind (item_record py meta ia_meta)
        (λ item. files >>= λ entries. file_records py raw item [] entries)
        (λ item e.
          Returns-bind files (λ entries. file_records py raw item [] entries)
            (λ entries _.
              file_records-AllCarry raw item [] entries
                ((item_record-Carries meta ia_meta).at item e)))

  parse_ia2-AllCarry :
      (settings : SourceSettings) (raw : Json)
      → Returns (AllCarry ia2_records) (parse_ia2 py settings raw)
  unfolding parse_ia2
  parse_ia2-AllCarry settings raw =
      search (Returns-bind, Returns-if, discarded_item-AllCarry, item_files-AllCarry) depth 20

  volume_record-Carries :
      (raw meta : Json) (record_id md5 : Text)
      → Returns (Carries gbooks_records) (volume_record py raw meta record_id md5)
  unfolding volume_record
  volume_record-Carries raw meta record_id md5 = search (Returns-ok, Returns-bind) depth 60

  parse_gbooks-AllCarry :
      (settings : SourceSettings) (raw : Json)
      → Returns (AllCarry gbooks_records) (parse_gbooks py settings raw)
  unfolding parse_gbooks
  parse_gbooks-AllCarry settings raw =
      search (Returns-ok, Returns-bind, Returns-on_option, Returns-if, one, volume_record-Carries)
        depth 30

  title_record-Carries :
      (raw meta : Json) (record_id md5 : Text)
      → Returns (Carries libby_records) (title_record py raw meta record_id md5)
  unfolding title_record
  title_record-Carries raw meta record_id md5 = search (Returns-ok, Returns-bind) depth 60

  parse_libby-AllCarry :
      (settings : SourceSettings) (raw : Json)
      → Returns (AllCarry libby_records) (parse_libby py settings raw)
  unfolding parse_libby
  parse_libby-AllCarry settings raw =
      search (Returns-ok, Returns-bind, Returns-on_option, Returns-if, one, title_record-Carries)
        depth 30

module _ (py : Python) (fromstring : Text → Result Element) where
  book_record-Carries :
      (raw : Json) (book : Element) (record_id md5 : Text)
      → Returns (Carries goodreads_records) (book_record py fromstring raw book record_id md5)
  unfolding book_record
  book_record-Carries raw book record_id md5 = search (Returns-ok, Returns-bind) depth 60

  parse_goodreads-AllCarry :
      (raw : Json) → Returns (AllCarry goodreads_records) (parse_goodreads py fromstring raw)
  unfolding parse_goodreads
  parse_goodreads-AllCarry raw =
      search (Returns-ok, Returns-err, Returns-bind, Returns-on_option, one, book_record-Carries)
        depth 30

  -- An adapter in a table returns records of the collection under which it stands.
  AllFit : Dict Text Adapter → Type 0
  AllFit table = All (λ p. (raw : Json) → Returns (AllCarry p.0) (p.1 raw)) table

  lookup-AllFit :
      (table : Dict Text Adapter)
      → AllFit table
      → (collection : Text) (adapter : Adapter) → lookup collection table ≡ some adapter
      → (raw : Json) → Returns (AllCarry collection) (adapter raw)
  unfolding lookup AllFit
  lookup-AllFit [] fits collection adapter h raw = absurd (cc)
  lookup-AllFit ((c, a) ∷ table) fits collection adapter h raw = elim (text_discrete collection c) [
    | yes e ↦
        let found : some a ≡ some adapter = ground (arith, e, h) in
        let same : a ≡ adapter = cc in rw (e, ← same) (fits.0 raw)
    | no n ↦
        let later : lookup collection table ≡ some adapter = ground (arith, n, h) in
        lookup-AllFit table fits.1 collection adapter later raw
  ]

  adapters-AllFit : (settings : SourceSettings) → AllFit (adapters py fromstring settings)
  unfolding AllFit
  adapters-AllFit settings = (
    parse_zlib3-AllCarry py,
    (
      parse_ia2-AllCarry py settings,
      (
        parse_upload-AllCarry py settings,
        (
          parse_goodreads-AllCarry,
          (parse_gbooks-AllCarry py settings, (parse_libby-AllCarry py settings, tt)),
        ),
      ),
    ),
  )

  found :
      (collection : Text) (adapter : Adapter) (settings : SourceSettings)
      → get_adapter py fromstring settings collection ≡ ok adapter
      → lookup collection (adapters py fromstring settings) ≡ some adapter
  unfolding get_adapter
  found collection adapter settings h =
      elim (Option-cases (lookup collection (adapters py fromstring settings))) [
        | inl e ↦ ground (arith, e, h)
        | inr (a, e) ↦ ground (arith, e, h)
      ]

  -- The adapter that is found for a collection returns only records that carry this collection.
  pub get_adapter-collection :
      (settings : SourceSettings) (collection : Text) (adapter : Adapter) (raw : Json)
      (records : List NormalizedRecord)
      → get_adapter py fromstring settings collection ≡ ok adapter
      → adapter raw ≡ ok records
      → All (λ r. r.source_collection ≡ collection) records
  unfolding get_adapter
  get_adapter-collection settings collection adapter raw records h e =
      (lookup-AllFit (adapters py fromstring settings) (adapters-AllFit settings) collection adapter
          (found collection adapter settings h) raw).at
        records e
