-- ===== src/Sources/Registry.antt =====
-- sync/sources/__init__.py: the adapters by their collections.
use aa_metadata_worker.Prelude.{
  Text, none, some, List, [], ◌∷◌, ◌++◌, codes, Dict, lookup, keys, sorted, text_eq,
}
use aa_metadata_worker.Result.{Exception, error, Result, ok, err}
use aa_metadata_worker.Records.{NormalizedRecord}
use aa_metadata_worker.FilterAnalysis.{upload_records}
use aa_metadata_worker.Sources.Json.{Json, Python}
use aa_metadata_worker.Sources.Record.{SourceSettings}
use aa_metadata_worker.Sources.Zlib3.{zlib3_records, parse_zlib3}
use aa_metadata_worker.Sources.Ia2.{ia2_records, parse_ia2}
use aa_metadata_worker.Sources.Uploads.{parse_upload}
use aa_metadata_worker.Sources.Goodreads.{Element, goodreads_records, parse_goodreads}
use aa_metadata_worker.Sources.Gbooks.{gbooks_records, parse_gbooks}
use aa_metadata_worker.Sources.Libby.{libby_records, parse_libby}

-- `SourceAdapter.parse`
abbrev pub Adapter : Type 0
Adapter = Json → Result (List NormalizedRecord)

abbrev pub no_adapter_for : Text → Exception
no_adapter_for collection =
    error (codes "KeyError")
      (codes "No source adapter registered for collection '" ++ collection ++ codes "'")

module _ (py : Python) (fromstring : Text → Result Element) (settings : SourceSettings) where
  abbrev pub adapters : Dict Text Adapter
  adapters =
      (zlib3_records, parse_zlib3 py)
      ∷ (ia2_records, parse_ia2 py settings)
      ∷ (upload_records, parse_upload py settings)
      ∷ (goodreads_records, parse_goodreads py fromstring)
      ∷ (gbooks_records, parse_gbooks py settings)
      ∷ (libby_records, parse_libby py settings)
      ∷ []

  unfoldable pub get_adapter : Text → Result Adapter
  unfolding lookup
  get_adapter collection = elim (lookup collection adapters) [
    | none ↦ err (no_adapter_for collection)
    | some adapter ↦ ok adapter
  ]

  unfoldable pub known_collections : List Text
  known_collections = sorted (keys adapters)
