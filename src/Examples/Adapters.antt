-- ===== src/Examples/Adapters.antt =====
-- Lines of the adapters, and the theorems about their records.
use aa_metadata_worker.Prelude.{
  ◌≡◌, refl, Text, true, List, [], ◌∷◌, codes, pos, All, Distinct, lookup, text_discrete,
  nat_discrete, text_eq,
}
use aa_metadata_worker.Result.{Result, ok, err}
use aa_metadata_worker.Unicode.{ascii}
use aa_metadata_worker.Records.{NormalizedRecord}
use aa_metadata_worker.Normalize.{strip, lstrip, rstrip, from_hex}
use aa_metadata_worker.Normalize
use aa_metadata_worker.FilterAnalysis.{upload_records, subcollection_of, match_group}
use aa_metadata_worker.Discovery.{strip_prefix, skip_digits}
use aa_metadata_worker.Sources.Json.{
  Json, nil, cons, end, member, string, array, object, integer, Python, get, iterate, str, int,
  type_error,
}
use aa_metadata_worker.Sources.Record.{SourceSettings, aacid_column, on_option}
use aa_metadata_worker.Sources.Fields
use aa_metadata_worker.Sources.Goodreads.{Element}
use aa_metadata_worker.Sources.Registry.{get_adapter}
use aa_metadata_worker.Sources.Collections.{get_adapter-collection}
use aa_metadata_worker.Sources.Uploads.{
  text_at, text_of_either, discarded_record, discard_reason_of, parse_upload, author_parts,
}
use aa_metadata_worker.Sources.Uploads.Filters.{FilteredBy, parse_upload-IsFiltered}
use aa_metadata_worker.Sources.FileName
use aa_metadata_worker.Sources.FileName.{split_on}
use aa_metadata_worker.Sources.Base
use aa_metadata_worker.Sources.Ia2
use aa_metadata_worker.Normalize.Isbn
use aa_metadata_worker.Languages.{language_to_iso639_3}
use aa_metadata_worker.Sources.Ia2.{parse_ia2}
use aa_metadata_worker.Sources.Ia2.Files.{md5s, parse_ia2-Distinct}
use aa_metadata_worker.Examples.{value_or}

abbrev python : Python
python = record {
  unicode = ascii;
  repr = λ v. codes "?";
  int_of_float = λ t. err (type_error (codes "float"));
  sha256 = λ t. ok t;
}

abbrev no_xml : Text → Result Element
no_xml t = err (type_error (codes "no XML"))

abbrev settings : SourceSettings
settings = record {
  upload_blocked_subcollections = codes "aaaaarg" ∷ [];
  upload_require_title_author = true;
  ia_require_texts = true;
  gbooks_require_books = true;
  libby_allowed_types = codes "ebook" ∷ [];
}

abbrev md5_text : Text
md5_text = codes "00112233445566778899aabbccddeeff"

abbrev blocked_line : Json
blocked_line = object (
    member (codes "aacid") (string (codes "aacid__upload_records_aaaaarg__20240101T000000Z__1__x"))
      (member (codes "metadata")
        (object (
          member (codes "md5") (string md5_text) (
            member (codes "exiftool_output")
              (object (
                member (codes "Title") (string (codes "Faust"))
                  (member (codes "Author") (string (codes "Goethe; Anon")) end)))
              end)))
        end))

abbrev blocked : List NormalizedRecord
blocked = value_or [] (parse_upload python settings blocked_line)

blocked-parses : parse_upload python settings blocked_line ≡ ok blocked
unfolding parse_upload get Fields.normalize_md5 Normalize.normalize_md5 text_of_either text_at str
    aacid_column on_option discard_reason_of discarded_record subcollection_of match_group
    strip_prefix skip_digits strip lstrip rstrip from_hex author_parts split_on lookup text_discrete
    nat_discrete
blocked-parses = refl

parse_upload-IsFiltered_example : All (FilteredBy python settings blocked_line) blocked
parse_upload-IsFiltered_example =
    parse_upload-IsFiltered python settings blocked_line blocked blocked-parses

upload_adapter :
    get_adapter python no_xml settings upload_records ≡ ok (parse_upload python settings)
unfolding get_adapter lookup text_discrete
upload_adapter = refl

get_adapter-collection_example : All (λ r. r.source_collection ≡ upload_records) blocked
get_adapter-collection_example =
    get_adapter-collection python no_xml settings upload_records (parse_upload python settings)
      blocked_line blocked upload_adapter blocked-parses

abbrev file_of : Text → Json
file_of name = object (
    member (codes "name") (string name)
      (member (codes "md5") (string md5_text) (member (codes "size") (integer (pos 10)) end)))

abbrev item_line : Json
item_line = object (
    member (codes "metadata")
      (object (
        member (codes "ia_id") (string (codes "faust")) (
          member (codes "metadata_json")
            (object (
              member (codes "metadata")
                (object (
                  member (codes "mediatype") (string (codes "texts"))
                    (member (codes "title") (string (codes "Faust")) end)))
                (member (codes "aa_shorter_files")
                  (array (cons (file_of (codes "a.pdf")) (cons (file_of (codes "b.pdf")) nil)))
                  end)))
            end)))
      end)

abbrev item_records : List NormalizedRecord
item_records = value_or [] (parse_ia2 python settings item_line)

item-parses : parse_ia2 python settings item_line ≡ ok item_records
unfolding parse_ia2 get lookup text_discrete strip lstrip rstrip str nat_discrete Ia2.item_record
    Isbn.normalize_isbn_list Isbn.isbn_loop Fields.normalize_series_position
    Fields.normalize_language iterate Fields.normalize_year Ia2.file_records Ia2.collect_authors
    Fields.normalize_md5 on_option Normalize.normalize_md5 from_hex Ia2.file_record
    Fields.normalize_extension Normalize.normalize_extension Fields.size_or_none int
    Base.record_timestamp Base.aacid_timestamp aacid_column FileName.suffix FileName.last_dot
    split_on language_to_iso639_3
item-parses = refl

parse_ia2-Distinct_example : Distinct (md5s item_records)
parse_ia2-Distinct_example = parse_ia2-Distinct python settings item_line item_records item-parses
