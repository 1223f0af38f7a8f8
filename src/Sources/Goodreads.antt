-- ===== src/Sources/Goodreads.antt =====
-- sync/sources/goodreads.py. `xml.etree.ElementTree.fromstring` is a parameter.
use aa_metadata_worker.Prelude.{
  ℕ, Text, Option, none, some, List, [], ◌∷◌, ◌++◌, codes, ◌==◌, text_eq, nonempty, map, filter,
  if◌then◌else◌,
}
use aa_metadata_worker.Result.{Exception, error, Result, ok, err, ◌>>=◌}
use aa_metadata_worker.Normalize.{strip}
use aa_metadata_worker.Normalize
use aa_metadata_worker.Normalize.Authors
use aa_metadata_worker.Normalize.Isbn
use aa_metadata_worker.Records.{NormalizedRecord, blank, truthy_int}
use aa_metadata_worker.Sources.Json.{Json, string, Python, get, get_object, str, str_or_empty}
use aa_metadata_worker.Sources.Fields.{normalize_language}
use aa_metadata_worker.Sources.Base.{record_timestamp, synthetic_md5}
use aa_metadata_worker.Sources.Gbooks.{str_if_given, join}
use aa_metadata_worker.Sources.Record.{on_option, aacid_column, text_or_none, list_of}

abbrev pub goodreads_records : Text
goodreads_records = codes "goodreads_records"

-- An element of a document: its tag, the text before its first child, and its children.
mutual
  pub data Element : Type 0 where
    element : Text → Option Text → Elements → Element

  pub data Elements : Type 0 where
    leaf : Elements
    child : Element → Elements → Elements

abbrev pub children : Elements → List Element
children leaf = []
children (child e es) = e ∷ children es

abbrev pub tag_of : Element → Text
tag_of (element tag text es) = tag

abbrev pub text_of_element : Element → Option Text
text_of_element (element tag text es) = text

-- `e.findall(tag)` and `e.find(tag)`
abbrev pub findall_tag : Text → Element → List Element
findall_tag tag (element _ _ es) = filter (λ e. tag_of e == tag) (children es)

abbrev pub first_of : List Element → Option Element
first_of [] = none
first_of (e ∷ _) = some e

abbrev pub find_tag : Text → Element → Option Element
find_tag tag e = first_of (findall_tag tag e)

-- `e.iter(tag)`: the element and those below it, in the order of the document.
unfoldable mutual
  pub iter_tag : Text → Element → List Element
  iter_tag tag (element name text es) =
      if name == tag then element name text es ∷ iter_children tag es else iter_children tag es

  pub iter_children : Text → Elements → List Element
  iter_children tag leaf = []
  iter_children tag (child e es) = iter_tag tag e ++ iter_children tag es

-- `e.find("outer/inner")`: the first among the inner children of every outer child.
unfoldable pub first_inner : Text → List Element → Option Element
first_inner inner [] = none
first_inner inner (e ∷ es) = elim (find_tag inner e) [
  | none ↦ first_inner inner es
  | some found ↦ some found
]

abbrev pub text_attribute : Exception
text_attribute = error (codes "AttributeError") (codes "'str' object has no attribute 'text'")

abbrev pub no_book : Exception
no_book = error (codes "AttributeError") (codes "'NoneType' object has no attribute 'find'")

module _ (py : Python) (fromstring : Text → Result Element) where
  -- `_text(node)`
  abbrev pub node_text : Option Element → Text
  node_text none = []
  node_text (some e) = elim (text_of_element e) [ none ↦ [] | some t ↦ strip py.unicode.is_space t ]

  -- `_text(book.findtext("work/original_publication_year"))`: what `findtext` returns is no element.
  unfoldable pub original_year_text : Element → Result Text
  unfolding first_inner
  original_year_text book =
      elim (first_inner (codes "original_publication_year") (findall_tag (codes "work") book)) [
        | none ↦ ok []
        | some _ ↦ err text_attribute
      ]

  unfoldable pub year_of : Element → Result (Option ℕ)
  unfolding original_year_text
  year_of book =
      let year =
        Normalize.normalize_year py.unicode
          (some (node_text (find_tag (codes "publication_year") book))) in
      if truthy_int year then ok year else do
        original ← original_year_text book
        ok (Normalize.normalize_year py.unicode (some original))

  abbrev pub text_in : Text → Element → Text
  text_in tag e = node_text (find_tag tag e)

  unfoldable pub book_authors : Element → List Text
  unfolding iter_tag
  book_authors book = Authors.split_authors py.unicode (
      join (codes "; ")
        (filter nonempty (map (text_in (codes "name")) (iter_tag (codes "author") book))))

  unfoldable pub book_record : Json → Element → Text → Text → Result NormalizedRecord
  book_record raw book record_id md5 = do
    let own_title = text_in (codes "title") book
    let isbns = text_in (codes "isbn13") book ∷ text_in (codes "isbn") book ∷ []
    isbn ← Isbn.normalize_isbn_list py.unicode (filter nonempty isbns)
    year ← year_of book
    source_timestamp ← record_timestamp py raw
    aacid_text ← aacid_column raw
    ok (record (blank md5) {
      title = if nonempty own_title then own_title else text_in (codes "title_without_series") book;
      authors = book_authors book;
      publisher = text_or_none (text_in (codes "publisher") book);
      publication_year = year;
      languages = list_of (normalize_language py (string (text_in (codes "language_code") book)));
      isbn13 = isbn.0;
      isbn10 = isbn.1;
      source_collection = goodreads_records;
      source_record_id = some record_id;
      aacid = aacid_text;
      source_timestamp = source_timestamp;
    })

  unfoldable pub parse_goodreads : Json → Result (List NormalizedRecord)
  parse_goodreads raw = do
    meta ← get_object (codes "metadata") raw
    id ← get (codes "id") meta
    md5 ← synthetic_md5 py goodreads_records (str_if_given py id)
    on_option md5 (ok []) (λ m. do
      response ← get (codes "record") meta
      root ← fromstring (str_or_empty py response)
      on_option (find_tag (codes "book") root) (err no_book)
          (λ book. do r ← book_record raw book (str py id) m; ok (r ∷ [])))
