-- ===== src/Search.antt =====
-- app/search.py: the parameters of a search, and its pages. Whether a row matches the filters, and its
-- rank, are PostgreSQL's part: the matching rows are given. A rank is a number of the same order. The
-- text form of a cursor (base64 of JSON) is left out: a cursor is the rank and MD5 that it holds.
pub mod Pages
use aa_metadata_worker.Prelude.{
  ℕ, zero, suc, ◌+◌, Text, Bool, true, false, Option, none, some, List, [], ◌∷◌, ◌++◌, codes, ◌==◌,
  nat_eq, text_eq, ◌&&◌, ◌||◌, not, nonempty, if◌then◌else◌, ltb, leb, length, take, filter,
  text_lt,
}
use aa_metadata_worker.Result.{Exception, error, Result, ok, err, ◌>>=◌}
use aa_metadata_worker.Unicode.{Unicode}
use aa_metadata_worker.Normalize.{normalize_text, findall, strip, all_ext}
use aa_metadata_worker.Normalize.Isbn.{normalize_isbn13, normalize_isbn10}
use aa_metadata_worker.Normalize.Doi.{normalize_doi}
use aa_metadata_worker.Languages.{language_to_iso639_3}
use aa_metadata_worker.Importer.Params.{add_tokens}

-- The arguments of a search; a text that is not given is `none`.
pub record Request : Type 0 where
  pub q : Option Text
  pub title : Option Text
  pub author : Option Text
  pub isbn : Option Text
  pub doi_param : Option Text
  pub language : Option Text
  pub series : Option Text
  pub series_position : Option ℕ
  pub extension : Option Text
  pub year_from : Option ℕ
  pub year_to : Option ℕ

-- The parameters of the statement; a filter that is left out is `none` or empty.
pub record Params : Type 0 where
  pub q_norm : Text
  pub has_query : Bool
  pub title_query : List Text
  pub author_tokens : List Text
  pub isbn13 : Option Text
  pub isbn10 : Option Text
  pub doi : Option Text
  pub language : Option Text
  pub series_query : List Text
  pub series_position : Option ℕ
  pub extension : Option Text
  pub year_from : Option ℕ
  pub year_to : Option ℕ

abbrev pub text_of : Option Text → Text
text_of none = []
text_of (some t) = t

abbrev pub value_error : Text → Exception
value_error message = error (codes "ValueError") message

module _ (u : Unicode) where
  abbrev pub tokens_of : Option Text → List Text
  tokens_of t = findall u.is_word [] (normalize_text u (text_of t))

  -- `isbn.replace("-", "").replace(" ", "")`
  abbrev pub bare : Text → Text
  bare = filter (λ c. not (c == 45 || c == 32))

  abbrev pub neither : Option Text → Option Text → Bool
  neither none none = true
  neither _ _ = false

  unfoldable pub isbn_params : Option Text → Result (Option Text × Option Text)
  isbn_params none = ok (none, none)
  isbn_params (some []) = ok (none, none)
  isbn_params (some (c ∷ s)) = do
    as13 ← normalize_isbn13 u (c ∷ s)
    as10 ← normalize_isbn10 u (bare (c ∷ s))
    if neither as13 as10 then err (value_error (codes "Invalid ISBN")) else ok (as13, as10)

  -- A filter whose normal form has to exist, once it is given.
  abbrev pub required : Text → Option Text → Result (Option Text)
  required message none = err (value_error message)
  required message (some v) = ok (some v)

  unfoldable pub doi_params : Option Text → Result (Option Text)
  doi_params none = ok none
  doi_params (some []) = ok none
  doi_params (some (c ∷ s)) = required (codes "Invalid DOI") (normalize_doi u (c ∷ s))

  unfoldable pub language_params : Option Text → Result (Option Text)
  language_params none = ok none
  language_params (some []) = ok none
  language_params (some (c ∷ s)) =
      required (codes "Invalid language") (language_to_iso639_3 u (c ∷ s))

  -- `re.fullmatch(r"[a-z0-9]{1,10}", extension.lower())`
  unfoldable pub extension_params : Option Text → Result (Option Text)
  extension_params none = ok none
  extension_params (some []) = ok none
  extension_params (some (c ∷ s)) =
      let ext = u.lower (c ∷ s) in
      if nonempty ext && leb (length ext) 10 && all_ext ext
      then ok (some ext)
      else err (value_error (codes "Invalid extension"))

  unfoldable pub build_search_sql : Request → Result Params
  unfolding strip
  build_search_sql r = do
    (isbn13, isbn10) ← isbn_params r.isbn
    doi ← doi_params r.doi_param
    language ← language_params r.language
    extension ← extension_params r.extension
    ok (record {
      q_norm = normalize_text u (text_of r.q);
      has_query = nonempty (strip u.is_space (text_of r.q));
      title_query = tokens_of r.title;
      author_tokens = add_tokens [] (tokens_of r.author);
      isbn13 = isbn13;
      isbn10 = isbn10;
      doi = doi;
      language = language;
      series_query = tokens_of r.series;
      series_position = r.series_position;
      extension = extension;
      year_from = r.year_from;
      year_to = r.year_to;
    })

-- A row that matches, as far as the pages look at it.
pub record Hit : Type 0 where
  pub rank : ℕ
  pub md5 : Text

-- `ORDER BY rank DESC, md5 ASC`, and the keyset predicate of a cursor
abbrev pub precedes : Hit → Hit → Bool
precedes a b = ltb b.rank a.rank || (b.rank == a.rank && text_lt a.md5 b.md5)

abbrev pub after_cursor : Option Hit → Hit → Bool
after_cursor none h = true
after_cursor (some c) h = precedes c h

-- The statement: the rows after the cursor, in order, and one more than the page holds.
unfoldable pub select_rows : List Hit → ℕ → Option Hit → List Hit
select_rows rows limit cursor = take (limit + 1) (filter (after_cursor cursor) rows)

abbrev pub last_hit : List Hit → Option Hit
last_hit [] = none
last_hit (h ∷ hs) = elim (last_hit hs) [ none ↦ some h | some l ↦ some l ]

-- The cursor of a row. Its rank is what the rank of the row becomes on its way: a `real` of the database,
-- the double that its decimal text gives, and the `double precision` that the next statement compares
-- with the `real`.
abbrev pub cursor_of : (ℕ → ℕ) → Option Hit → Option Hit
cursor_of through none = none
cursor_of through (some h) = some (record h { rank = through h.rank })

-- A page, and the cursor of the next one if there is more.
unfoldable pub fetch_search_page : (ℕ → ℕ) → List Hit → ℕ → Option Hit → List Hit × Option Hit
unfolding select_rows
fetch_search_page through rows limit cursor =
    let found = select_rows rows limit cursor in
    let page = take limit found in
    (page, if ltb limit (length found) then cursor_of through (last_hit page) else none)
