-- ===== src/Examples/Fields.antt =====
-- Identifiers and language codes.
use aa_metadata_worker.Normalize.Authors.{
  split_authors, split_parts, separator, joint, clean_author,
}
use aa_metadata_worker.Normalize.Authors.Split.{split_authors-unmarked}
use aa_metadata_worker.Prelude.{
  nat_eq, false, contains, [], nonempty, ◌≡◌, refl, Text, true, some, ◌∷◌, codes, arith, All,
  lookup, text_eq, text_discrete, nat_discrete,
}
use aa_metadata_worker.Result.{ok}
use aa_metadata_worker.Unicode.{ascii}
use aa_metadata_worker.Normalize.{collapse, strip, lstrip, rstrip}
use aa_metadata_worker.Normalize.Isbn.{
  isbn10_valid, isbn10_to_13, isbn13_valid, isbn10_shape, isbn10_sum, ends_with_x, int_digit,
}
use aa_metadata_worker.Normalize.Isbn.Convert.{HasDigits, isbn10_to_13-valid}
use aa_metadata_worker.Normalize.Doi.{
  normalize_doi, is_suffix, strip_prefix_i, strip_resolver, span_digits, split_tail, split_doi,
}
use aa_metadata_worker.Languages.{table, language_to_iso639_3, region_base}

english-code : language_to_iso639_3 ascii (codes "EN-us") ≡ some (codes "eng")
unfolding language_to_iso639_3 region_base table lookup strip lstrip rstrip text_discrete
    nat_discrete
english-code = refl

doi-value : normalize_doi ascii (codes "doi:10.1000/AB.") ≡ some (codes "10.1000/AB")
unfolding normalize_doi strip_resolver strip_prefix_i split_doi split_tail span_digits is_suffix
    strip lstrip rstrip text_discrete nat_discrete
doi-value = refl

ascii-HasDigits : HasDigits ascii
ascii-HasDigits d h = (ground arith, ground arith)

abbrev isbn : Text
isbn = codes "080442957X"

isbn-valid : isbn10_valid ascii isbn ≡ ok true
unfolding isbn10_valid isbn10_shape ends_with_x isbn10_sum int_digit nat_discrete
isbn-valid = refl

isbn10_to_13-valid_example :
    (isbn13 : Text) × (isbn10_to_13 ascii isbn ≡ ok (some isbn13))
    × (isbn13_valid ascii isbn13 ≡ ok true)
isbn10_to_13-valid_example =
    isbn10_to_13-valid ascii isbn ascii-HasDigits
      (
        (refl, refl),
        (
          (refl, refl),
          (
            (refl, refl),
            (
              (refl, refl),
              ((refl, refl), ((refl, refl), ((refl, refl), ((refl, refl), ((refl, refl), tt))))),
            ),
          ),
        ),
      )
      isbn-valid

abbrev credit : Text
credit = codes "Kant, I. ; Hegel and  Marx &Engels"

credit-split :
    split_authors ascii credit
    ≡ codes "Kant, I." ∷ codes "Hegel" ∷ codes "Marx" ∷ codes "Engels" ∷ []
unfolding split_authors split_parts separator joint clean_author strip lstrip rstrip collapse
    nat_discrete text_discrete
credit-split = refl

split_authors-unmarked_example :
    All (λ a. (nonempty a ≡ true) × (contains 59 a ≡ false)) (split_authors ascii credit)
unfolding nat_discrete
split_authors-unmarked_example = split_authors-unmarked ascii 59 refl refl credit
