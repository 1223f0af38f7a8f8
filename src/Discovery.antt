-- ===== src/Discovery.antt =====
-- sync/discovery.py: which release of a collection the manifest offers. The manifest is a parameter,
-- already decoded: of an entry, a value that is absent, null, false, zero or empty is `none`,
-- `false`, 0 or the empty text. The message of an ambiguous suffix stands without its numbers.
pub mod Newest
use aa_metadata_worker.Prelude.{
  ℕ, zero, suc, Text, Bool, true, false, Option, none, some, List, [], ◌∷◌, ◌++◌, ◌&&◌, ◌||◌, not,
  codes, Eq, ◌==◌, nat_eq, text_eq, nat_discrete, contains, Dict, lookup, insert, if◌then◌else◌,
  is_some, nonempty, leb, text_lt,
}
use aa_metadata_worker.Result.{Exception, error, Result, ok, err}
use aa_metadata_worker.Unicode.{Unicode}

pub record ReleaseInfo : Type 0 where
  pub collection : Text
  pub identifier : Text
  pub btih : Text
  pub torrent_url : Text
  pub magnet_link : Text
  pub data_size_bytes : ℕ

pub release_info_discrete : Discrete ReleaseInfo
release_info_discrete = hlevel nat_discrete

instance abbrev pub release_info_eq : Eq ReleaseInfo
release_info_eq = record { dec = release_info_discrete }

-- An entry of torrents.json.
pub record Entry : Type 0 where
  pub display_name : Text
  pub is_metadata : Bool
  pub obsolete : Bool
  pub btih : Text
  pub url : Text
  pub magnet_link : Text
  pub data_size : ℕ

-- What stands after a prefix.
unfoldable pub strip_prefix : Text → Text → Option Text
strip_prefix [] s = some s
strip_prefix (p ∷ prefix) [] = none
strip_prefix (p ∷ prefix) (c ∷ s) =
    let rest = strip_prefix prefix s in if p == c then rest else none

-- `s.endswith(suffix)`
unfoldable pub endswith : Text → Text → Bool
endswith suffix [] = suffix == []
endswith suffix (c ∷ s) = suffix == c ∷ s || endswith suffix s

-- `s.removesuffix(suffix)`, for a suffix that is not empty
unfoldable pub removesuffix : Text → Text → Text
removesuffix suffix [] = []
removesuffix suffix (c ∷ s) =
    let rest = removesuffix suffix s in if suffix == c ∷ s then [] else c ∷ rest

module _ (u : Unicode) where
  -- `\d{n}`
  unfoldable pub skip_digits : ℕ → Text → Option Text
  skip_digits zero s = some s
  skip_digits (suc n) [] = none
  skip_digits (suc n) (c ∷ s) =
      let rest = skip_digits n s in if is_some (u.decimal c) then rest else none

  abbrev pub then_text : Text → Option Text → Option Text
  then_text t none = none
  then_text t (some s) = strip_prefix t s

  abbrev pub then_digits : ℕ → Option Text → Option Text
  then_digits n none = none
  then_digits n (some s) = skip_digits n s

  -- `\d{8}T\d{6}Z`
  abbrev pub then_timestamp : Option Text → Option Text
  then_timestamp s = then_text (codes "Z") (then_digits 6 (then_text (codes "T") (then_digits 8 s)))

  -- `__<from>--<to>\.jsonl\.seekable\.zst$`; `$` also stands before a last newline.
  unfoldable pub is_range_tail : Text → Bool
  unfolding strip_prefix skip_digits
  is_range_tail s =
      elim (then_text (codes ".jsonl.seekable.zst")
        (then_timestamp (then_text (codes "--") (then_timestamp (strip_prefix (codes "__") s))))) [
          | none ↦ false
          | some rest ↦ rest == [] || rest == 10 ∷ []
        ]

  -- `[a-z0-9_]`
  abbrev pub is_collection_char : ℕ → Bool
  is_collection_char c = (leb 97 c && leb c 122) || (leb 48 c && leb c 57) || c == 95

  -- `(?P<collection>[a-z0-9_]+?)` before the tail: the shortest that fits.
  unfoldable pub match_collection : Text → Text → Option Text
  match_collection taken [] = none
  match_collection taken (c ∷ s) =
      let longer = match_collection (taken ++ (c ∷ [])) s in
      if nonempty taken && is_range_tail (c ∷ s)
      then some taken
      else if is_collection_char c
      then longer
      else none

  -- `_RELEASE_RE.match`
  unfoldable pub match_release : Text → Option Text
  unfolding match_collection strip_prefix
  match_release stem = elim (strip_prefix (codes "annas_archive_meta__aacid__") stem) [
    | none ↦ none
    | some rest ↦ match_collection [] rest
  ]

  unfoldable pub parse_entry : Bool → Entry → Option ReleaseInfo
  unfolding removesuffix
  parse_entry allow_obsolete e =
      if not e.is_metadata || (e.obsolete && not allow_obsolete)
      then none
      else (let stem = removesuffix (codes ".torrent") e.display_name in
          elim (match_release stem) [
            | none ↦ none
            | some collection ↦ some (record {
              collection = collection;
              identifier = stem;
              btih = e.btih;
              torrent_url = e.url;
              magnet_link = e.magnet_link;
              data_size_bytes = e.data_size;
            })
          ])

  unfoldable pub parse_release : Entry → Option ReleaseInfo
  parse_release = parse_entry false

  -- `current is None or release.identifier > current.identifier`
  abbrev pub is_better : ReleaseInfo → Option ReleaseInfo → Bool
  is_better release none = true
  is_better release (some current) = text_lt current.identifier release.identifier

  -- The body of the loop of `latest_releases`.
  abbrev pub consider :
      List Text → Option ReleaseInfo → Dict Text ReleaseInfo → Dict Text ReleaseInfo
  consider wanted none best = best
  consider wanted (some release) best =
      if not (contains release.collection wanted)
      then best
      else if is_better release (lookup release.collection best)
      then insert release.collection release best
      else best

  unfoldable pub latest_loop :
      List Text → List Entry → Dict Text ReleaseInfo → Dict Text ReleaseInfo
  latest_loop wanted [] best = best
  latest_loop wanted (e ∷ manifest) best =
      latest_loop wanted manifest (consider wanted (parse_release e) best)

  unfoldable pub latest_releases : List Entry → List Text → Dict Text ReleaseInfo
  latest_releases manifest collections = latest_loop collections manifest []

  abbrev pub is_candidate : Text → Text → ReleaseInfo → Bool
  is_candidate collection suffix release =
      release.collection == collection && endswith suffix release.identifier

  unfoldable pub candidates : Text → Text → List Entry → List ReleaseInfo
  candidates collection suffix [] = []
  candidates collection suffix (e ∷ manifest) =
      let rest = candidates collection suffix manifest in
      elim (parse_entry true e) [
        | none ↦ rest
        | some release ↦ if is_candidate collection suffix release then release ∷ rest else rest
      ]

  abbrev pub no_release : Exception
  no_release = error (codes "ValueError") (codes "No release found for the suffix.")

  abbrev pub ambiguous : Exception
  ambiguous = error (codes "ValueError") (codes "Ambiguous identifier suffix.")

  unfoldable pub find_release : List Entry → Text → Text → Result ReleaseInfo
  find_release manifest collection suffix = elim (candidates collection suffix manifest) [
    | [] ↦ err no_release
    | release ∷ [] ↦ ok release
    | _ ∷ _ ∷ _ ↦ err ambiguous
  ]
