-- ===== src/Sources/Json.antt =====
-- What the adapters of sync/sources do with a value of `json.loads`: Python's truth value, `str`,
-- `int`, `.get` and iteration, with the exceptions that these raise. A string is its code points; a
-- float is its literal, with whether it differs from zero. `int` reads literals of any length.
use aa_metadata_worker.Prelude.{
  ℕ, zero, suc, ◌+◌, ◌/◌, ◌%◌, ℤ, pos, negsuc, nonzero, negate, Text, Bool, true, false, none, some,
  List, [], ◌∷◌, ◌++◌, codes, Dict, lookup, keys, text_eq, nonempty, ltb, map, if◌then◌else◌,
}
use aa_metadata_worker.Result.{Exception, error, Result, ok, err, ◌>>=◌}
use aa_metadata_worker.Unicode.{Unicode}
use aa_metadata_worker.Worker.Schedule.{int_of}

mutual
  pub data Json : Type 0 where
    null : Json
    boolean : Bool → Json
    integer : ℤ → Json
    float : Bool → Text → Json
    string : Text → Json
    array : Items → Json
    object : Members → Json

  pub data Items : Type 0 where
    nil : Items
    cons : Json → Items → Items

  pub data Members : Type 0 where
    end : Members
    member : Text → Json → Members → Members

abbrev pub items : Items → List Json
items nil = []
items (cons v vs) = v ∷ items vs

abbrev pub members : Members → Dict Text Json
members end = []
members (member k v ms) = (k, v) ∷ members ms

-- What is taken from Python: its Unicode tables, `repr` of a float, a list, a dict and a string,
-- `int` of a float, and `hashlib.sha256(text.encode()).digest()`.
pub record Python : Type 0 where
  pub unicode : Unicode
  pub repr : Json → Text
  pub int_of_float : Text → Result ℤ
  pub sha256 : Text → Result Text

abbrev pub type_name : Json → Text
type_name null = codes "NoneType"
type_name (boolean b) = codes "bool"
type_name (integer n) = codes "int"
type_name (float b t) = codes "float"
type_name (string s) = codes "str"
type_name (array vs) = codes "list"
type_name (object ms) = codes "dict"

abbrev pub type_error : Text → Exception
type_error message = error (codes "TypeError") message

-- A method that the value does not have.
abbrev pub no_attribute : Json → Text → Exception
no_attribute v name =
    error (codes "AttributeError")
      (codes "'" ++ type_name v ++ codes "' object has no attribute '" ++ name ++ codes "'")

abbrev pub truthy : Json → Bool
truthy null = false
truthy (boolean b) = b
truthy (integer n) = nonzero n
truthy (float b t) = b
truthy (string s) = nonempty s
truthy (array vs) = nonempty (items vs)
truthy (object ms) = nonempty (members ms)

-- `a or b`
abbrev pub or_value : Json → Json → Json
or_value a b = if truthy a then a else b

abbrev pub empty_object : Json
empty_object = object end

abbrev pub empty_array : Json
empty_array = array nil

-- The decimal digits of a number, before those that follow; the first argument bounds their count.
unfoldable pub decimal_text : ℕ → ℕ → Text → Text
decimal_text zero n after = after
decimal_text (suc fuel) n after =
    let digit = 48 + n % 10 in
    elim (ltb n 10) [ true ↦ digit ∷ after | false ↦ decimal_text fuel (n / 10) (digit ∷ after) ]

abbrev pub integer_text : ℤ → Text
integer_text (pos n) = decimal_text (suc n) n []
integer_text (negsuc n) = codes "-" ++ decimal_text (suc (suc n)) (suc n) []

-- `v.get(key)`
unfoldable pub get : Text → Json → Result Json
get key (object ms) = ok (elim (lookup key (members ms)) [ none ↦ null | some v ↦ v ])
get key v = err (no_attribute v (codes "get"))

-- `v.get(key) or {}`
abbrev pub get_object : Text → Json → Result Json
get_object key v = do found ← get key v; ok (or_value found empty_object)

-- `for x in v`
unfoldable pub iterate : Json → Result (List Json)
iterate (array vs) = ok (items vs)
iterate (object ms) = ok (map string (keys (members ms)))
iterate (string s) = ok (map (λ c. string (c ∷ [])) s)
iterate v = err (type_error (codes "'" ++ type_name v ++ codes "' object is not iterable"))

module _ (py : Python) where
  -- `str(v)`
  unfoldable pub str : Json → Text
  unfolding decimal_text
  str null = codes "None"
  str (boolean true) = codes "True"
  str (boolean false) = codes "False"
  str (integer n) = integer_text n
  str (string s) = s
  str v = py.repr v

  -- `str(v or "")`
  abbrev pub str_or_empty : Json → Text
  str_or_empty v = str (or_value v (string []))

  abbrev pub no_literal : Json → Exception
  no_literal v =
      error (codes "ValueError") (codes "invalid literal for int() with base 10: " ++ py.repr v)

  -- `int(v)`
  unfoldable pub int : Json → Result ℤ
  unfolding int_of
  int (boolean b) = ok (pos (if b then 1 else 0))
  int (integer n) = ok n
  int (float b t) = py.int_of_float t
  int (string s) = elim (int_of py.unicode s) [
    | none ↦ err (no_literal (string s))
    | some (minus, n) ↦ ok (if minus then negate (pos n) else pos n)
  ]
  int v = err (
      type_error (
        codes "int() argument must be a string, a bytes-like object or a real number, not '"
        ++ type_name v
        ++ codes "'"))
