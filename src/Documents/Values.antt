-- ===== src/Documents/Values.antt =====
-- document.go: the getters of a document, which check the type of what they find, and its labels and
-- annotations.
pub mod Typed
use airshipctl.Base.{
  ℕ, ℤ, String, ◌==◌, Bool, true, false, Option, none, some, List, [], ◌∷◌, if◌then◌else◌, Outcome,
  ok, err, crash, explicit_panic, bad_assertion, ◌>>=◌, Proc, Outcome-cases, All, ◌≡◌, ◌≢◌, ◌↔◌,
  ◌⊎◌, inl, inr, refl, arith, eq_iff,
}
use airshipctl.Base.GoMap.{GoMap, made, unmade, get, put, entries, value_at, get-put}
use airshipctl.Documents.Selectors.{DocumentError, bad_value_format, Reply}
use airshipctl.Documents.Library.{
  Value, nil, text, truth, int, int64, float64, slice, mapping, Values, end, item, Fields, done,
  field, Kustomize, library, IsResourceMap,
}

-- `%T`
abbrev pub type_name : Value → String
type_name nil = "<nil>"
type_name (text s) = "string"
type_name (truth b) = "bool"
type_name (int n) = "int"
type_name (int64 n) = "int64"
type_name (float64 n) = "float64"
type_name (slice vs) = "[]interface {}"
type_name (mapping fs) = "map[string]interface {}"

abbrev pub as_bool : String → Value → Reply Bool
as_bool path (truth b) = ok b
as_bool path v = err (bad_value_format path "bool" (type_name v))

abbrev pub as_float64 : String → Value → Reply ℕ
as_float64 path (float64 n) = ok n
as_float64 path v = err (bad_value_format path "float64" (type_name v))

abbrev pub as_int64 : String → Value → Reply ℤ
as_int64 path (int64 n) = ok n
as_int64 path (int n) = ok n
as_int64 path v = err (bad_value_format path "int64" (type_name v))

abbrev pub as_map : String → Value → Reply Fields
as_map path (mapping fs) = ok fs
as_map path v = err (bad_value_format path "map[string]interface{}" (type_name v))

-- The loop of GetStringSlice.
unfoldable pub strings_of : String → Values → Reply (List String)
strings_of path end = ok []
strings_of path (item (text s) vs) = strings_of path vs >>= λ rest. ok (s ∷ rest)
strings_of path (item v vs) = err (bad_value_format path "[]string" (type_name v))

-- The loop of GetStringMap. An error tells the type of the whole map.
unfoldable pub string_map_of : String → Fields → GoMap String → Reply (GoMap String)
string_map_of path done str_map = ok str_map
string_map_of path (field k (text s) fs) str_map = string_map_of path fs (put k s str_map)
string_map_of path (field k v fs) str_map =
    err (bad_value_format path "map[string]string" (type_name (mapping done)))

module _ (K : Kustomize) where
  open K use {Resource}

  unfoldable pub get_field_value : String → Resource → Reply Value
  get_field_value path d = library (K.get_field_value path d)

  unfoldable pub get_string : String → Resource → Reply String
  get_string path d = library (K.get_string path d)

  unfoldable pub get_slice : String → Resource → Reply Values
  get_slice path d = library (K.get_slice path d)

  unfoldable pub get_string_slice : String → Resource → Reply (List String)
  unfolding get_slice strings_of
  get_string_slice path d = get_slice path d >>= strings_of path

  unfoldable pub get_bool : String → Resource → Reply Bool
  unfolding get_field_value
  get_bool path d = get_field_value path d >>= as_bool path

  unfoldable pub get_float64 : String → Resource → Reply ℕ
  unfolding get_field_value
  get_float64 path d = get_field_value path d >>= as_float64 path

  unfoldable pub get_int64 : String → Resource → Reply ℤ
  unfolding get_field_value
  get_int64 path d = get_field_value path d >>= as_int64 path

  unfoldable pub get_map : String → Resource → Reply Fields
  unfolding get_field_value
  get_map path d = get_field_value path d >>= as_map path

  unfoldable pub get_string_map : String → Resource → Reply (GoMap String)
  unfolding get_map string_map_of
  get_string_map path d = get_map path d >>= λ val. string_map_of path val (made [])

  -- A map to write to: that of the document, or a new one.
  abbrev pub or_made : GoMap String → GoMap String
  or_made unmade = made []
  or_made (made es) = made es

  -- The new entries over the old ones.
  unfoldable pub overridden : List (String × String) → GoMap String → GoMap String
  overridden [] m = m
  overridden ((k, v) ∷ es) m = overridden es (put k v m)

  -- A panic where the metadata cannot be set.
  abbrev or_panic : {A : Type 0} → Outcome String A → Reply A
  or_panic (ok a) = ok a
  or_panic (err e) = crash explicit_panic
  or_panic (crash k) = crash k

  unfoldable pub annotate : GoMap String → Resource → Reply Resource
  unfolding overridden
  annotate new d =
      or_panic (K.set_annotations (overridden (entries new) (or_made (K.annotations d))) d)

  unfoldable pub label : GoMap String → Resource → Reply Resource
  unfolding overridden
  label new d = or_panic (K.set_labels (overridden (entries new) (or_made (K.labels d))) d)
