-- ===== src/Config/Print.antt =====
-- GetContexts and GetManifests of config.go and ContextOptions.Print of options.go. The writer is
-- the list of the texts that are written; `marshal` is yaml.Marshal of the reduced configuration, and
-- `format` what fmt.Fprintf makes of a format text with no operands, for Print hands it the YAML so.
pub mod Order
use airshipctl.Base.{
  String, ◌<>◌, ◌==◌, is_set, Bool, Option, none, some, List, [], ◌∷◌, ◌++◌, map, if◌then◌else◌, ok,
  err, crash, ◌>>=◌, ◌>>◌, deref, found_or,
}
use airshipctl.Base.GoMap.{GoMap, made, get, keys}
use airshipctl.Base.Sorting.{sort_strings}
use airshipctl.Base.Paths.{join_with}
use airshipctl.Config.Types.{Context, Manifest, Config, ContextOptions, Reply, wrong_output_format}
use airshipctl.Config.Lookup.{get_context}

-- `m[name]` for each name; a missing key gives the zero value, nil.
unfoldable pub values_at : {A : Type 0} → List String → GoMap (Option A) → List (Option A)
values_at [] m = []
values_at (name ∷ names) m = elim (get name m) [ none ↦ none | some ptr ↦ ptr ] ∷ values_at names m

unfoldable pub get_contexts : Config → List (Option Context)
unfolding sort_strings values_at
get_contexts c = values_at (sort_strings (keys c.contexts)) c.contexts

unfoldable pub get_manifests : Config → List (Option Manifest)
unfolding sort_strings values_at
get_manifests c = values_at (sort_strings (keys c.manifests)) c.manifests

-- The contexts and the current context that the YAML format prints.
pub record ReducedConfig : Type 0 where
  pub contexts : GoMap (Option Context)
  pub current_context : String

reduced_config : String → Config → Reply ReducedConfig
unfolding get_context
reduced_config name c =
    if is_set name
    then (get_context name c >>= λ ptr.
        ok (record { contexts = made ((name, ptr) ∷ []); current_context = "" }))
    else ok (record { contexts = c.contexts; current_context = c.current_context })

table_text : Config → String → Context → String
unfolding join_with
table_text c name context =
    let current : String = if c.current_context == name then "*" else " " in
    join_with "\t" (current ∷ name ∷ context.manifest ∷ context.management_configuration ∷ [])
    <> "\n"

table_row : Config → String → Reply String
unfolding get_context table_text
table_row c name = do ptr ← get_context name c; context ← deref ptr; ok (table_text c name context)

-- What is written before an error stays written.
table_rows : Config → List String → List String → List String × Reply Unit
unfolding table_row
table_rows c out [] = (out, ok tt)
table_rows c out (name ∷ names) = elim (table_row c name) [
  | ok row ↦ table_rows c (out ++ (row ∷ [])) names
  | err e ↦ (out, err e)
  | crash k ↦ (out, crash k)
]

unfoldable pub printed_name : ContextOptions → Config → String
printed_name o c = if o.current_context then c.current_context else o.name

unfoldable pub table_names : String → Config → List String
unfolding sort_strings
table_names name c = sort_strings (if is_set name then name ∷ [] else keys c.contexts)

abbrev pub table_header : String
table_header = "CURRENT\tNAME\tMANIFEST\tMANAGEMENTCONFIGURATION\n"

print_yaml :
    (ReducedConfig → Reply String) → (String → String) → String → Config → List String × Reply Unit
unfolding reduced_config
print_yaml marshal format name c = elim (reduced_config name c >>= marshal) [
  | ok text ↦ (format text ∷ [], ok tt)
  | err e ↦ ([], err e)
  | crash k ↦ ([], crash k)
]

-- ContextOptions.Print
unfoldable pub print :
    (ReducedConfig → Reply String)
    → (String → String)
    → ContextOptions
    → Config
    → List String × Reply Unit
unfolding print_yaml printed_name table_names table_rows
print marshal format o c =
    let name = printed_name o c in
    if o.format == "yaml"
    then print_yaml marshal format name c
    else if o.format == "table"
    then table_rows c (table_header ∷ []) (table_names name c)
    else ([], err (wrong_output_format o.format ("yaml" ∷ "table" ∷ [])))
