-- ===== src/Replacing.antt =====
-- pkg/document/plugin/replacement/transformer.go: values that are copied between the documents of a
-- bundle. The selection of documents and the JSON paths of pkg/document/plugin/kyamlutils are parameters,
-- as are regular expressions and base64.
pub mod Checks
use airshipctl.Base.{
  String, ◌==◌, is_set, Bool, true, false, ◌&&◌, Option, none, some, List, [], ◌∷◌, if◌then◌else◌,
  Outcome, ok, err, crash, deref, ◌>>=◌, ◌>>◌,
}
use airshipctl.Base.Paths.{split}

-- v1alpha1.Target and v1alpha1.Selector, which name documents
pub record Target : Type 0 where
  pub api_version : String
  pub group : String
  pub version : String
  pub kind : String
  pub name : String
  pub namespace : String

pub record Selector : Type 0 where
  pub group : String
  pub version : String
  pub kind : String
  pub name : String
  pub namespace : String
  pub label_selector : String

pub record ReplSource : Type 0 where
  pub obj_ref : Option Target
  pub field_ref : String
  pub value : Option String

pub record ReplTarget : Type 0 where
  pub obj_ref : Option Selector
  pub field_refs : List String

-- Replacement; targets that are not given are nil
pub record Replacement : Type 0 where
  pub source : Option ReplSource
  pub target : Option ReplTarget
  pub targets : Option (List ReplTarget)

pub data ReplacementError : Type 0 where
  bad_configuration : String → ReplacementError
  multiple_resources source_not_found : Target → ReplacementError
  target_not_found : Selector → ReplacementError
  pattern_substring base64_decoding : String → ReplacementError
  -- an error of a selection or of a JSON path
  library_error : String → ReplacementError

abbrev pub Reply : Type 0 → Type 0
Reply A = Outcome ReplacementError A

abbrev pub is_nil : {A : Type 0} → Option A → Bool
is_nil none = true
is_nil (some a) = false

abbrev pub is_given : {A : Type 0} → Option A → Bool
is_given none = false
is_given (some a) = true

-- The checks of New on one replacement, once it has a source.
abbrev pub check_source : Replacement → ReplSource → Reply Unit
check_source r s =
    if is_nil r.target && is_nil r.targets
    then err (bad_configuration "`to` must be specified in one replacement")
    else if is_given r.target && is_given r.targets
    then err (bad_configuration "only target OR targets is allowed in one replacement, not both")
    else if is_given s.obj_ref && is_given s.value
    then err (bad_configuration "only one of fieldref and value is allowed in one replacement")
    else if is_nil s.obj_ref && is_nil s.value
    then err (bad_configuration "no source value or source objectref value was given")
    else ok tt

abbrev pub check_of : Replacement → Option ReplSource → Reply Unit
check_of r none = err (bad_configuration "`from` must be specified in one replacement")
check_of r (some s) = check_source r s

unfoldable pub check_replacement : Replacement → Reply Unit
check_replacement r = check_of r r.source

-- New
unfoldable pub new_plugin : List Replacement → Reply (List Replacement)
unfolding check_replacement
new_plugin [] = ok []
new_plugin (r ∷ rs) = check_replacement r >>= λ u. new_plugin rs >>= λ checked. ok (r ∷ checked)

-- A node, as far as a substitution looks into it: a scalar with its value, a sequence, or another one.
pub data Node (Other : Type 0) : Type 0 where
  scalar : String → Node Other
  sequence other : Other → Node Other

-- The documents with their selection and paths, and the libraries.
pub record Documents : Type 1 where
  pub Items : Type 0
  pub Item : Type 0
  pub Other : Type 0
  pub select_sources : Target → Items → Reply (List Item)
  pub select_targets : Selector → Items → Reply (List Item)
  -- what stands at a path of a document, if anything, and the document with a node put there
  pub at_path : Item → String → Items → Reply (Option (Node Other))
  pub put_at : Item → String → Option (Node Other) → Items → Reply Items
  -- the items of a sequence, with the values of those that are scalars, and the sequence with others
  pub elements : Other → Reply (List (Option String))
  pub with_elements : Other → List String → Other
  -- yaml.GetValue of a node that is no scalar, or is missing
  pub other_value : Option (Node Other) → String
  -- the path and the pattern of `(.+)%(\S+)%$`, and regexp.MustCompile with ReplaceAllString
  pub substring_pattern : String → Option (String × String)
  pub replace_all : String → String → String → Reply String
  pub decode_base64 : String → Option String
  pub encode_base64 : String → String

module _ (D : Documents) where
  open D use {Items, Item, Other}

  -- yaml.GetValue
  abbrev pub value_of : Option (Node Other) → String
  value_of (some (scalar s)) = s
  value_of found = D.other_value found

  -- decodeValue
  abbrev pub decoded : String → Option String → Reply (Option (Node Other))
  decoded text none = err (base64_decoding text)
  decoded text (some s) = ok (some (scalar s))

  abbrev pub decode_value : Option (Node Other) → Reply (Option (Node Other))
  decode_value found = decoded (value_of found) (D.decode_base64 (value_of found))

  abbrev pub encode_value : Option (Node Other) → Option (Node Other)
  encode_value found = some (scalar (D.encode_base64 (value_of found)))

  -- `kind: Secret` and a path into its data
  abbrev first_part : List String → String
  first_part [] = ""
  first_part (part ∷ parts) = part

  unfoldable pub is_secret_data : String → String → Bool
  unfolding split
  is_secret_data kind field_ref = (kind == "Secret") && (first_part (split "." field_ref) == "data")

  unfoldable pub only_source : Target → List Item → Reply Item
  only_source ref [] = err (source_not_found ref)
  only_source ref (item ∷ []) = ok item
  only_source ref (item ∷ more ∷ rest) = err (multiple_resources ref)

  -- getValue, from a document
  unfoldable pub referred_value : Target → String → Items → Reply (Option (Node Other))
  unfolding only_source is_secret_data
  referred_value ref field_ref items = do
    sources ← D.select_sources ref items
    item ← only_source ref sources
    found ← D.at_path item (if is_set field_ref then field_ref else "{.metadata.name}") items
    if is_secret_data ref.kind field_ref then decode_value found else ok found

  abbrev pub source_value : ReplSource → Option String → Items → Reply (Option (Node Other))
  source_value s (some text) items = ok (some (scalar text))
  source_value s none items = deref s.obj_ref >>= λ ref. referred_value ref s.field_ref items

  unfoldable pub get_value : ReplSource → Items → Reply (Option (Node Other))
  unfolding referred_value
  get_value s items = source_value s s.value items

  -- The items of a sequence, which must be scalars.
  unfoldable pub substituted : String → String → List (Option String) → Reply (List String)
  substituted pattern text [] = ok []
  substituted pattern text (some s ∷ nodes) = do
    replaced ← D.replace_all pattern s text
    more ← substituted pattern text nodes
    ok (replaced ∷ more)
  substituted pattern text (none ∷ nodes) = err (library_error "wrong Node Kind")

  -- The switch of substituteSubstring, with what is put at the path.
  unfoldable pub substitute_in : String → String → String → Node Other → Reply (Node Other)
  unfolding substituted
  substitute_in field_ref pattern text (scalar s) =
      D.replace_all pattern s text >>= λ replaced. ok (scalar replaced)
  substitute_in field_ref pattern text (sequence nodes) = D.elements nodes >>= λ items.
      substituted pattern text items >>= λ more. ok (sequence (D.with_elements nodes more))
  substitute_in field_ref pattern text (other found) = err (pattern_substring field_ref)

  -- What is missing is left as it is.
  abbrev pub substitute_at :
      Item → String → String → String → Items → Option (Node Other) → Reply Items
  substitute_at item field_ref pattern text items none = ok items
  substitute_at item field_ref pattern text items (some found) =
      substitute_in field_ref pattern text found >>= λ new. D.put_at item field_ref (some new) items

  -- substituteSubstring
  unfoldable pub substitute_substring :
      Item → String → String → Option (Node Other) → Items → Reply Items
  unfolding substitute_in
  substitute_substring item field_ref pattern (some (scalar text)) items =
      D.at_path item field_ref items >>= substitute_at item field_ref pattern text items
  substitute_substring item field_ref pattern found items = err (library_error "wrong Node Kind")

  -- One field of one target.
  abbrev pub replace_by :
      Item → String → Option (Node Other) → Items → Option (String × String) → Reply Items
  replace_by item field_ref found items none = D.put_at item field_ref found items
  replace_by item field_ref found items (some (path, pattern)) =
      substitute_substring item path pattern found items

  unfoldable pub replace_field :
      Selector → Option (Node Other) → Item → String → Items → Reply Items
  unfolding is_secret_data substitute_substring
  replace_field ref found item field_ref items =
      replace_by item field_ref
        (if is_secret_data ref.kind field_ref then encode_value found else found) items
        (D.substring_pattern field_ref)

  unfoldable pub replace_fields :
      Selector → Option (Node Other) → Item → List String → Items → Reply Items
  unfolding replace_field
  replace_fields ref found item [] items = ok items
  replace_fields ref found item (f ∷ fs) items =
      replace_field ref found item f items >>= replace_fields ref found item fs

  unfoldable pub replace_targets :
      Selector → Option (Node Other) → List String → List Item → Items → Reply Items
  unfolding replace_fields
  replace_targets ref found fs [] items = ok items
  replace_targets ref found fs (item ∷ rest) items =
      replace_fields ref found item fs items >>= replace_targets ref found fs rest

  abbrev pub some_target : Selector → List Item → Reply (List Item)
  some_target ref [] = err (target_not_found ref)
  some_target ref (item ∷ rest) = ok (item ∷ rest)

  -- replace
  unfoldable pub replace : ReplTarget → Option (Node Other) → Items → Reply Items
  unfolding replace_targets
  replace target found items = do
    ref ← deref target.obj_ref
    chosen ← D.select_targets ref items
    targets ← some_target ref chosen
    replace_targets ref found target.field_refs targets items

  unfoldable pub replace_all_in : List ReplTarget → Option (Node Other) → Items → Reply Items
  unfolding replace
  replace_all_in [] found items = ok items
  replace_all_in (t ∷ ts) found items = replace t found items >>= replace_all_in ts found

  -- The one target before the list of them.
  abbrev pub targets_of : Option ReplTarget → Option (List ReplTarget) → List ReplTarget
  targets_of none none = []
  targets_of none (some ts) = ts
  targets_of (some t) none = t ∷ []
  targets_of (some t) (some ts) = t ∷ ts

  unfoldable pub apply_replacement : Replacement → Items → Reply Items
  unfolding get_value replace_all_in
  apply_replacement r items = do
    source ← deref r.source
    found ← get_value source items
    replace_all_in (targets_of r.target r.targets) found items

  -- Filter, whose items are dropped with an error
  unfoldable pub filter : List Replacement → Items → Reply Items
  unfolding apply_replacement
  filter [] items = ok items
  filter (r ∷ rs) items = apply_replacement r items >>= filter rs
