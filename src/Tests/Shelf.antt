-- ===== src/Tests/Shelf.antt =====
-- Documents in memory, with the laws that the theorems on bundles rely on.
use airshipctl.Base.{
  String, ◌==◌, true, none, some, List, [], ◌∷◌, ◌++◌, if◌then◌else◌, ok, err, refl, arith,
}
use airshipctl.Base.GoMap.{GoMap, made, value_at}
use airshipctl.Documents.Library.{
  Value, text, truth, end, mapping, field, done, Call, Kustomize, IsResourceMap, no_restrictions,
}
use airshipctl.Documents.Bundles.{Bundle}

pub record Paper : Type 0 where
  pub title : String
  pub content : List (String × Value)
  pub annotations : GoMap String

-- The papers of this name, or all where there is no name.
unfoldable pub named : String → List Paper → List Paper
named name [] = []
named name (p ∷ ps) =
    let rest = named name ps in
    if name == "" then p ∷ rest else if p.title == name then p ∷ rest else rest

abbrev pub field_of : String → Paper → Call Value
field_of path p = elim (value_at p.content path) [ none ↦ err "no field named" | some v ↦ ok v ]

abbrev pub shelf : Kustomize
shelf = record {
  Files = Unit;
  memory_files = tt;
  write_file = λ path contents files. ok tt;
  Resource = Paper;
  ResMap = List Paper;
  run = λ options files path. ok [];
  no_resources = [];
  resources = λ m. m;
  select = λ selector m. ok (named selector.name m);
  append = λ r m. ok (m ++ (r ∷ []));
  from_bytes = λ contents. err "not YAML";
  as_yaml = λ r. ok r.title;
  marshal = λ r. ok r.title;
  name_of = λ r. r.title;
  get_field_value = field_of;
  get_string = λ path r. ok "";
  get_slice = λ path r. ok end;
  annotations = λ r. r.annotations;
  labels = λ r. r.annotations;
  set_annotations = λ m r. ok (record r { annotations = m });
  set_labels = λ m r. ok (record r { annotations = m });
}

pub shelf-IsResourceMap : IsResourceMap shelf
shelf-IsResourceMap = record {
  resources-none = refl;
  resources-append = λ r m m' h. cc;
  annotations-set = λ m r r' h. ground arith;
  labels-set = λ m r r' h. ground arith;
}

abbrev pub secret : Paper
secret = record {
  title = "bmc";
  content =
      ("stringData", mapping (field "username" (text "admin") done))
      ∷ ("immutable", truth true)
      ∷ [];
  annotations = made (("owner", "site") ∷ ("stage", "lab") ∷ []);
}

abbrev pub other : Paper
other = record { title = "other"; content = []; annotations = made [] }

abbrev pub bundle : Bundle shelf
bundle = record {
  build_options = record { kustomization_path = "site"; load_restrictions = no_restrictions };
  res_map = other ∷ secret ∷ [];
  files = tt;
}
