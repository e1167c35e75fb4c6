-- ===== src/Documents/Library.antt =====
-- What pkg/document takes from kustomize and from a file system, as a parameter. A call returns its
-- value or the text of its error.
use airshipctl.Base.{ℕ, ℤ, String, Bool, List, [], ◌∷◌, ◌++◌, Outcome, ok, err, crash, ◌≡◌}
use airshipctl.Base.GoMap.{GoMap}
use airshipctl.Documents.Selectors.{Selector, library_failed, Reply}

-- `interface{}`, as far as a document can hold it; a float64 is given by its bits.
mutual
  pub data Value : Type 0 where
    nil : Value
    text : String → Value
    truth : Bool → Value
    int int64 : ℤ → Value
    float64 : ℕ → Value
    slice : Values → Value
    mapping : Fields → Value

  pub data Values : Type 0 where
    end : Values
    item : Value → Values → Values

  pub data Fields : Type 0 where
    done : Fields
    field : String → Value → Fields → Fields

pub data LoadRestrictions : Type 0 where
  unknown_restrictions root_only no_restrictions : LoadRestrictions

-- krusty.Options, as far as NewBundle sets them
pub record KrustyOptions : Type 0 where
  pub do_legacy_resource_sort : Bool
  pub load_restrictions : LoadRestrictions
  pub do_prune : Bool
  pub plugin_restrictions : Bool
  pub network : Bool

abbrev pub Call : Type 0 → Type 0
Call A = Outcome String A

-- A call, with its error passed on.
abbrev pub library : {A : Type 0} → Call A → Reply A
library (ok a) = ok a
library (err e) = err (library_failed e)
library (crash k) = crash k

pub record Kustomize : Type 1 where
  -- a file system as it stands, with the one in memory that is empty
  pub Files : Type 0
  pub memory_files : Files
  pub write_file : String → String → Files → Call Files
  -- a resource, and a resource map
  pub Resource : Type 0
  pub ResMap : Type 0
  pub run : KrustyOptions → Files → String → Call ResMap
  pub no_resources : ResMap
  pub resources : ResMap → List Resource
  pub select : Selector → ResMap → Call (List Resource)
  pub append : Resource → ResMap → Call ResMap
  pub from_bytes : String → Call Resource
  pub as_yaml : Resource → Call String
  pub marshal : Resource → Call String
  pub name_of : Resource → String
  pub get_field_value : String → Resource → Call Value
  pub get_string : String → Resource → Call String
  pub get_slice : String → Resource → Call Values
  pub annotations : Resource → GoMap String
  pub labels : Resource → GoMap String
  pub set_annotations : GoMap String → Resource → Call Resource
  pub set_labels : GoMap String → Resource → Call Resource

-- What is relied on: a resource map keeps its resources in the order in which they were appended, and
-- metadata that was set is read back.
pub record IsResourceMap (K : Kustomize) : Type 0 where
  pub resources-none : K.resources K.no_resources ≡ []
  pub resources-append :
      (r : K.Resource) (m m' : K.ResMap)
      → K.append r m ≡ ok m'
      → K.resources m' ≡ K.resources m ++ (r ∷ [])
  pub annotations-set :
      (annots : GoMap String) (r r' : K.Resource)
      → K.set_annotations annots r ≡ ok r'
      → K.annotations r' ≡ annots
  pub labels-set :
      (ls : GoMap String) (r r' : K.Resource) → K.set_labels ls r ≡ ok r' → K.labels r' ≡ ls
