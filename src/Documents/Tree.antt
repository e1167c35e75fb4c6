-- ===== src/Documents/Tree.antt =====
-- tree.go: the tree of the kustomizations below an entry point, and its print.
pub mod Walk
use airshipctl.Base.{
  ℕ, zero, suc, String, ◌<>◌, ◌==◌, Bool, true, false, ◌||◌, Option, none, some, List, [], ◌∷◌,
  ◌++◌, if◌then◌else◌, Outcome, ok, err, crash, ◌>>=◌, ◌≡◌, refl,
}
use airshipctl.Base.GoMap.{GoMap, made, get, put, entries}
use airshipctl.Base.Paths.{split, join_with, clean, join, dir, base}
use airshipctl.Documents.Selectors.{kustomization_file}
use airshipctl.Documents.Library.{Call}

-- types.Kustomization, as far as MakeResMap reads it; a generator is its file sources.
pub record Kustomization : Type 0 where
  pub resources : List String
  pub crds : List String
  pub secret_generator : List (List String)
  pub config_map_generator : List (List String)
  pub generators : List String
  pub transformers : List String

-- A file system as it stands, and the YAML library.
pub record TreeFiles : Type 0 where
  pub read_file : String → Call String
  pub is_dir : String → Bool
  pub unmarshal : String → Call Kustomization

-- KustomNode, without its writer
mutual
  pub data KustomNode : Type 0 where
    node : String → String → Nodes → KustomNode

  pub data Nodes : Type 0 where
    no_nodes : Nodes
    node_cons : KustomNode → Nodes → Nodes

abbrev pub children_of : KustomNode → Nodes
children_of (node name content children) = children

-- The elements of a clean path; those of a rooted one start with "".
abbrev elems : String → List String
elems path = if path == "" then [] else if path == "/" then "" ∷ [] else split "/" path

above : List String → List String
above [] = []
above (b ∷ bs) = ".." ∷ above bs

-- From where two paths differ.
unfoldable rel_from : List String → List String → Call String
unfolding above
rel_from (b ∷ bs) (t ∷ ts) =
    let deeper = rel_from bs ts in
    if b == t
    then deeper
    else if b == ".."
    then err "Rel: can't make relative"
    else ok (join_with "/" (".." ∷ (above bs ++ (t ∷ ts))))
rel_from (b ∷ bs) [] =
    if b == ".." then err "Rel: can't make relative" else ok (join_with "/" (".." ∷ above bs))
rel_from [] ts = ok (join_with "/" ts)

abbrev rooted : List String → Bool
rooted [] = false
rooted (e ∷ es) = e == ""

same_kind : Bool → Bool → Bool
same_kind true b = b
same_kind false b = if b then false else true

-- `filepath.Rel`
unfoldable pub rel : String → String → Call String
unfolding rel_from same_kind
rel base_path target_path =
    let cleaned = clean base_path in
    let target = clean target_path in
    let from = if cleaned == "." then "" else cleaned in
    if target == cleaned
    then ok "."
    else if same_kind (rooted (elems from)) (rooted (elems target))
    then rel_from (elems from) (elems target)
    else err "Rel: can't make relative"

-- `name, err := filepath.Rel(...)` with the path itself where that fails
unfoldable pub shown_name : String → String → String
unfolding rel clean
shown_name manifests_dir path = elim (rel manifests_dir path) [ ok name ↦ name | _ ↦ path ]

abbrev found_paths : Option (List String) → List String
found_paths none = []
found_paths (some paths) = paths

-- `resMap[kind] = append(resMap[kind], filepath.Join(basedir, p))` for every path
unfoldable pub add_paths : String → String → List String → GoMap (List String) → GoMap (List String)
add_paths kind basedir [] res_map = res_map
add_paths kind basedir (p ∷ ps) res_map =
    add_paths kind basedir ps
      (put kind (found_paths (get kind res_map) ++ (join (basedir ∷ p ∷ []) ∷ [])) res_map)

unfoldable pub add_sources :
    String → String → List (List String) → GoMap (List String) → GoMap (List String)
unfolding add_paths
add_sources kind basedir [] res_map = res_map
add_sources kind basedir (sources ∷ rest) res_map =
    add_sources kind basedir rest (add_paths kind basedir sources res_map)

unfoldable pub build_config_map_and_secret_generator :
    Kustomization → String → GoMap (List String) → GoMap (List String)
unfolding add_sources
build_config_map_and_secret_generator k basedir res_map =
    add_sources "ConfigMapGenerator" basedir k.config_map_generator
      (add_sources "SecretGenerator" basedir k.secret_generator res_map)

-- What waits for a result that may not come within the fuel.
abbrev pub Run : Type 0 → Type 0
Run A = Option (Call A)

abbrev pub then_run : {A B : Type 0} → Run A → (A → Run B) → Run B
then_run none f = none
then_run (some (ok a)) f = f a
then_run (some (err e)) f = some (err e)
then_run (some (crash k)) f = some (crash k)

-- A node in front of those that come after it.
abbrev pub cons_to : Run Nodes → KustomNode → Run Nodes
cons_to rest child = then_run rest (λ more. some (ok (node_cons child more)))

module _ (F : TreeFiles) where
  unfoldable pub make_res_map : String → Call (GoMap (List String))
  unfolding add_paths build_config_map_and_secret_generator
  make_res_map kfile = do
    bytes ← F.read_file kfile
    k ← F.unmarshal bytes
    let basedir = dir kfile
    let with_crds =
        add_paths "Crds" basedir k.crds (add_paths "Resources" basedir k.resources (made []))
    let with_generators = build_config_map_and_secret_generator k basedir with_crds
    ok (
        add_paths "Transformers" basedir k.transformers
          (add_paths "Generators" basedir k.generators with_generators))

  -- A directory is a kustomization of its own; `build` is the recursive call.
  abbrev pub source_node : (String → Run KustomNode) → String → String → Run KustomNode
  source_node build manifests_dir s =
      if F.is_dir s
      then build (join (s ∷ kustomization_file ∷ []))
      else some (ok (node (shown_name manifests_dir s) s no_nodes))

  -- The loop over the sources of one kind.
  unfoldable pub source_nodes : (String → Run KustomNode) → String → List String → Run Nodes
  source_nodes build manifests_dir [] = some (ok no_nodes)
  source_nodes build manifests_dir (s ∷ rest) =
      then_run (source_node build manifests_dir s) (cons_to (source_nodes build manifests_dir rest))

  -- The loop over the kinds, in the order of the walk over the map.
  unfoldable pub kind_nodes :
      (String → Run KustomNode) → String → List (String × List String) → Run Nodes
  unfolding source_nodes
  kind_nodes build manifests_dir [] = some (ok no_nodes)
  kind_nodes build manifests_dir ((kind, sources) ∷ rest) =
      then_run (source_nodes build manifests_dir sources)
        (λ children. cons_to (kind_nodes build manifests_dir rest) (node kind "" children))

  -- BuildKustomTree, to a depth of so many kustomizations; `none` where there are more.
  unfoldable pub build_kustom_tree : ℕ → String → String → Run KustomNode
  unfolding kind_nodes
  build_kustom_tree zero entrypoint manifests_dir = none
  build_kustom_tree (suc depth) entrypoint manifests_dir =
      then_run (some (make_res_map entrypoint)) (λ res_map.
        then_run (kind_nodes (λ s. build_kustom_tree depth s "") manifests_dir (entries res_map))
          (λ children. some (ok (node (shown_name manifests_dir entrypoint) entrypoint children))))

-- Where PrintTree writes: the writer that it is given, and the standard output.
pub record Screen : Type 0 where
  pub written : String
  pub printed : String

abbrev write_line : String → Screen → Screen
write_line line s = record s { written = s.written <> (line <> "\n") }

abbrev print_line : String → Screen → Screen
print_line line s = record s { printed = s.printed <> (line <> "\n") }

unfoldable pub has_children : Nodes → Bool
has_children no_nodes = false
has_children (node_cons c rest) = true

-- A node that GetKustomChildren keeps is among them.
unfoldable pub has_kustom_children : Nodes → Bool
unfolding has_children
has_kustom_children no_nodes = false
has_kustom_children (node_cons (node name content cs) rest) =
    has_children cs || has_kustom_children rest

abbrev titled : String → String
titled name = base (dir name) <> (" [" <> (dir name <> "]"))

unfoldable mutual
  unfolding has_children has_kustom_children

  -- The outer loop of PrintTree
  pub print_children : String → Nodes → Screen → Screen
  print_children prefix no_nodes s = s
  print_children prefix (node_cons (node name content cs) rest) s =
      let last = if has_children rest then false else true in
      let subprefix = if has_kustom_children cs then (if last then "    " else "│   ") else "" in
      let headed =
        if has_kustom_children cs
        then write_line (prefix <> ((if last then "└── " else "├── ") <> name)) s
        else s in
      print_children prefix rest (print_subtrees (prefix <> subprefix) cs headed)

  -- The inner loop, over the nodes that GetKustomChildren keeps
  pub print_subtrees : String → Nodes → Screen → Screen
  print_subtrees prefix no_nodes s = s
  print_subtrees prefix (node_cons (node name content no_nodes) rest) s =
      print_subtrees prefix rest s
  print_subtrees prefix (node_cons (node name content (node_cons c cs)) rest) s =
      let last = if has_kustom_children rest then false else true in
      let line = prefix <> ((if last then "└── " else "├── ") <> titled name) in
      let below = prefix <> (if last then "    " else "│   ") in
      print_subtrees prefix rest (print_children below (node_cons c cs) (print_line line s))

-- PrintTree with no prefix
unfoldable pub print_tree : KustomNode → Screen → Screen
unfolding print_children
print_tree (node name content children) s = print_children "" children (write_line (titled name) s)

rel_example :
    rel "/site/manifests" "/site/manifests/phases/kustomization.yaml"
    ≡ ok "phases/kustomization.yaml"
unfolding rel clean
rel_example = refl

rel_above : rel "a/b" "a/c/d" ≡ ok "../c/d"
unfolding rel clean
rel_above = refl
