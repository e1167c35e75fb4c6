-- ===== src/Documents/Tree/Walk.antt =====
-- The walk of BuildKustomTree: where it ends, and where it cannot.
use airshipctl.Base.{
  ℕ, zero, suc, String, true, none, some, List, [], ◌∷◌, Outcome-cases, Bool-cases, ok, err, crash,
  ◌≡◌, ◌≢◌, ◌⊎◌, inl, inr, refl, arith,
}
use airshipctl.Base.GoMap.{GoMap, entries}
use airshipctl.Base.Paths.{join}
use airshipctl.Documents.Selectors.{kustomization_file}
use airshipctl.Documents.Library.{Call}
use airshipctl.Documents.Tree.{
  TreeFiles, KustomNode, node, Nodes, node_cons, Run, then_run, make_res_map, shown_name,
  source_nodes, kind_nodes, build_kustom_tree, source_node, cons_to,
}

-- A path among others, and among those of some kind.
pub data OneOf (s : String) : List String → Type 0 where
  first : {ss : List String} → OneOf s (s ∷ ss)
  later : {t : String} {ss : List String} → OneOf s ss → OneOf s (t ∷ ss)

pub data Listed (s : String) : List (String × List String) → Type 0 where
  of_kind :
      {kind : String} {ss : List String} {es : List (String × List String)}
      → OneOf s ss
      → Listed s ((kind, ss) ∷ es)
  of_later :
      {e : String × List String} {es : List (String × List String)}
      → Listed s es
      → Listed s (e ∷ es)

OneOf-cases : {s t : String} {ss : List String} → OneOf s (t ∷ ss) → (t ≡ s) ⊎ OneOf s ss
OneOf-cases first = inl refl
OneOf-cases (later o) = inr o

Listed-cases :
    {s kind : String} {ss : List String} {es : List (String × List String)}
    → Listed s ((kind, ss) ∷ es)
    → OneOf s ss ⊎ Listed s es
Listed-cases (of_kind o) = inl o
Listed-cases (of_later o) = inr o

abbrev pub kustomization_of : String → String
kustomization_of s = join (s ∷ kustomization_file ∷ [])

some_ne_none : {A : Type 0} {c : Call A} → some c ≢ none
some_ne_none h = cc

then_run_ends :
    {A B : Type 0} (r : Run A) (f : A → Run B)
    → r ≢ none
    → ((a : A) → f a ≢ none)
    → then_run r f ≢ none
then_run_ends none f h k = absurd (h refl)
then_run_ends (some (ok a)) f h k = k a
then_run_ends (some (err e)) f h k = λ q. cc
then_run_ends (some (crash c)) f h k = λ q. cc

then_run-inv :
    {A B : Type 0} (r : Run A) (f : A → Run B) (b : B)
    → then_run r f ≡ some (ok b)
    → (a : A) × (r ≡ some (ok a)) × (f a ≡ some (ok b))
then_run-inv none f b h = cc
then_run-inv (some (ok a)) f b h = (a, refl, h)
then_run-inv (some (err e)) f b h = cc
then_run-inv (some (crash c)) f b h = cc

module _ (F : TreeFiles) where
  -- A kustomization lists a directory.
  abbrev pub Includes : String → String → Type 0
  Includes kfile s =
      (m : GoMap (List String)) × (make_res_map F kfile ≡ ok m)
      × Listed s (entries m)
      × (F.is_dir s ≡ true)

  -- Every way down from a kustomization, from directory to directory, passes fewer than so many
  -- kustomizations after it.
  abbrev pub HasDepth : ℕ → String → Type 0
  HasDepth zero kfile = ⊥
  HasDepth (suc n) kfile = (s : String) → Includes kfile s → HasDepth n (kustomization_of s)

  module _ (build : String → Run KustomNode) (d : String) where
    source_nodes_ends :
        (ss : List String)
        → ((s : String) → OneOf s ss → F.is_dir s ≡ true → build (kustomization_of s) ≢ none)
        → source_nodes F build d ss ≢ none
    unfolding source_nodes
    source_nodes_ends [] h = λ e. cc
    source_nodes_ends (s ∷ ss) h =
        then_run_ends _ _
          (elim (Bool-cases (F.is_dir s)) [ inl q ↦ rw q (h s first q) | inr q ↦ rw q (λ e. cc) ])
          (λ child.
            then_run_ends _ _ (source_nodes_ends ss (λ t o q. h t (later o) q))
              (λ more. some_ne_none))

    kind_nodes_ends :
        (es : List (String × List String))
        → ((s : String) → Listed s es → F.is_dir s ≡ true → build (kustomization_of s) ≢ none)
        → kind_nodes F build d es ≢ none
    unfolding kind_nodes
    kind_nodes_ends [] h = λ e. cc
    kind_nodes_ends ((kind, ss) ∷ es) h =
        then_run_ends _ _ (source_nodes_ends ss (λ s o q. h s (of_kind o) q)) (λ child.
          then_run_ends _ _ (kind_nodes_ends es (λ s o q. h s (of_later o) q))
            (λ more. some_ne_none))

    -- A list of nodes was built only if the tree of each directory was.
    source_nodes-built :
        (ss : List String) (s : String) (ns : Nodes)
        → OneOf s ss
        → F.is_dir s ≡ true
        → source_nodes F build d ss ≡ some (ok ns)
        → (t : KustomNode) × (build (kustomization_of s) ≡ some (ok t))
    unfolding source_nodes
    source_nodes-built [] s ns o q h = elim o [ ]
    source_nodes-built (t ∷ ss) s ns o q h =
        let (child, e, k) =
          then_run-inv (source_node F build d t) (cons_to (source_nodes F build d ss)) ns h in
        let (more, f, _) =
          then_run-inv (source_nodes F build d ss) (λ more. some (ok (node_cons child more))) ns
            k in
        elim (OneOf-cases o) [
          | inl same ↦ (child, ground (arith, same))
          | inr o' ↦ source_nodes-built ss s more o' q f
        ]

    kind_nodes-built :
        (es : List (String × List String)) (s : String) (ns : Nodes)
        → Listed s es
        → F.is_dir s ≡ true
        → kind_nodes F build d es ≡ some (ok ns)
        → (t : KustomNode) × (build (kustomization_of s) ≡ some (ok t))
    unfolding kind_nodes
    kind_nodes-built [] s ns o q h = elim o [ ]
    kind_nodes-built ((kind, ss) ∷ es) s ns o q h =
        let (found, e, k) =
          then_run-inv (source_nodes F build d ss)
            (λ children. cons_to (kind_nodes F build d es) (node kind "" children)) ns h in
        let (more, f, _) =
          then_run-inv (kind_nodes F build d es)
            (λ more. some (ok (node_cons (node kind "" found) more))) ns k in
        elim (Listed-cases o) [
          | inl among ↦ source_nodes-built ss s found among q e
          | inr o' ↦ kind_nodes-built es s more o' q f
        ]

  -- BuildKustomTree ends with a tree or an error where no way down passes more kustomizations than the
  -- depth allows.
  pub build_kustom_tree_ends :
      (n : ℕ) (kfile d : String) → HasDepth n kfile → build_kustom_tree F n kfile d ≢ none
  unfolding build_kustom_tree
  build_kustom_tree_ends zero kfile d h = absurd h
  build_kustom_tree_ends (suc n) kfile d h = elim (Outcome-cases (make_res_map F kfile)) [
    | inl (m, e) ↦ rw e (
        then_run_ends _ _
          (kind_nodes_ends (λ s. build_kustom_tree F n s "") d (entries m)
            (λ s listed q.
              build_kustom_tree_ends n (kustomization_of s) "" (h s (m, e, listed, q))))
          (λ children. some_ne_none))
    | inr (inl (x, e)) ↦ rw e (λ q. cc)
    | inr (inr (k, e)) ↦ rw e (λ q. cc)
  ]

  -- A tree was built only if that of each directory was, from the next depth on.
  build_kustom_tree-built :
      (n : ℕ) (kfile d s : String) (t : KustomNode)
      → Includes kfile s
      → build_kustom_tree F (suc n) kfile d ≡ some (ok t)
      → (t' : KustomNode) × (build_kustom_tree F n (kustomization_of s) "" ≡ some (ok t'))
  unfolding build_kustom_tree
  build_kustom_tree-built n kfile d s t (m, e, listed, q) h =
      let build = λ (s : String). build_kustom_tree F n s "" in
      let (ns, f, _) =
        then_run-inv (kind_nodes F build d (entries m))
          (λ children. some (ok (node (shown_name d kfile) kfile children))) t (rw e at h) in
      kind_nodes-built build d (entries m) s ns listed q f

  -- Where kustomizations list one another in a circle, no depth is enough for a tree: the walk, which
  -- has no limit of its own, never comes to an end with one.
  pub build_kustom_tree_circular :
      (InCircle : String → Type 0)
      → ((kfile : String)
          → InCircle kfile
          → (s : String) × Includes kfile s × InCircle (kustomization_of s))
      → (n : ℕ) (kfile d : String) (t : KustomNode) → InCircle kfile
      → build_kustom_tree F n kfile d ≢ some (ok t)
  build_kustom_tree_circular InCircle next zero kfile d t c = λ h. unfold build_kustom_tree in cc
  build_kustom_tree_circular InCircle next (suc n) kfile d t c = λ h.
      let (s, included, c') = next kfile c in
      let (t', built) = build_kustom_tree-built n kfile d s t included h in
      build_kustom_tree_circular InCircle next n (kustomization_of s) "" t' c' built
