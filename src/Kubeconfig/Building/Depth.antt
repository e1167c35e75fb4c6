-- ===== src/Kubeconfig/Building/Depth.antt =====
-- buildOne ends where the parents of the cluster lead to a root, and need not end where they do not.
use airshipctl.Base.{
  ℕ, zero, suc, ◌+◌, ◌≤◌, ◌<◌, String, ◌==◌, Bool, Option, none, some, List, [], ◌∷◌, if◌then◌else◌,
  All, map, Bool-cases, ok, ◌≡◌, ◌≢◌, ◌⊎◌, inl, inr, refl, arith, eq_iff, subst,
}
use airshipctl.Base.GoMap.{get, entries, value_at}
use airshipctl.Base.Runs.{some-ne-none}
use airshipctl.Clusters.{
  Cluster, KubeconfigSource, ClusterMap, all_clusters, cluster_at, cluster_kubeconfig_context,
  cluster_sources, parent_cluster, validate_cluster_map,
}
use airshipctl.Clusters.Roots.{Rooted, top, below, IsRooted, validate_cluster_map-eq-ok}
use airshipctl.Kubeconfig.Merging.{ClientCmd, KubeConf, Reply}
use airshipctl.Kubeconfig.Files.{Access}
use airshipctl.Kubeconfig.Building.{
  Builder, Build, of_clusters, already_built, from_cluster_api, get_source, try_source,
  build_context, try_sources, build_one, built_one, build_all, build_kubeconfig,
}
use airshipctl.Kubeconfig.Building.Ending.{
  Ends, ParentEnds, bind-Ends, lift_bind-Ends, build_context-Ends,
}

module _ (C : ClientCmd) (A : Access C) (m : ClusterMap) (from_bundle : Reply String) where
  parent_of_top :
      (c : Cluster) (id p : String)
      → get id m ≡ some (some c)
      → c.parent ≡ ""
      → parent_cluster id m ≢ ok p
  unfolding parent_cluster cluster_at
  parent_of_top c id p g e h = ground (arith, eq_iff c.parent "")

  parent_below :
      (c : Cluster) (id p : String)
      → get id m ≡ some (some c)
      → parent_cluster id m ≡ ok p
      → p ≡ c.parent
  unfolding parent_cluster cluster_at
  parent_below c id p g h = elim (Bool-cases (c.parent == "")) [
    | inl k ↦ absurd (ground arith)
    | inr k ↦ ground arith
  ]

  build_one_step :
      (n : ℕ) (id : String)
      → ParentEnds C A m from_bundle (build_one C A m from_bundle n) id
      → Ends C A m from_bundle (build_one C A m from_bundle (suc n) id)
  unfolding build_one
  build_one_step n id h =
      lift_bind-Ends C A m from_bundle (of_clusters (cluster_kubeconfig_context id m))
        (build_context C A m from_bundle (build_one C A m from_bundle n) id)
        (λ context e.
          build_context-Ends C A m from_bundle (build_one C A m from_bundle n) id context h)

  -- Where the parents of a cluster lead to a root, buildOne ends for it, within one round more than
  -- there are clusters above it, whatever it finds built and whatever the sources give.
  pub build_one_ends :
      (n d : ℕ) (id : String) (b : Builder C A m from_bundle)
      → Rooted m d id
      → d < n
      → build_one C A m from_bundle n id b ≢ none
  build_one_ends zero d id b r l = absurd (omega arith)
  build_one_ends (suc n) _ id b (top c g e) l =
      build_one_step n id (λ p q b'. absurd (parent_of_top c id p g e q)) b
  build_one_ends (suc n) _ id b (below {d = d} c g e r) l =
      build_one_step n id
        (λ p q b'. rw (parent_below c id p g q) (build_one_ends n d c.parent b' r (omega arith))) b

  -- A cluster that is not in the map is refused at once.
  unknown-Ends :
      (n : ℕ) (id : String)
      → get id m ≡ none
      → Ends C A m from_bundle (build_one C A m from_bundle (suc n) id)
  unfolding build_one cluster_kubeconfig_context
  unknown-Ends n id g b = ground arith

  -- The cluster is not in the map, or its parents lead to a root.
  abbrev Known : String → Type 0
  Known id = (get id m ≡ none) ⊎ IsRooted m id

  -- From some fuel on.
  abbrev EndsFrom : ℕ → (ℕ → Builder C A m from_bundle → Type 0) → Type 0
  EndsFrom k P = (n : ℕ) (b : Builder C A m from_bundle) → k ≤ n → P n b

  Known-ends :
      (id : String)
      → Known id
      → (k : ℕ) × EndsFrom k (λ n b. build_one C A m from_bundle n id b ≢ none)
  Known-ends id (inr (d, r)) = (suc d, λ n b l. build_one_ends n d id b r (omega arith))
  Known-ends id (inl g) = (1, from_one)
    where
      from_one : EndsFrom 1 (λ n b. build_one C A m from_bundle n id b ≢ none)
      from_one zero b l = absurd (omega arith)
      from_one (suc n) b l = unknown-Ends n id g b

  built_one_ends :
      (only_one : Bool) (x : Option (Reply (String × KubeConf C) × Builder C A m from_bundle))
      → x ≢ none
      → built_one C A m from_bundle only_one x ≢ none
  built_one_ends only_one none h = absurd (h refl)
  built_one_ends only_one (some (r, b)) h = some-ne-none

  build_all_ends :
      (only_one : Bool) (ids : List String)
      → All Known ids
      → (k : ℕ) × EndsFrom k (λ n b. build_all C A m from_bundle n only_one ids b ≢ none)
  unfolding build_all
  build_all_ends only_one [] h = (0, λ n b l. some-ne-none)
  build_all_ends only_one (id ∷ ids) (h, hs) =
      let (k, first) = Known-ends id h in
      let (k', others) = build_all_ends only_one ids hs in
      (
        k + k',
        λ n b l.
            bind-Ends C A m from_bundle
              (λ b. built_one C A m from_bundle only_one (build_one C A m from_bundle n id b))
              (λ _. build_all C A m from_bundle n only_one ids)
              (λ b'. built_one_ends only_one _ (first n b' (omega arith)))
              (λ u b'. others n b' (omega arith)) b,
      )

  IsRooted-at :
      (es : List (String × Option Cluster)) (id : String)
      → All (IsRooted m) (map (λ (e : String × Option Cluster). e.0) es)
      → (value_at es id ≡ none) ⊎ IsRooted m id
  unfolding value_at
  IsRooted-at [] id h = inl refl
  IsRooted-at (e ∷ es) id (h, hs) = elim (Bool-cases (e.0 == id)) [
    | inl q ↦ inr (subst (IsRooted m) ((eq_iff e.0 id).0 q) h)
    | inr q ↦ elim (IsRooted-at es id hs) [ inl g ↦ inl (ground arith) | inr r ↦ inr r ]
  ]

  All-Known : (ids : List String) → validate_cluster_map m ≡ some (ok tt) → All Known ids
  unfolding get
  All-Known [] v = tt
  All-Known (id ∷ ids) v =
      (IsRooted-at (entries m) id ((validate_cluster_map-eq-ok m).0 v), All-Known ids v)

  -- On a map that ValidateClusterMap accepts, building a kubeconfig ends for the whole site and for
  -- any names, from some number of rounds on.
  pub build_kubeconfig_ends :
      (site_wide : Bool) (cluster_names : List String)
      → validate_cluster_map m ≡ some (ok tt)
      → (k : ℕ) × ((n : ℕ) (b : Builder C A m from_bundle)
          → k ≤ n
          → build_kubeconfig C A m from_bundle n site_wide cluster_names b ≢ none)
  unfolding build_kubeconfig
  build_kubeconfig_ends site_wide cluster_names v =
      let ids = if site_wide then all_clusters m else cluster_names in
      build_all_ends _ ids (All-Known ids v)

  module _ (c : Cluster) (api : KubeconfigSource) (rest : List KubeconfigSource) (id : String)
      (there : get id m ≡ some (some c)) (own_parent : c.parent ≡ id) (named : id ≢ "")
      (listed : c.sources ≡ api ∷ rest) (through_api : api.type ≡ "clusterAPI") where
    own_context : cluster_kubeconfig_context id m ≡ ok id
    unfolding cluster_kubeconfig_context
    own_context = ground arith

    own_sources : cluster_sources id m ≡ ok (api ∷ rest)
    unfolding cluster_sources cluster_at
    own_sources = ground arith

    parent_is_own : parent_cluster id m ≡ ok id
    unfolding parent_cluster cluster_at
    parent_is_own = ground (arith, eq_iff c.parent "")

    source_is_own :
        (build : String → Build C A m from_bundle (String × KubeConf C))
        (b : Builder C A m from_bundle)
        → build id b ≡ none
        → get_source C A m from_bundle build id api b ≡ none
    unfolding get_source from_cluster_api
    source_is_own build b h = rw (through_api, parent_is_own) (ground arith)

    -- A cluster that is its own parent and is to be taken from it: unless it is built already, no
    -- number of rounds is enough for it.
    pub build_one_circular :
        (b : Builder C A m from_bundle)
        → already_built C A m from_bundle id b.site_kubeconf ≡ none
        → (n : ℕ) → build_one C A m from_bundle n id b ≡ none
    unfolding build_one build_context try_sources try_source
    build_one_circular b new zero = refl
    build_one_circular b new (suc n) =
        let again = build_one_circular b new n in
        let source = source_is_own (build_one C A m from_bundle n) b again in
        rw (own_context, new, own_sources) (ground (arith, source))
