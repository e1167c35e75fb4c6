-- ===== src/Kubeconfig/Building/Ending.antt =====
-- Each part of buildOne ends where buildOne does for the parent of the cluster.
use airshipctl.Base.{
  String, ◌==◌, Option, none, some, List, [], ◌∷◌, Option-cases, Bool-cases, Outcome, ok, err,
  crash, ◌≡◌, ◌≢◌, inl, inr, refl,
}
use airshipctl.Base.Runs.{◌>>=◌, lift, run_on_ends, >>=-ends, some-ne-none}
use airshipctl.Clusters.{
  ClusterError, KubeconfigSource, ClusterMap, cluster_sources, parent_cluster,
}
use airshipctl.Kubeconfig.Merging.{ClientCmd, KubeConf, extract_context, Reply}
use airshipctl.Kubeconfig.Files.{Access, Method, Cleanup, from_file}
use airshipctl.Kubeconfig.Building.{
  Builder, Build, of_clusters, on_world, already_built, client_or, client_of, cleaned, file_of,
  from_cluster_api, get_source, try_source, read_secret, with_context, with_file, from_parent,
  build_context, merge_into_site, or_next, try_sources,
}

module _ (C : ClientCmd) (A : Access C) (m : ClusterMap) (from_bundle : Reply String) where
  -- A call that ends with a value or an error from every state.
  abbrev pub Ends : {B : Type 0} → Build C A m from_bundle B → Type 0
  Ends f = (b : Builder C A m from_bundle) → f b ≢ none

  -- The parent of the cluster, if it has one, can be built.
  abbrev pub ParentEnds : (String → Build C A m from_bundle (String × KubeConf C)) → String → Type 0
  ParentEnds build id = (p : String) → parent_cluster id m ≡ ok p → Ends (build p)

  pub bind-Ends :
      {B D : Type 0} (f : Build C A m from_bundle B) (g : B → Build C A m from_bundle D)
      → Ends f
      → ((x : B) → Ends (g x))
      → Ends (f >>= g)
  bind-Ends f g e k b = >>=-ends f g b (e b) k

  pub lift_bind-Ends :
      {B D : Type 0} (r : Reply B) (g : B → Build C A m from_bundle D)
      → ((x : B) → r ≡ ok x → Ends (g x))
      → Ends (lift r >>= g)
  lift_bind-Ends (ok x) g h b = h x refl b
  lift_bind-Ends (err e) g h b = some-ne-none
  lift_bind-Ends (crash k) g h b = some-ne-none

  of_clusters-eq-ok :
      {B : Type 0} (r : Outcome ClusterError B) (x : B) → of_clusters r ≡ ok x → r ≡ ok x
  of_clusters-eq-ok (ok y) x h = cc
  of_clusters-eq-ok (err e) x h = cc
  of_clusters-eq-ok (crash k) x h = cc

  cleaned_ends :
      (cleanup : Cleanup) (x : Option (Reply String × Builder C A m from_bundle))
      → x ≢ none
      → cleaned C A m from_bundle cleanup x ≢ none
  cleaned_ends cleanup none h = absurd (h refl)
  cleaned_ends cleanup (some (r, b)) h = some-ne-none

  on_world-Ends : {B : Type 0} (f : Method C A B) → Ends (on_world C A m from_bundle f)
  on_world-Ends f b = some-ne-none

  client_or-Ends :
      (c : Option A.Client) (file context : String)
      → Ends (client_or C A m from_bundle c file context)
  client_or-Ends (some c) file context = λ b. some-ne-none
  client_or-Ends none file context =
      bind-Ends (on_world C A m from_bundle (A.client_for file context))
        (λ c. λ b. some (ok c, record b { client = some c }))
        (on_world-Ends (A.client_for file context)) (λ c b. some-ne-none)

  with_context-Ends :
      (context : String) (f : Build C A m from_bundle String)
      → Ends f
      → Ends (with_context C A m from_bundle context f)
  with_context-Ends context f e b = run_on_ends (f b) _ (e b) (λ text b'. some-ne-none)

  from_parent-Ends :
      (ref : KubeconfigSource) (built : String × KubeConf C)
      → Ends (from_parent C A m from_bundle ref built)
  unfolding from_parent with_file
  from_parent-Ends ref (context, conf) =
      bind-Ends (file_of C A m from_bundle conf) (with_file C A m from_bundle ref context)
        (λ b. some-ne-none)
        (λ (file, cleanup) b. cleaned_ends cleanup _ (
          bind-Ends (client_of C A m from_bundle file context) (read_secret C A m from_bundle ref)
            (λ b'. client_or-Ends b'.client file context b') (λ c b'. some-ne-none) b))

  module _ (build : String → Build C A m from_bundle (String × KubeConf C)) where
    from_cluster_api-Ends :
        (id : String) (ref : KubeconfigSource)
        → ParentEnds build id
        → Ends (from_cluster_api C A m from_bundle build id ref)
    unfolding from_cluster_api
    from_cluster_api-Ends id ref h =
        lift_bind-Ends (of_clusters (parent_cluster id m))
          (λ parent. build parent >>= from_parent C A m from_bundle ref)
          (λ p e.
            bind-Ends (build p) (from_parent C A m from_bundle ref)
              (h p (of_clusters-eq-ok (parent_cluster id m) p e)) (from_parent-Ends ref))

    get_source-Ends :
        (id : String) (source : KubeconfigSource)
        → ParentEnds build id
        → Ends (get_source C A m from_bundle build id source)
    unfolding get_source
    get_source-Ends id source h b = elim (Bool-cases (source.type == "filesystem")) [
      | inl t ↦ rw t (
          with_context-Ends source.filesystem_context
            (on_world C A m from_bundle (from_file C A source.path))
            (on_world-Ends (from_file C A source.path)) b)
      | inr t ↦ elim (Bool-cases (source.type == "bundle")) [
        | inl u ↦ rw t (
            rw u
              (with_context-Ends source.bundle_context (lift from_bundle) (λ b'. some-ne-none) b))
        | inr u ↦ elim (Bool-cases (source.type == "clusterAPI")) [
          | inl v ↦ rw t (
              rw u (
                rw v (
                  with_context-Ends "" (from_cluster_api C A m from_bundle build id source)
                    (from_cluster_api-Ends id source h) b)))
          | inr v ↦ rw t (rw u (rw v some-ne-none))
        ]
      ]
    ]

    try_source-Ends :
        (id context : String) (source : KubeconfigSource)
        → ParentEnds build id
        → Ends (try_source C A m from_bundle build id context source)
    unfolding try_source
    try_source-Ends id context source h =
        bind-Ends (get_source C A m from_bundle build id source)
          (λ (text, source_context). lift (extract_context C context source_context text))
          (get_source-Ends id source h) (λ t b. some-ne-none)

    or_next-Ends :
        (context : String) (next : Build C A m from_bundle (String × KubeConf C))
        (x : Option (Reply (KubeConf C) × Builder C A m from_bundle))
        → Ends next
        → x ≢ none
        → or_next C A m from_bundle context next x ≢ none
    unfolding merge_into_site
    or_next-Ends context next none n h = absurd (h refl)
    or_next-Ends context next (some (ok conf, b)) n h = some-ne-none
    or_next-Ends context next (some (err e, b)) n h = n b
    or_next-Ends context next (some (crash k, b)) n h = some-ne-none

    try_sources-Ends :
        (id context : String) (sources : List KubeconfigSource)
        → ParentEnds build id
        → Ends (try_sources C A m from_bundle build id context sources)
    unfolding try_sources
    try_sources-Ends id context [] h b = some-ne-none
    try_sources-Ends id context (source ∷ rest) h b =
        or_next-Ends context (try_sources C A m from_bundle build id context rest)
          (try_source C A m from_bundle build id context source b)
          (try_sources-Ends id context rest h) (try_source-Ends id context source h b)

    pub build_context-Ends :
        (id context : String)
        → ParentEnds build id
        → Ends (build_context C A m from_bundle build id context)
    unfolding build_context
    build_context-Ends id context h b =
        elim (Option-cases (already_built C A m from_bundle context b.site_kubeconf)) [
          | inr (conf, e) ↦ rw e some-ne-none
          | inl e ↦ rw e (
              lift_bind-Ends (of_clusters (cluster_sources id m))
                (try_sources C A m from_bundle build id context)
                (λ sources f. try_sources-Ends id context sources h) b)
        ]
