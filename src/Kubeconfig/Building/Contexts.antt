-- ===== src/Kubeconfig/Building/Contexts.antt =====
-- The kubeconfig of the site only grows while it is built, and holds each cluster that was built.
use airshipctl.Base.{
  ℕ, zero, suc, String, ◌==◌, Option, none, some, List, [], ◌∷◌, Option-cases, Bool-cases, ok, err,
  crash, ◌≡◌, inl, inr, refl, arith, subst,
}
use airshipctl.Base.Runs.{◌>>=◌, return, lift, Keeps, >>=-Keeps, lift-Keeps}
use airshipctl.Clusters.{
  KubeconfigSource, ClusterMap, cluster_kubeconfig_context, cluster_sources, parent_cluster,
}
use airshipctl.Kubeconfig.Merging.{
  all_sources_failed, unknown_source_type, ClientCmd, KubeConf, merge_context_api, extract_context,
  Reply,
}
use airshipctl.Kubeconfig.Files.{Access, Method, Cleanup, from_file}
use airshipctl.Kubeconfig.Building.{
  Builder, Build, of_clusters, on_world, already_built, client_or, client_of, cleaned, file_of,
  from_cluster_api, get_source, try_source, read_secret, with_context, with_file, from_parent,
  build_context, merge_into_site, or_next, try_sources, build_one,
}

module _ (C : ClientCmd) (A : Access C) (m : ClusterMap) (from_bundle : Reply String) where
  -- What a merge of any context keeps, and a change of the current context too.
  pub record IsKept (P : KubeConf C → Type 0) : Type 0 where
    pub merge-kept :
        (context : String) (conf site : KubeConf C)
        → P site
        → P (merge_context_api C context context conf site).1
    pub current-kept :
        (site : KubeConf C) (context : String)
        → P site
        → P (record site { current_context = context })

  module _ (P : KubeConf C → Type 0) (kept : IsKept P) where
    abbrev Site : Builder C A m from_bundle → Type 0
    Site b = P b.site_kubeconf

    abbrev Kept : {B : Type 0} → Build C A m from_bundle B → Type 0
    Kept f = Keeps Site f

    on_world-Kept : {B : Type 0} (f : Method C A B) → Kept (on_world C A m from_bundle f)
    on_world-Kept f b b' r p h =
        let same : b.site_kubeconf ≡ b'.site_kubeconf = ground arith in subst P same p

    client_or-Kept :
        (c : Option A.Client) (file context : String)
        → Kept (client_or C A m from_bundle c file context)
    client_or-Kept (some c) file context = lift-Keeps Site (ok c)
    client_or-Kept none file context =
        >>=-Keeps Site (on_world C A m from_bundle (A.client_for file context))
          (λ c. λ b. some (ok c, record b { client = some c }))
          (on_world-Kept (A.client_for file context))
          (λ c b b' r p h.
            let same : b.site_kubeconf ≡ b'.site_kubeconf = ground arith in subst P same p)

    client_of-Kept : (file context : String) → Kept (client_of C A m from_bundle file context)
    client_of-Kept file context b b' r p h = client_or-Kept b.client file context b b' r p h

    cleaned-Kept :
        (cleanup : Cleanup) (x : Option (Reply String × Builder C A m from_bundle))
        (b' : Builder C A m from_bundle) (r : Reply String)
        → ((r₁ : Reply String) (b₁ : Builder C A m from_bundle) → x ≡ some (r₁, b₁) → Site b₁)
        → cleaned C A m from_bundle cleanup x ≡ some (r, b')
        → Site b'
    cleaned-Kept cleanup none b' r k h = cc
    cleaned-Kept cleanup (some (r₁, b₁)) b' r k h =
        let same : b₁.site_kubeconf ≡ b'.site_kubeconf = ground arith in subst P same (k r₁ b₁ refl)

    with_file-Kept :
        (ref : KubeconfigSource) (context : String) (file : String × Cleanup)
        → Kept (with_file C A m from_bundle ref context file)
    unfolding with_file
    with_file-Kept ref context (file, cleanup) b b' r p h =
        let read = client_of C A m from_bundle file context >>= read_secret C A m from_bundle ref in
        cleaned-Kept cleanup (read b) b' r
          (λ r₁ b₁ e.
            >>=-Keeps Site (client_of C A m from_bundle file context)
              (read_secret C A m from_bundle ref) (client_of-Kept file context)
              (λ c b b' r p h.
                let same : b.site_kubeconf ≡ b'.site_kubeconf = ground arith in subst P same p)
              b b₁ r₁ p e)
          h

    from_parent-Kept :
        (ref : KubeconfigSource) (built : String × KubeConf C)
        → Kept (from_parent C A m from_bundle ref built)
    unfolding from_parent
    from_parent-Kept ref (context, conf) =
        >>=-Keeps Site (file_of C A m from_bundle conf) (with_file C A m from_bundle ref context)
          (λ b b' r p h.
            let same : b.site_kubeconf ≡ b'.site_kubeconf = ground arith in subst P same p)
          (with_file-Kept ref context)

    with_context-Kept :
        (context : String) (f : Build C A m from_bundle String)
        → Kept f
        → Kept (with_context C A m from_bundle context f)
    with_context-Kept context f k =
        >>=-Keeps Site f (λ text. return (text, context)) k
          (λ text. lift-Keeps Site (ok (text, context)))

    merge_into_site-Kept :
        (context : String) (conf : KubeConf C)
        → Kept (merge_into_site C A m from_bundle context conf)
    unfolding merge_into_site
    merge_into_site-Kept context conf b b' r p h =
        let same : (merge_context_api C context context conf b.site_kubeconf).1 ≡ b'.site_kubeconf =
          ground arith in
        subst P same (kept.merge-kept context conf b.site_kubeconf p)

    module _ (build : String → Build C A m from_bundle (String × KubeConf C))
        (k : (id : String) → Kept (build id)) where
      from_cluster_api-Kept :
          (id : String) (ref : KubeconfigSource)
          → Kept (from_cluster_api C A m from_bundle build id ref)
      unfolding from_cluster_api
      from_cluster_api-Kept id ref =
          >>=-Keeps Site (lift (of_clusters (parent_cluster id m)))
            (λ parent. build parent >>= from_parent C A m from_bundle ref)
            (lift-Keeps Site (of_clusters (parent_cluster id m)))
            (λ parent.
              >>=-Keeps Site (build parent) (from_parent C A m from_bundle ref) (k parent)
                (from_parent-Kept ref))

      get_source-Kept :
          (id : String) (source : KubeconfigSource)
          → Kept (get_source C A m from_bundle build id source)
      unfolding get_source
      get_source-Kept id source = elim (Bool-cases (source.type == "filesystem")) [
        | inl t ↦ rw t (
            with_context-Kept source.filesystem_context
              (on_world C A m from_bundle (from_file C A source.path))
              (on_world-Kept (from_file C A source.path)))
        | inr t ↦ elim (Bool-cases (source.type == "bundle")) [
          | inl u ↦ rw t (
              rw u (
                with_context-Kept source.bundle_context (lift from_bundle)
                  (lift-Keeps Site from_bundle)))
          | inr u ↦ elim (Bool-cases (source.type == "clusterAPI")) [
            | inl v ↦ rw t (
                rw u (
                  rw v (
                    with_context-Kept "" (from_cluster_api C A m from_bundle build id source)
                      (from_cluster_api-Kept id source))))
            | inr v ↦ rw t (rw u (rw v (lift-Keeps Site (err (unknown_source_type source.type)))))
          ]
        ]
      ]

      try_source-Kept :
          (id context : String) (source : KubeconfigSource)
          → Kept (try_source C A m from_bundle build id context source)
      unfolding try_source
      try_source-Kept id context source =
          >>=-Keeps Site (get_source C A m from_bundle build id source)
            (λ (text, source_context). lift (extract_context C context source_context text))
            (get_source-Kept id source)
            (λ (text, source_context).
              lift-Keeps Site (extract_context C context source_context text))

      or_next-Kept :
          (context : String) (next : Build C A m from_bundle (String × KubeConf C))
          (x : Option (Reply (KubeConf C) × Builder C A m from_bundle))
          (b' : Builder C A m from_bundle) (r : Reply (String × KubeConf C))
          → Kept next
          → ((r₁ : Reply (KubeConf C)) (b₁ : Builder C A m from_bundle)
              → x ≡ some (r₁, b₁)
              → Site b₁)
          → or_next C A m from_bundle context next x ≡ some (r, b')
          → Site b'
      or_next-Kept context next none b' r n s h = cc
      or_next-Kept context next (some (ok conf, b)) b' r n s h =
          merge_into_site-Kept context conf b b' r (s (ok conf) b refl) h
      or_next-Kept context next (some (err e, b)) b' r n s h = n b b' r (s (err e) b refl) h
      or_next-Kept context next (some (crash c, b)) b' r n s h =
          let same : b.site_kubeconf ≡ b'.site_kubeconf = ground arith in
          subst P same (s (crash c) b refl)

      try_sources-Kept :
          (id context : String) (sources : List KubeconfigSource)
          → Kept (try_sources C A m from_bundle build id context sources)
      unfolding try_sources
      try_sources-Kept id context [] b b' r p h =
          lift-Keeps Site (err (all_sources_failed id)) b b' r p h
      try_sources-Kept id context (source ∷ rest) b b' r p h =
          or_next-Kept context (try_sources C A m from_bundle build id context rest)
            (try_source C A m from_bundle build id context source b) b' r
            (try_sources-Kept id context rest)
            (λ r₁ b₁ e. try_source-Kept id context source b b₁ r₁ p e) h

      build_context-Kept :
          (id context : String) → Kept (build_context C A m from_bundle build id context)
      unfolding build_context
      build_context-Kept id context b b' r p h =
          elim (Option-cases (already_built C A m from_bundle context b.site_kubeconf)) [
            | inr (conf, e) ↦ lift-Keeps Site (ok (context, conf)) b b' r p (rw e at h)
            | inl e ↦
                >>=-Keeps Site (lift (of_clusters (cluster_sources id m)))
                  (try_sources C A m from_bundle build id context)
                  (lift-Keeps Site (of_clusters (cluster_sources id m)))
                  (try_sources-Kept id context) b b' r p (rw e at h)
          ]

    -- What a merge keeps of the kubeconfig of the site, building a cluster keeps.
    pub build_one-Kept : (n : ℕ) (id : String) → Kept (build_one C A m from_bundle n id)
    unfolding build_one
    build_one-Kept zero id b b' r p h = cc
    build_one-Kept (suc n) id b b' r p h =
        >>=-Keeps Site (lift (of_clusters (cluster_kubeconfig_context id m)))
          (build_context C A m from_bundle (build_one C A m from_bundle n) id)
          (lift-Keeps Site (of_clusters (cluster_kubeconfig_context id m)))
          (build_context-Kept (build_one C A m from_bundle n) (build_one-Kept n) id) b b' r p h
