-- ===== src/Kubeconfig/Building/Sites.antt =====
-- Which contexts the kubeconfig of a site has: those that were built, and all that it had before.
use airshipctl.Base.{
  ℕ, zero, suc, String, ◌==◌, Option, none, some, List, [], ◌∷◌, Outcome-cases, Option-cases,
  Bool-cases, ok, err, crash, ◌≡◌, ◌≢◌, ◌⊎◌, inl, inr, arith, eq_iff, subst,
}
use airshipctl.Base.GoMap.{GoMap, get, put, get-put, get-put_self, made, unmade, GoMap-cases}
use airshipctl.Clusters.{KubeconfigSource, ClusterMap, cluster_kubeconfig_context, cluster_sources}
use airshipctl.Kubeconfig.Merging.{
  ApiContext, ClientCmd, KubeConf, merge_context_api, extract_context, chosen_context, Reply,
}
use airshipctl.Kubeconfig.Files.{Access}
use airshipctl.Kubeconfig.Building.{
  Builder, Build, of_clusters, already_built, build_context, merge_into_site, or_next, try_source,
  try_sources, build_one,
}
use airshipctl.Kubeconfig.Building.Contexts.{IsKept, build_one-Kept}

module _ (C : ClientCmd) where
  -- The kubeconfig has a context of this name.
  abbrev pub HasContext : String → KubeConf C → Type 0
  HasContext name conf = (context : ApiContext) × (get name conf.contexts ≡ some context)

  -- A merge leaves the contexts as they were, or one is written to them; where it succeeds, it is.
  merged_contexts :
      (dest source : String) (src dst : KubeConf C)
      → (((merge_context_api C dest source src dst).1.contexts ≡ dst.contexts)
          × ((merge_context_api C dest source src dst).0 ≢ ok tt))
        ⊎ ((context : ApiContext) × ((merge_context_api C dest source src dst).1.contexts
              ≡ put dest context dst.contexts))
  unfolding merge_context_api
  merged_contexts dest source src dst =
      elim (Outcome-cases (chosen_context C source src.contexts)) [
        | inr (inl (x, e)) ↦ inl (ground arith, λ h. ground arith)
        | inr (inr (k, e)) ↦ inl (ground arith, λ h. ground arith)
        | inl (context, e) ↦ elim (GoMap-cases dst.contexts) [
          | inl f ↦ inl (ground arith, λ h. ground arith)
          | inr (es, f) ↦ elim (Option-cases (get context.auth_info src.auth_infos)) [
            | inl g ↦ inr (context, ground arith)
            | inr (user, g) ↦ elim (GoMap-cases dst.auth_infos) [
              | inl i ↦ inr (context, ground arith)
              | inr (us, i) ↦ elim (Option-cases (get context.cluster src.clusters)) [
                | inl j ↦ inr (context, ground arith)
                | inr (cluster, j) ↦ elim (GoMap-cases dst.clusters) [
                  | inl l ↦ inr (context, ground arith)
                  | inr (ks, l) ↦ inr (context, ground arith)
                ]
              ]
            ]
          ]
        ]
      ]

  -- A context with a name that the kubeconfig does not have cannot be chosen.
  chosen-missing :
      (name : String) (cs : GoMap ApiContext) (context : ApiContext)
      → name ≢ ""
      → get name cs ≡ none
      → chosen_context C name cs ≢ ok context
  unfolding chosen_context
  chosen-missing name unmade context n g = λ h. ground (arith, eq_iff name "")
  chosen-missing name (made []) context n g = λ h. ground (arith, eq_iff name "")
  chosen-missing name (made (e ∷ [])) context n g = λ h. ground (arith, eq_iff name "")
  chosen-missing name (made (e ∷ f ∷ es)) context n g = λ h. ground (arith, eq_iff name "")

  extract-HasContext :
      (name text : String) (site conf : KubeConf C)
      → name ≢ ""
      → C.load text ≡ ok site
      → extract_context C name name text ≡ ok conf
      → HasContext name site
  unfolding extract_context merge_context_api
  extract-HasContext name text site conf n l h = elim (Option-cases (get name site.contexts)) [
    | inr (context, g) ↦ (context, g)
    | inl g ↦ elim (Outcome-cases (chosen_context C name site.contexts)) [
      | inl (context, e) ↦ absurd (chosen-missing name site.contexts context n g e)
      | inr (inl (x, e)) ↦ absurd (ground arith)
      | inr (inr (k, e)) ↦ absurd (ground arith)
    ]
  ]

  merge-keeps-HasContext :
      (name dest source : String) (src dst : KubeConf C)
      → HasContext name dst
      → HasContext name (merge_context_api C dest source src dst).1
  merge-keeps-HasContext name dest source src dst (context, g) =
      elim (merged_contexts dest source src dst) [
        | inl (e, _) ↦ (context, rw e g)
        | inr (new, e) ↦ elim (Bool-cases (dest == name)) [
          | inl q ↦ (new, rw e (ground (arith, get-put dest name new dst.contexts)))
          | inr q ↦ (context, rw e (ground (arith, get-put dest name new dst.contexts)))
        ]
      ]

  merge-adds-HasContext :
      (dest source : String) (src dst : KubeConf C)
      → (merge_context_api C dest source src dst).0 ≡ ok tt
      → HasContext dest (merge_context_api C dest source src dst).1
  merge-adds-HasContext dest source src dst h = elim (merged_contexts dest source src dst) [
    | inl (e, n) ↦ absurd (n h)
    | inr (new, e) ↦ (new, rw e (get-put_self dest new dst.contexts))
  ]

module _ (C : ClientCmd) (A : Access C) (m : ClusterMap) (from_bundle : Reply String) where
  pub HasContext-IsKept : (name : String) → IsKept C A m from_bundle (HasContext C name)
  HasContext-IsKept name = record {
    merge-kept = λ context conf site p. merge-keeps-HasContext C name context context conf site p;
    current-kept = λ site context p. p;
  }

  -- Building a cluster, however it ends, removes no context from the kubeconfig of the site.
  pub build_one-keeps-HasContext :
      (n : ℕ) (id name : String) (b b' : Builder C A m from_bundle)
      (r : Reply (String × KubeConf C))
      → HasContext C name b.site_kubeconf
      → build_one C A m from_bundle n id b ≡ some (r, b')
      → HasContext C name b'.site_kubeconf
  build_one-keeps-HasContext n id name b b' r p h =
      build_one-Kept C A m from_bundle (HasContext C name) (HasContext-IsKept name) n id b b' r p h

  -- clientcmd reads back what it writes.
  module _
      (read_back : (conf : KubeConf C) (text : String)
        → C.write conf ≡ ok text
        → C.load text ≡ ok conf) where
    built-HasContext :
        (name : String) (site conf : KubeConf C)
        → name ≢ ""
        → already_built C A m from_bundle name site ≡ some conf
        → HasContext C name site
    unfolding already_built
    built-HasContext name site conf n h = elim (Outcome-cases (C.write site)) [
      | inr (inl (x, e)) ↦ absurd (ground arith)
      | inr (inr (k, e)) ↦ absurd (ground arith)
      | inl (text, e) ↦ elim (Outcome-cases (extract_context C name name text)) [
        | inl (found, f) ↦ extract-HasContext C name text site found n (read_back site text e) f
        | inr (inl (x, f)) ↦ absurd (ground arith)
        | inr (inr (k, f)) ↦ absurd (ground arith)
      ]
    ]

    -- A build that gives a kubeconfig names the cluster, and the site has its context.
    abbrev Adds : String → Build C A m from_bundle (String × KubeConf C) → Type 0
    Adds name f =
        (b b' : Builder C A m from_bundle) (name' : String) (conf : KubeConf C)
        → f b ≡ some (ok (name', conf), b')
        → (name' ≡ name) × HasContext C name b'.site_kubeconf

    merge_into_site-Adds :
        (name : String) (conf : KubeConf C)
        → Adds name (merge_into_site C A m from_bundle name conf)
    unfolding merge_into_site
    merge_into_site-Adds name conf b b' name' conf' h =
        let merge = merge_context_api C name name conf b.site_kubeconf in
        elim (Outcome-cases merge.0) [
          | inr (inl (x, e)) ↦ absurd (ground arith)
          | inr (inr (k, e)) ↦ absurd (ground arith)
          | inl (u, e) ↦
              let same : merge.1 ≡ b'.site_kubeconf = ground arith in
              (
                ground arith,
                subst (HasContext C name) same
                    (merge-adds-HasContext C name name conf b.site_kubeconf (ground arith)),
              )
        ]

    or_next-Adds :
        (name : String) (next : Build C A m from_bundle (String × KubeConf C))
        (x : Option (Reply (KubeConf C) × Builder C A m from_bundle))
        → Adds name next
        → Adds name (λ b. or_next C A m from_bundle name next x)
    or_next-Adds name next none a b b' name' conf' h = cc
    or_next-Adds name next (some (ok conf, b₁)) a b b' name' conf' h =
        merge_into_site-Adds name conf b₁ b' name' conf' h
    or_next-Adds name next (some (err e, b₁)) a b b' name' conf' h = a b₁ b' name' conf' h
    or_next-Adds name next (some (crash k, b₁)) a b b' name' conf' h = cc

    module _ (build : String → Build C A m from_bundle (String × KubeConf C)) where
      try_sources-Adds :
          (id name : String) (sources : List KubeconfigSource)
          → Adds name (try_sources C A m from_bundle build id name sources)
      unfolding try_sources
      try_sources-Adds id name [] b b' name' conf' h = cc
      try_sources-Adds id name (source ∷ rest) b b' name' conf' h =
          or_next-Adds name (try_sources C A m from_bundle build id name rest)
            (try_source C A m from_bundle build id name source b) (try_sources-Adds id name rest) b
            b' name' conf' h

      build_context-Adds :
          (id name : String) → name ≢ "" → Adds name (build_context C A m from_bundle build id name)
      unfolding build_context
      build_context-Adds id name n b b' name' conf' h =
          elim (Option-cases (already_built C A m from_bundle name b.site_kubeconf)) [
            | inr (conf, e) ↦
                let found = built-HasContext name b.site_kubeconf conf n e in
                let same : b.site_kubeconf ≡ b'.site_kubeconf = ground arith in
                (ground arith, subst (HasContext C name) same found)
            | inl e ↦ elim (Outcome-cases (of_clusters (cluster_sources id m))) [
              | inl (sources, f) ↦ try_sources-Adds id name sources b b' name' conf' (ground arith)
              | inr (inl (x, f)) ↦ absurd (ground arith)
              | inr (inr (k, f)) ↦ absurd (ground arith)
            ]
          ]

    -- Where buildOne gives the kubeconfig of a cluster, its context has the name of the cluster, and
    -- the kubeconfig of the site has that context.
    pub build_one-adds-HasContext :
        (n : ℕ) (id name : String) (conf : KubeConf C) (b b' : Builder C A m from_bundle)
        → id ≢ ""
        → build_one C A m from_bundle n id b ≡ some (ok (name, conf), b')
        → (name ≡ id) × HasContext C id b'.site_kubeconf
    unfolding build_one cluster_kubeconfig_context
    build_one-adds-HasContext zero id name conf b b' ne h = cc
    build_one-adds-HasContext (suc n) id name conf b b' ne h = elim (Option-cases (get id m)) [
      | inl g ↦ absurd (ground arith)
      | inr (c, g) ↦
          build_context-Adds (build_one C A m from_bundle n) id id ne b b' name conf (ground arith)
    ]
