-- ===== src/Kubeconfig/Merging/Contexts.antt =====
-- What a merge adds to a kubeconfig, and what it keeps.
use airshipctl.Base.{String, some, List, Option-cases, Outcome-cases, ok, ◌≡◌, ◌↔◌, inl, inr, arith}
use airshipctl.Base.GoMap.{made, get, put}
use airshipctl.Kubeconfig.Merging.{
  ApiContext, ClientCmd, KubeConf, chosen_context, merge_context_api,
}

module _ (C : ClientCmd) where
  -- All three maps of a kubeconfig can be written to.
  pub record IsMade (conf : KubeConf C) : Type 0 where
    pub contexts_made : (es : List (String × ApiContext)) × (conf.contexts ≡ made es)
    pub auth_infos_made : (es : List (String × C.AuthInfo)) × (conf.auth_infos ≡ made es)
    pub clusters_made : (es : List (String × C.ClusterInfo)) × (conf.clusters ≡ made es)

  -- The destination with the context, its user and its cluster.
  abbrev pub merged : String → ApiContext → C.AuthInfo → C.ClusterInfo → KubeConf C → KubeConf C
  merged dest context user cluster dst = record dst {
    contexts = put dest context dst.contexts;
    auth_infos = put context.auth_info user dst.auth_infos;
    clusters = put context.cluster cluster dst.clusters;
  }

  -- A merge succeeds exactly if the context is chosen and its user and its cluster are in the source,
  -- and then these three are what it adds or replaces; all other entries stay.
  pub merge_context_api-eq-ok :
      (dest source : String) (src dst dst' : KubeConf C)
      → IsMade dst
      → (merge_context_api C dest source src dst ≡ (ok tt, dst')) ↔ (
          (context : ApiContext) × (user : C.AuthInfo) × (cluster : C.ClusterInfo) × (chosen_context
              C source src.contexts
            ≡ ok context)
          × (get context.auth_info src.auth_infos ≡ some user)
          × (get context.cluster src.clusters ≡ some cluster)
          × (dst' ≡ merged dest context user cluster dst))
  unfolding merge_context_api
  merge_context_api-eq-ok dest source src dst dst' w =
      let (cs, e₁) = w.contexts_made in
      let (us, e₂) = w.auth_infos_made in
      let (ks, e₃) = w.clusters_made in
      (
        λ h. elim (Outcome-cases (chosen_context C source src.contexts)) [
          | inr (inl (x, e)) ↦ absurd (ground arith)
          | inr (inr (k, e)) ↦ absurd (ground arith)
          | inl (context, e) ↦ elim (Option-cases (get context.auth_info src.auth_infos)) [
            | inl f ↦ absurd (ground arith)
            | inr (user, f) ↦ elim (Option-cases (get context.cluster src.clusters)) [
              | inl g ↦ absurd (ground arith)
              | inr (cluster, g) ↦ (context, user, cluster, e, f, g, ground arith)
            ]
          ]
        ],
        λ (context, user, cluster, e, f, g, same). ground arith,
      )
