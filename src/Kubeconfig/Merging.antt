-- ===== src/Kubeconfig/Merging.antt =====
-- builder.go, mergeContextAPI and extractContext: one context is taken out of a kubeconfig and put
-- into another. clientcmd, with the users and clusters of a kubeconfig, is the parameter `ClientCmd`.
pub mod Contexts
use airshipctl.Base.{
  ℕ, suc, String, ◌<>◌, ◌==◌, ltb, nat_eqb, length, Bool, true, false, ◌&&◌, Option, none, some,
  List, [], ◌∷◌, if◌then◌else◌, Outcome, ok, err, crash, ◌>>=◌ as bind_outcome, Proc, found_or, ◌≡◌,
}
use airshipctl.Base.Procs.{◌>>=◌, ◌>>◌, pure, lift}
use airshipctl.Base.GoMap.{GoMap, made, get, assign, entries}
use airshipctl.Clusters.{ClusterError}
use airshipctl.Documents.Selectors.{DocumentError}

pub data KubeError : Type 0 where
  cluster_error : ClusterError → KubeError
  document_error : DocumentError → KubeError
  all_sources_failed merge_failed unknown_source_type malformed_kubeconfig : String → KubeError
  cluster_name_empty : KubeError
  -- an error of the file system, of clientcmd or of Kubernetes
  library_error : String → KubeError

abbrev pub Reply : Type 0 → Type 0
Reply A = Outcome KubeError A

-- api.Context, as far as the code looks into it
pub record ApiContext : Type 0 where
  pub cluster : String
  pub auth_info : String
  pub namespace : String

-- api.Config. The context that a key leads to is never nil: clientcmd makes them.
pub record ApiConfig (AuthInfo ClusterInfo : Type 0) : Type 0 where
  pub contexts : GoMap ApiContext
  pub auth_infos : GoMap AuthInfo
  pub clusters : GoMap ClusterInfo
  pub current_context : String

pub record ClientCmd : Type 1 where
  pub AuthInfo : Type 0
  pub ClusterInfo : Type 0
  -- clientcmd.Write and clientcmd.Load
  pub write : ApiConfig AuthInfo ClusterInfo → Reply String
  pub load : String → Reply (ApiConfig AuthInfo ClusterInfo)

module _ (C : ClientCmd) where
  open C use {AuthInfo, ClusterInfo}

  abbrev pub KubeConf : Type 0
  KubeConf = ApiConfig AuthInfo ClusterInfo

  abbrev pub empty_config : KubeConf
  empty_config = record {
    contexts = made [];
    auth_infos = made [];
    clusters = made [];
    current_context = "";
  }

  abbrev missing : String → String → KubeError
  missing kind name =
      merge_failed (kind <> (" '" <> (name <> "' does not exist in source kubeconfig")))

  -- The one context there is, where no name is given.
  abbrev sole : String → List (String × ApiContext) → Reply ApiContext
  sole source ((name, context) ∷ []) =
      if source == "" then ok context else err (missing "source context" source)
  sole source es = err (missing "source context" source)

  -- The context of this name, or the only one if the name is empty.
  unfoldable pub chosen_context : String → GoMap ApiContext → Reply ApiContext
  chosen_context source contexts =
      if ltb 1 (length (entries contexts)) && (source == "")
      then err (
          merge_failed
            "kubeconfig has multiple contexts, don't know which to choose, please specify contextName in clusterMap cluster kubeconfig source")
      else elim (get source contexts) [
        | some context ↦ ok context
        | none ↦ sole source (entries contexts)
      ]

  -- What becomes of the destination where an entry is assigned in one of its maps.
  abbrev assigned :
      {V : Type 0} → Reply (GoMap V) → (GoMap V → KubeConf) → KubeConf → Reply Unit × KubeConf
  assigned (ok m) with_map dst = (ok tt, with_map m)
  assigned (err e) with_map dst = (err e, dst)
  assigned (crash k) with_map dst = (crash k, dst)

  abbrev set_context : String → ApiContext → Proc KubeConf KubeError Unit
  set_context name context dst =
      assigned (assign name context dst.contexts) (λ m. record dst { contexts = m }) dst

  abbrev set_auth_info : String → AuthInfo → Proc KubeConf KubeError Unit
  set_auth_info name user dst =
      assigned (assign name user dst.auth_infos) (λ m. record dst { auth_infos = m }) dst

  abbrev set_cluster : String → ClusterInfo → Proc KubeConf KubeError Unit
  set_cluster name cluster dst =
      assigned (assign name cluster dst.clusters) (λ m. record dst { clusters = m }) dst

  -- mergeContextAPI, which changes the destination also where it fails later
  unfoldable pub merge_context_api : String → String → KubeConf → Proc KubeConf KubeError Unit
  unfolding chosen_context
  merge_context_api dest source src = do
    context ← lift (chosen_context source src.contexts)
    set_context dest context
    user ← lift (found_or (get context.auth_info src.auth_infos) (missing "user" context.auth_info))
    set_auth_info context.auth_info user
    cluster ← lift (found_or (get context.cluster src.clusters) (missing "cluster" context.cluster))
    set_cluster context.cluster cluster

  -- extractContext
  unfoldable pub extract_context : String → String → String → Reply KubeConf
  unfolding merge_context_api
  extract_context dest source text = bind_outcome (C.load text) (λ src.
      let (res, dst) = merge_context_api dest source src empty_config in
      bind_outcome res (λ _. ok dst))
