-- ===== src/Kubeconfig/Building.antt =====
-- builder.go: the kubeconfig of a site, merged from the sources of its clusters. A cluster that is
-- managed through Cluster API takes its kubeconfig from the cluster that is its parent.
pub mod Ending
pub mod Depth
pub mod Contexts
pub mod Sites
pub mod Whole
use airshipctl.Base.{
  ℕ, zero, suc, String, ◌<>◌, ◌==◌, nat_eqb, length, Bool, true, false, not, ◌&&◌, Option, none,
  some, List, [], ◌∷◌, if◌then◌else◌, Outcome, ok, err, crash, ◌>>=◌ as bind_outcome, Proc, ◌≡◌,
}
use airshipctl.Base.Runs.{Run, ◌>>=◌, ◌>>◌, return, proc, lift, run_on}
use airshipctl.Clusters.{
  KubeconfigSource, ClusterMap, all_clusters, cluster_kubeconfig_context, cluster_sources,
  parent_cluster,
}
use airshipctl.Clusters.{Reply as ClusterReply}
use airshipctl.Kubeconfig.Merging.{
  KubeError, cluster_error, all_sources_failed, unknown_source_type, ClientCmd, KubeConf,
  empty_config, merge_context_api, extract_context, Reply,
}
use airshipctl.Kubeconfig.Files.{
  Access, Method, KubeConfig, Saved, Cleanup, get_file, deferred, from_file, from_config,
  from_secret, GetKubeconfigOptions,
}

abbrev pub of_clusters : {A : Type 0} → ClusterReply A → Reply A
of_clusters (ok a) = ok a
of_clusters (err e) = err (cluster_error e)
of_clusters (crash k) = crash k

module _ (C : ClientCmd) (A : Access C) (m : ClusterMap) (from_bundle : Reply String) where
  open A use {World, Client}

  -- Builder, as far as building changes it
  pub record Builder : Type 0 where
    pub client : Option Client
    pub site_kubeconf : KubeConf C
    pub world : World

  abbrev pub Build : Type 0 → Type 0
  Build B = Run Builder KubeError B

  abbrev pub on_world : {B : Type 0} → Method C A B → Build B
  on_world f b = let (r, w) = f b.world in some (r, record b { world = w })

  -- `_, err` of alreadyBuilt: the context as a kubeconfig, where it can be taken out
  abbrev found_built : Reply (KubeConf C) → Option (KubeConf C)
  found_built (ok conf) = some conf
  found_built r = none

  unfoldable pub already_built : String → KubeConf C → Option (KubeConf C)
  already_built context site =
      found_built (bind_outcome (C.write site) (extract_context C context context))

  -- The client of the builder, which is made for the first parent that is asked for a secret.
  abbrev pub client_or : Option Client → String → String → Build Client
  client_or (some c) file context = return c
  client_or none file context =
      on_world (A.client_for file context) >>= λ c. λ b. some (ok c, record b { client = some c })

  abbrev pub client_of : String → String → Build Client
  client_of file context b = client_or b.client file context b

  -- The deferred cleanup of fromClusterAPI.
  abbrev pub cleaned : Cleanup → Option (Reply String × Builder) → Option (Reply String × Builder)
  cleaned cleanup none = none
  cleaned cleanup (some (r, b)) =
      let (r', w) = deferred C A cleanup (r, b.world) in some (r', record b { world = w })

  -- GetFile of a kubeconfig that was just made from another.
  abbrev pub file_of : KubeConf C → Build (String × Cleanup)
  file_of conf = on_world (λ w.
      let (r, s) =
        get_file C A (record { path = ""; dump_root = ""; source = from_config C A conf })
          (record { saved_bytes = ""; world = w }) in
      (r, s.world))

  -- The secret that holds the kubeconfig of a cluster, read through a client.
  abbrev pub read_secret : KubeconfigSource → Client → Build String
  read_secret ref c = on_world (
      from_secret C A c (record {
        timeout = ref.timeout;
        managed_cluster_namespace = ref.namespace;
        managed_cluster_name = ref.name;
      }))

  unfoldable pub with_file : KubeconfigSource → String → String × Cleanup → Build String
  with_file ref parent_context (file, cleanup) b =
      cleaned cleanup ((client_of file parent_context >>= read_secret ref) b)

  -- What follows once there is a kubeconfig of the parent.
  unfoldable pub from_parent : KubeconfigSource → String × KubeConf C → Build String
  unfolding with_file
  from_parent ref (parent_context, parent_kubeconf) =
      file_of parent_kubeconf >>= with_file ref parent_context

  -- fromClusterAPI; `build` is buildOne, for the parent.
  unfoldable pub from_cluster_api :
      (String → Build (String × KubeConf C)) → String → KubeconfigSource → Build String
  unfolding from_parent
  from_cluster_api build cluster_name ref = do
    parent ← lift (of_clusters (parent_cluster cluster_name m))
    built ← build parent
    from_parent ref built

  abbrev pub with_context : String → Build String → Build (String × String)
  with_context context f = f >>= λ text. return (text, context)

  -- trySource: what is got, and the context to take out of it.
  unfoldable pub get_source :
      (String → Build (String × KubeConf C)) → String → KubeconfigSource → Build (String × String)
  unfolding from_cluster_api
  get_source build cluster_id source =
      if source.type == "filesystem"
      then with_context source.filesystem_context (on_world (from_file C A source.path))
      else if source.type == "bundle"
      then with_context source.bundle_context (lift from_bundle)
      else if source.type == "clusterAPI"
      then with_context "" (from_cluster_api build cluster_id source)
      else lift (err (unknown_source_type source.type))

  unfoldable pub try_source :
      (String → Build (String × KubeConf C))
      → String
      → String
      → KubeconfigSource
      → Build (KubeConf C)
  unfolding get_source
  try_source build cluster_id dst_context source = do
    (text, source_context) ← get_source build cluster_id source
    lift (extract_context C dst_context source_context text)

  -- The context of the cluster is merged into the kubeconfig of the site.
  unfoldable pub merge_into_site : String → KubeConf C → Build (String × KubeConf C)
  merge_into_site context conf b =
      let (r, site) = merge_context_api C context context conf b.site_kubeconf in
      some (bind_outcome r (λ _. ok (context, conf)), record b { site_kubeconf = site })

  -- A source that fails is passed over, whatever the error.
  abbrev pub or_next :
      String
      → Build (String × KubeConf C)
      → Option (Reply (KubeConf C) × Builder)
      → Option (Reply (String × KubeConf C) × Builder)
  or_next context next none = none
  or_next context next (some (ok conf, b)) = merge_into_site context conf b
  or_next context next (some (err e, b)) = next b
  or_next context next (some (crash k, b)) = some (crash k, b)

  -- The loop over the sources.
  unfoldable pub try_sources :
      (String → Build (String × KubeConf C))
      → String
      → String
      → List KubeconfigSource
      → Build (String × KubeConf C)
  unfolding try_source merge_into_site
  try_sources build cluster_id context [] = lift (err (all_sources_failed cluster_id))
  try_sources build cluster_id context (source ∷ rest) = λ b.
      or_next context (try_sources build cluster_id context rest)
        (try_source build cluster_id context source b)

  -- What is already built is used, and nothing else is done.
  abbrev pub or_built :
      String → Option (KubeConf C) → Build (String × KubeConf C) → Build (String × KubeConf C)
  or_built context (some conf) otherwise = return (context, conf)
  or_built context none otherwise = otherwise

  -- buildOne, once the name of the context is known.
  unfoldable pub build_context :
      (String → Build (String × KubeConf C)) → String → String → Build (String × KubeConf C)
  unfolding already_built try_sources
  build_context build cluster_id context b =
      or_built context (already_built context b.site_kubeconf)
        (lift (of_clusters (cluster_sources cluster_id m)) >>= try_sources build cluster_id context)
        b

  -- buildOne, up to so many clusters above this one; `none` where there are more.
  unfoldable pub build_one : ℕ → String → Build (String × KubeConf C)
  unfolding build_context
  build_one zero cluster_id b = none
  build_one (suc n) cluster_id b =
      (lift (of_clusters (cluster_kubeconfig_context cluster_id m))
          >>= build_context (build_one n) cluster_id)
        b

  -- The context of the only cluster that is wanted is the current one, and is "" where that failed.
  abbrev context_of : Reply (String × KubeConf C) → String
  context_of (ok (context, conf)) = context
  context_of r = ""

  abbrev pub with_current : Bool → Reply (String × KubeConf C) → Builder → Builder
  with_current only_one r b =
      if only_one
      then record b { site_kubeconf = record (b.site_kubeconf) { current_context = context_of r } }
      else b

  -- `if IsErrAllSourcesFailedErr(err) { continue } else if err != nil { return err }`
  abbrev pub unless_all_failed : Reply (String × KubeConf C) → Reply Unit
  unless_all_failed (ok c) = ok tt
  unless_all_failed (err (all_sources_failed name)) = ok tt
  unless_all_failed (err e) = err e
  unless_all_failed (crash k) = crash k

  abbrev pub built_one :
      Bool → Option (Reply (String × KubeConf C) × Builder) → Option (Reply Unit × Builder)
  built_one only_one none = none
  built_one only_one (some (r, b)) = some (unless_all_failed r, with_current only_one r b)

  -- The loop of buildKubeconfig.
  unfoldable pub build_all : ℕ → Bool → List String → Build Unit
  unfolding build_one
  build_all n only_one [] = return tt
  build_all n only_one (cluster_id ∷ rest) = do
    λ b. built_one only_one (build_one n cluster_id b)
    build_all n only_one rest

  unfoldable pub build_kubeconfig : ℕ → Bool → List String → Build Unit
  unfolding build_all
  build_kubeconfig n site_wide cluster_names =
      build_all n (not site_wide && nat_eqb (length cluster_names) 1)
        (if site_wide then all_clusters m else cluster_names)

  -- build, which Build hands to NewKubeConfig as the source
  unfoldable pub build : ℕ → Bool → List String → Build String
  unfolding build_kubeconfig
  build n site_wide cluster_names = do
    build_kubeconfig n site_wide cluster_names
    λ b. some (C.write b.site_kubeconf, b)

  -- NewBuilder
  abbrev pub new_builder : World → Builder
  new_builder w = record { client = none; site_kubeconf = empty_config C; world = w }
