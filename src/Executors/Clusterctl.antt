-- ===== src/Executors/Clusterctl.antt =====
-- clusterctl.go: the executor that runs clusterctl in a container.
pub mod Moving
use airshipctl.Executors.Providers.{init_repo_data}
use airshipctl.Base.{
  String, ◌<>◌, ◌==◌, is_set, Bool, true, false, ◌||◌, Option, none, some, List, [], ◌∷◌, ◌++◌,
  if◌then◌else◌, Outcome, ok, err, crash, Proc, ◌>>=◌ as bind_outcome, ◌≡◌,
}
use airshipctl.Base.GoMap.{GoMap, made, put}
use airshipctl.Base.Procs.{◌>>=◌, ◌>>◌, pure, lift}
use airshipctl.Base.Paths.{join, base, is_rooted}
use airshipctl.Base.Texts.{contains}
use airshipctl.Clusters.{ClusterMap, cluster_kubeconfig_context, parent_cluster}
use airshipctl.Documents.Selectors.{
  Selector, new_clusterctl_container_executor_selector, new_clusterctl_metadata_selector,
  new_deploy_to_k8s_selector,
}
use airshipctl.Documents.Library.{Kustomize, library}
use airshipctl.Documents.Bundles.{
  Bundle, new_bundle_by_path, new_bundle_from_bytes, select_one, select_bundle, write_bundle,
}
use airshipctl.Kubeconfig.Files.{Cleanup}
use airshipctl.Containers.Types.{GenericContainer, StorageMount}
use airshipctl.Phases.Types.{RunOptions}
use airshipctl.Executors.{
  ExecutorError, document_error, cluster_error, kube_error, container_error, library_error,
  invalid_phase, unknown_executor_action, Reply, of, Provider, ClusterctlDocument,
  ClusterctlOptions, Surroundings, ExecutorConfig, deferred, modify, current,
}

-- The option of a kind of provider, where one is given.
abbrev pub provider_option : String × String → List String → List String
provider_option (kind, v) rest = if is_set v then ("--" <> (kind <> ("=" <> v))) ∷ rest else rest

unfoldable pub provider_options : List (String × String) → List String
provider_options [] = []
provider_options (entry ∷ rest) = provider_option entry (provider_options rest)

abbrev pub init_map : ClusterctlDocument → GoMap String
init_map o = made (
    ("bootstrap", o.bootstrap_providers)
    ∷ ("control-plane", o.control_plane_providers)
    ∷ ("infrastructure", o.infrastructure_providers)
    ∷ ("core", o.core_provider)
    ∷ [])

module _ (K : Kustomize) (X : Surroundings K) where
  open X use {World}

  -- ClusterctlExecutor
  pub record Executor : Type 0 where
    pub cluster_name : String
    pub target_path : String
    pub cluster_map : ClusterMap
    pub options : ClusterctlDocument
    pub container : GenericContainer
    pub cctl_opts : ClusterctlOptions

  abbrev pub State : Type 0
  State = Executor × World

  abbrev pub Method : Type 0 → Type 0
  Method A = Proc State ExecutorError A

  abbrev pub on_world : {E A : Type 0} → (E → ExecutorError) → Proc World E A → Method A
  on_world wrap m (e, w) = let (r, w') = m w in (of wrap r, (e, w'))

  -- NewClusterctlExecutor
  unfoldable pub new_clusterctl : ExecutorConfig K → Reply Executor
  unfolding init_repo_data
  new_clusterctl cfg =
      bind_outcome (of library_error (X.to_clusterctl cfg.executor_document)) (λ options.
        bind_outcome (init_repo_data K X cfg.target_path options.providers (made []))
          (λ (providers, components).
            bind_outcome
              (of document_error
                (select_one K new_clusterctl_container_executor_selector cfg.phase_config_bundle))
              (λ doc. bind_outcome (of library_error (X.to_container doc)) (λ container.
                ok (record {
                  cluster_name = cfg.cluster_name;
                  target_path = cfg.target_path;
                  cluster_map = cfg.cluster_map;
                  options = record options { providers = providers };
                  container = container;
                  cctl_opts = record { cmd_options = []; config = ""; components = components };
                })))))

  abbrev pub with_cmd : List String → State → State
  with_cmd options (e, w) = (
    record e {
      cctl_opts = record (e.cctl_opts) { cmd_options = e.cctl_opts.cmd_options ++ options };
    },
    w,
  )

  -- run
  unfoldable pub run_container : Method Unit
  run_container = do
    (e, w) ← current
    opts ← lift (of library_error (X.marshal_options e.cctl_opts))
    modify (λ (e, w). (record e { container = record (e.container) { config = opts } }, w))
    on_world container_error
        (X.run_client "" "" true e.target_path (record (e.container) { config = opts }))

  abbrev pub kubeconfig_mount : String → StorageMount
  kubeconfig_mount path = record {
    mount_type = "bind";
    src = path;
    dst_path = path;
    read_write_mode = false;
  }

  abbrev pub with_mount : String → State → State
  with_mount path (e, w) = (
    record e {
      container = record (e.container) {
        storage_mounts = e.container.storage_mounts ++ (kubeconfig_mount path ∷ []);
      };
    },
    w,
  )

  abbrev pub cleaning : Cleanup → Method Unit
  cleaning cleanup = on_world kube_error (X.clean_up cleanup)

  -- The context of the cluster, after whose error the file is removed.
  abbrev pub context_or_cleanup : Cleanup → Reply String → Method String
  context_or_cleanup cleanup (ok context) = pure context
  context_or_cleanup cleanup (err x) = cleaning cleanup >> lift (err x)
  context_or_cleanup cleanup (crash k) = lift (crash k)

  -- getKubeconfig
  unfoldable pub get_kubeconfig : Method (String × (String × Cleanup))
  get_kubeconfig = do
    (file, cleanup) ← on_world kube_error X.get_file
    (e, w) ← current
    context ←
        context_or_cleanup cleanup
          (of cluster_error (cluster_kubeconfig_context e.cluster_name e.cluster_map))
    modify (with_mount file)
    pure (file, (context, cleanup))

  -- What init does with the kubeconfig.
  unfoldable pub init_on : String → String → Method Unit
  unfolding run_container provider_options
  init_on kubecfg context = do
    modify (with_cmd ("init" ∷ "--kubeconfig" ∷ kubecfg ∷ "--kubeconfig-context" ∷ context ∷ []))
    modify (λ (e, w). with_cmd (provider_options (X.walk (init_map e.options))) (e, w))
    run_container

  unfoldable pub init : Method Unit
  unfolding get_kubeconfig init_on
  init = get_kubeconfig >>= λ (kubecfg, (context, cleanup)) s.
      deferred (cleaning cleanup) (init_on kubecfg context s)

  -- The context of the parent of the cluster.
  unfoldable pub from_context : Executor → Reply String
  from_context e =
      bind_outcome (of cluster_error (parent_cluster e.cluster_name e.cluster_map))
        (λ parent. of cluster_error (cluster_kubeconfig_context parent e.cluster_map))

  abbrev pub move_options : String → String → String → String → List String
  move_options kubecfg from to namespace =
      "move" ∷ "--kubeconfig" ∷ kubecfg ∷ "--kubeconfig-context" ∷ from ∷ "--to-kubeconfig"
      ∷ kubecfg ∷ "--to-kubeconfig-context" ∷ to ∷ "--namespace" ∷ namespace ∷ []

  -- What move does with the kubeconfig.
  unfoldable pub move_on : Bool → String → String → Method Unit
  unfolding from_context run_container
  move_on dry_run kubecfg context = do
    (e, w) ← current
    from ← lift (from_context e)
    modify (with_cmd (move_options kubecfg from context e.options.move_namespace))
    modify (with_cmd (if dry_run then "--dry-run" ∷ [] else []))
    run_container

  unfoldable pub move : Bool → Method Unit
  unfolding get_kubeconfig move_on
  move dry_run = get_kubeconfig >>= λ (kubecfg, (context, cleanup)) s.
      deferred (cleaning cleanup) (move_on dry_run kubecfg context s)

  -- The switch on the action.
  unfoldable pub run_action : Bool → String → Method Unit
  unfolding init move
  run_action dry_run action =
      if action == "init"
      then init
      else if action == "move"
      then move dry_run
      else lift (err (unknown_executor_action action "clusterctl"))

  -- Run
  unfoldable pub run_clusterctl : RunOptions → Method Unit
  unfolding run_action
  run_clusterctl ro = do
    modify (with_cmd (if X.debug_enabled then "-v5" ∷ [] else []))
    (e, w) ← current
    config ← lift (
        of library_error (
          X.marshal_clusterctl e.options.providers e.options.images
            e.options.additional_component_variables))
    modify (λ (e, w). (record e { cctl_opts = record (e.cctl_opts) { config = config } }, w))
    run_action ro.dry_run e.options.action

  -- Validate
  unfoldable pub validate_clusterctl : Executor → Reply Unit
  validate_clusterctl e =
      if e.options.action == ""
      then err (invalid_phase "ClusterctlExecutor.Action is empty")
      else if e.options.action == "init"
      then ok tt
      else if e.options.action == "move"
      then ok tt
      else err (unknown_executor_action e.options.action "")

  -- The texts of the components, without those of the metadata.
  unfoldable pub component_texts : List (String × String) → String
  unfolding contains
  component_texts [] = ""
  component_texts ((path, text) ∷ rest) =
      let more = component_texts rest in
      if contains path "components.yaml" then text <> ("\n---\n" <> more) else more

  -- Render, with what it writes
  unfoldable pub render_clusterctl : Selector → Executor → Reply String
  unfolding component_texts
  render_clusterctl filter e =
      bind_outcome
        (of document_error
          (new_bundle_from_bytes K (component_texts (X.walk e.cctl_opts.components))))
        (λ bundle.
          bind_outcome (of document_error (select_bundle K filter bundle))
            (λ filtered. of document_error (write_bundle K filtered)))
