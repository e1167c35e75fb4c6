-- ===== src/Executors/Generic.antt =====
-- container.go: the executor that runs a container on the documents of a phase.
use airshipctl.Base.{
  String, ◌<>◌, ◌==◌, is_set, Bool, true, false, Option, none, some, [], ◌∷◌, ◌++◌, if◌then◌else◌,
  ok, err, Proc, ◌>>=◌ as bind_outcome,
}
use airshipctl.Base.Procs.{◌>>=◌, ◌>>◌, pure, lift}
use airshipctl.Base.Paths.{join}
use airshipctl.Clusters.{ClusterMap, cluster_kubeconfig_context}
use airshipctl.Documents.Selectors.{by_object_reference}
use airshipctl.Documents.Library.{Kustomize, library}
use airshipctl.Documents.Bundles.{Bundle, new_bundle_from_bytes, select_one, write_bundle}
use airshipctl.Kubeconfig.Files.{Cleanup}
use airshipctl.Containers.Types.{GenericContainer}
use airshipctl.Phases.Types.{RunOptions, ObjectReference}
use airshipctl.Executors.{
  ExecutorError, document_entrypoint_not_defined, document_error, cluster_error, kube_error,
  container_error, library_error, Reply, of, Surroundings, ExecutorConfig, deferred, modify,
  current,
}

module _ (K : Kustomize) (X : Surroundings K) where
  open X use {World}

  -- ContainerExecutor
  pub record Executor : Type 0 where
    pub results_dir : String
    pub mount_base_path : String
    pub container : GenericContainer
    pub bundle : Bundle K
    pub cluster_name : String
    pub cluster_map : ClusterMap
    pub phase_config_bundle : Bundle K

  abbrev pub State : Type 0
  State = Executor × World

  abbrev pub Method : Type 0 → Type 0
  Method A = Proc State ExecutorError A

  abbrev pub on_world : {E A : Type 0} → (E → ExecutorError) → Proc World E A → Method A
  on_world wrap m (e, w) = let (r, w') = m w in (of wrap r, (e, w'))

  -- A phase without an entry point has an empty bundle.
  abbrev pub bundle_or_empty : Reply (Bundle K) → Reply (Bundle K)
  bundle_or_empty (err document_entrypoint_not_defined) =
      of document_error (new_bundle_from_bytes K "")
  bundle_or_empty r = r

  -- NewContainerExecutor
  unfoldable pub new_container_executor : ExecutorConfig K → Reply Executor
  unfolding join
  new_container_executor cfg = bind_outcome (bundle_or_empty cfg.bundle_factory) (λ bundle.
      bind_outcome (of library_error (X.to_container cfg.executor_document)) (λ container.
        ok (record {
          results_dir =
              if is_set container.sink_output_dir
              then join (cfg.sink_base_path ∷ container.sink_output_dir ∷ [])
              else "";
          mount_base_path = cfg.target_path;
          container = container;
          bundle = bundle;
          cluster_name = cfg.cluster_name;
          cluster_map = cfg.cluster_map;
          phase_config_bundle = cfg.phase_config_bundle;
        })))

  -- The mount and the variables of a kubeconfig.
  abbrev pub with_kubeconfig : String → String → State → State
  with_kubeconfig path context (e, w) = (
    record e {
      container = record (e.container) {
        storage_mounts =
            e.container.storage_mounts
            ++ (record {
              mount_type = "bind";
              src = path;
              dst_path = "/kubeconfig";
              read_write_mode = false;
            }
                ∷ []);
        env_vars =
            e.container.env_vars ++ ("KUBECONFIG=/kubeconfig" ∷ ("KCTL_CONTEXT=" <> context) ∷ []);
      };
    },
    w,
  )

  -- SetKubeConfig
  unfoldable pub set_kube_config : Method Cleanup
  set_kube_config = do
    (e, w) ← current
    context ← lift (of cluster_error (cluster_kubeconfig_context e.cluster_name e.cluster_map))
    (path, cleanup) ← on_world kube_error X.get_file
    modify (with_kubeconfig path context)
    pure cleanup

  -- setConfig
  unfoldable pub referred_config : Bundle K → ObjectReference → Reply String
  referred_config bundle ref =
      bind_outcome (of document_error (select_one K (by_object_reference X.gvk_of ref) bundle))
        (λ doc. of document_error (library (K.as_yaml doc)))

  abbrev pub config_of : Executor → Option ObjectReference → Reply String
  config_of e none = ok e.container.config
  config_of e (some ref) = referred_config e.phase_config_bundle ref

  unfoldable pub set_config : Method Unit
  unfolding referred_config
  set_config = do
    (e, w) ← current
    config ← lift (config_of e e.container.config_ref)
    modify (λ (e, w). (record e { container = record (e.container) { config = config } }, w))

  -- The run of the container, before which a dry run ends.
  unfoldable pub run_unless : Bool → String → Method Unit
  run_unless true input = pure tt
  run_unless false input = do
    (e, w) ← current
    on_world container_error
        (X.run_client e.results_dir input (e.results_dir == "") e.mount_base_path e.container)

  -- Run, but for the kubeconfig.
  unfoldable pub run_on_bundle : RunOptions → Method Unit
  unfolding set_config run_unless
  run_on_bundle ro = do
    (e, w) ← current
    input ← lift (of document_error (write_bundle K e.bundle))
    set_config
    run_unless ro.dry_run input

  -- Run
  unfoldable pub run_generic : RunOptions → Method Unit
  unfolding set_kube_config run_on_bundle
  run_generic ro s =
      if (s.0.cluster_name) == ""
      then run_on_bundle ro s
      else (set_kube_config >>= λ cleanup s'.
            deferred (on_world kube_error (X.clean_up cleanup)) (run_on_bundle ro s'))
          s
