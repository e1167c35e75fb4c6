-- ===== src/Executors/Applying.antt =====
-- k8s_applier.go: the executor that applies the documents of a phase to a cluster.
pub mod Cleaning
use airshipctl.Base.{
  ℤ, String, ◌==◌, Bool, true, false, Option, none, some, List, [], ◌∷◌, ◌++◌, if◌then◌else◌,
  Outcome, ok, err, crash, Proc, ◌>>=◌ as bind_outcome, ◌≡◌,
}
use airshipctl.Base.Procs.{◌>>=◌, ◌>>◌, pure, lift}
use airshipctl.Clusters.{ClusterMap, cluster_kubeconfig_context}
use airshipctl.Documents.Selectors.{
  Selector, new_applier_container_executor_selector, new_deploy_to_k8s_selector,
}
use airshipctl.Documents.Library.{Kustomize}
use airshipctl.Documents.Bundles.{
  Bundle, select_one, select_bundle, get_all_documents, write_bundle,
}
use airshipctl.Kubeconfig.Files.{Cleanup}
use airshipctl.Containers.Types.{GenericContainer, StorageMount}
use airshipctl.Phases.Types.{RunOptions}
use airshipctl.Executors.{
  ExecutorError, document_error, cluster_error, kube_error, container_error, library_error,
  invalid_phase, not_implemented, Reply, of, ApplyConfig, Surroundings, ExecutorConfig, deferred,
  modify, current,
}

module _ (K : Kustomize) (X : Surroundings K) where
  open X use {World}

  -- KubeApplierExecutor
  pub record Applier : Type 0 where
    pub bundle : Bundle K
    pub bundle_name : String
    pub target_path : String
    pub config : ApplyConfig
    pub cluster_map : ClusterMap
    pub cluster_name : String
    pub container : GenericContainer

  -- A method of the executor, which changes the executor and the world.
  abbrev pub State : Type 0
  State = Applier × World

  abbrev pub Method : Type 0 → Type 0
  Method A = Proc State ExecutorError A

  abbrev pub on_world : {E A : Type 0} → (E → ExecutorError) → Proc World E A → Method A
  on_world wrap m (e, w) = let (r, w') = m w in (of wrap r, (e, w'))

  -- NewKubeApplierExecutor
  unfoldable pub new_kube_applier : ExecutorConfig K → Reply Applier
  new_kube_applier cfg =
      bind_outcome (of library_error (X.to_apply cfg.executor_document)) (λ config.
        bind_outcome cfg.bundle_factory (λ bundle.
          bind_outcome
            (of document_error
              (select_one K new_applier_container_executor_selector cfg.phase_config_bundle))
            (λ doc. bind_outcome (of library_error (X.to_container doc)) (λ container. ok (record {
              bundle = bundle;
              bundle_name = cfg.phase_name;
              target_path = cfg.target_path;
              config = config;
              cluster_map = cfg.cluster_map;
              cluster_name = cfg.cluster_name;
              container = container;
            })))))

  -- getKubeconfig
  unfoldable pub get_kubeconfig : Method (String × (String × Cleanup))
  get_kubeconfig = do
    (e, w) ← current
    context ← lift (of cluster_error (cluster_kubeconfig_context e.cluster_name e.cluster_map))
    (path, cleanup) ← on_world kube_error X.get_file
    pure (path, (context, cleanup))

  -- prepareDocuments
  unfoldable pub prepare_documents : Bundle K → Reply String
  prepare_documents bundle =
      bind_outcome (of document_error (select_bundle K new_deploy_to_k8s_selector bundle))
        (λ filtered. of document_error (write_bundle K filtered))

  -- The mount of the kubeconfig.
  abbrev pub kubeconfig_mount : String → StorageMount
  kubeconfig_mount path = record {
    mount_type = "bind";
    src = path;
    dst_path = path;
    read_write_mode = false;
  }

  abbrev pub mounted : Applier → Applier
  mounted e = record e {
    container = record (e.container) {
      storage_mounts = e.container.storage_mounts ++ (kubeconfig_mount e.config.kubeconfig ∷ []);
    };
  }

  abbrev pub timeout_or : Option ℤ → ℤ → ℤ
  timeout_or none t = t
  timeout_or (some timeout) t = timeout

  abbrev pub with_options : RunOptions → Applier → Applier
  with_options ro e = record e {
    config = record (e.config) {
      dry_run = ro.dry_run;
      wait_timeout = timeout_or ro.timeout e.config.wait_timeout;
    };
  }

  abbrev pub with_config : String → Applier → Applier
  with_config opts e = record e { container = record (e.container) { config = opts } }

  -- What Run does once there is a kubeconfig.
  unfoldable pub apply_on : RunOptions → Method Unit
  unfolding prepare_documents
  apply_on ro = do
    modify (λ (e, w). (with_options ro (mounted e), w))
    (e, w) ← current
    text ← lift (prepare_documents e.bundle)
    opts ← lift (of library_error (X.marshal_apply e.config))
    modify (λ (e, w). (with_config opts e, w))
    on_world container_error
        (X.run_client "" text true e.target_path (with_config opts e).container)

  abbrev pub cleaning : Cleanup → State → Outcome ExecutorError Unit × State
  cleaning cleanup = on_world kube_error (X.clean_up cleanup)

  abbrev pub with_kubeconfig : String → String → State → State
  with_kubeconfig path context (e, w) =
      (record e { config = record (e.config) { kubeconfig = path; context = context } }, w)

  -- The first lines of Run.
  abbrev pub started : State → State
  started (e, w) = (
    record e { config = record (e.config) { debug = X.debug_enabled; phase_name = e.bundle_name } },
    w,
  )

  -- With a file of its own, which the deferred cleanup removes.
  unfoldable pub apply_with_file : RunOptions → Method Unit
  unfolding get_kubeconfig apply_on
  apply_with_file ro = get_kubeconfig >>= λ (path, (context, cleanup)) s.
      deferred (cleaning cleanup) (apply_on ro (with_kubeconfig path context s))

  -- Run
  unfoldable pub run_applier : RunOptions → Method Unit
  unfolding apply_with_file
  run_applier ro s =
      if (s.0.config.kubeconfig) == ""
      then apply_with_file ro (started s)
      else apply_on ro (started s)

  -- Validate
  unfoldable pub validate_applier : Applier → Reply Unit
  validate_applier e =
      if e.bundle_name == ""
      then err (invalid_phase "k8s applier BundleName is empty")
      else elim (get_all_documents K e.bundle) [
        | ok [] ↦ err (invalid_phase "no executor documents in the bundle")
        | ok (doc ∷ docs) ↦ ok tt
        | err x ↦ err (document_error x)
        | crash k ↦ crash k
      ]

  -- Render, with what it writes
  unfoldable pub render_bundle : Selector → Bundle K → Reply String
  render_bundle filter bundle =
      bind_outcome (of document_error (select_bundle K filter bundle))
        (λ selected. of document_error (write_bundle K selected))
