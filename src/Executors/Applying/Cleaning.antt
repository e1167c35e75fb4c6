-- ===== src/Executors/Applying/Cleaning.antt =====
-- A run of the applier: what it hands to its container, and the cleanup after it.
use airshipctl.Base.{String, ◌==◌, true, [], ◌∷◌, ◌++◌, ok, crash, fatal, ◌≡◌, ◌≢◌, eq_iff}
use airshipctl.Documents.Library.{Kustomize}
use airshipctl.Kubeconfig.Files.{Cleanup}
use airshipctl.Containers.Types.{GenericContainer}
use airshipctl.Phases.Types.{RunOptions}
use airshipctl.Executors.{Surroundings, ApplyConfig}
use airshipctl.Executors.Deferring.{deferred-state}
use airshipctl.Executors.Applying.{
  Applier, State, get_kubeconfig, prepare_documents, kubeconfig_mount, timeout_or, apply_on,
  cleaning, with_kubeconfig, started, apply_with_file, run_applier,
}

module _ (K : Kustomize) (X : Surroundings K) where
  open X use {World}

  -- The container that is run: with the kubeconfig mounted, and the options as its configuration.
  abbrev pub container_for : Applier K X → String → GenericContainer
  container_for e opts = record (e.container) {
    storage_mounts = e.container.storage_mounts ++ (kubeconfig_mount K X e.config.kubeconfig ∷ []);
    config = opts;
  }

  abbrev pub options_for : RunOptions → Applier K X → ApplyConfig
  options_for ro e = record (e.config) {
    dry_run = ro.dry_run;
    wait_timeout = timeout_or K X ro.timeout e.config.wait_timeout;
  }

  -- The documents to deploy and the options were written, and the container ended well on them.
  abbrev pub Applied : RunOptions → State K X → State K X → Type 0
  Applied ro s s' =
      (text : String) × (opts : String) × (prepare_documents K X s.0.bundle ≡ ok text)
      × (X.marshal_apply (options_for ro s.0) ≡ ok opts)
      × (X.run_client "" text true s.0.target_path (container_for s.0 opts) s.1 ≡ (ok tt, s'.1))

  -- Without a kubeconfig in its options, a run that got a file removes it last, however else it ends,
  -- unless the process ends.
  pub run_applier-cleaning :
      (ro : RunOptions) (s : State K X) (path context : String) (cleanup : Cleanup)
      → s.0.config.kubeconfig ≡ ""
      → (get_kubeconfig K X (started K X s)).0 ≡ ok (path, (context, cleanup))
      → (apply_on K X ro
          (with_kubeconfig K X path context (get_kubeconfig K X (started K X s)).1)).0
        ≢ crash fatal
      → (run_applier K X ro s).1
        ≡ (cleaning K X cleanup
            (apply_on K X ro
              (with_kubeconfig K X path context (get_kubeconfig K X (started K X s)).1)).1).1
  unfolding run_applier apply_with_file
  run_applier-cleaning ro s path context cleanup e g alive =
      let start = with_kubeconfig K X path context (get_kubeconfig K X (started K X s)).1 in
      let done = apply_on K X ro start in
      let named : ((s.0.config.kubeconfig) == "") ≡ true =
        (eq_iff (s.0.config.kubeconfig) "").1 e in
      let last = deferred-state (cleaning K X cleanup) done.0 done.1 alive in rw (named, g) last
