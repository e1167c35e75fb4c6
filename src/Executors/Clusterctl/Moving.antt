-- ===== src/Executors/Clusterctl/Moving.antt =====
-- A move: what clusterctl is asked to do, and the cleanup after it; and the components of the providers.
use airshipctl.Base.{String, Bool, true, List, [], ◌∷◌, if◌then◌else◌, ok, ◌≡◌}
use airshipctl.Documents.Library.{Kustomize}
use airshipctl.Executors.{Surroundings}
use airshipctl.Executors.Clusterctl.{State, move_options, with_cmd}

module _ (K : Kustomize) (X : Surroundings K) where
  open X use {World}

  -- The container ended well on the options of the executor.
  abbrev pub Ran : State K X → State K X → Type 0
  Ran s s' =
      (opts : String) × (X.marshal_options s.0.cctl_opts ≡ ok opts)
      × (X.run_client "" "" true s.0.target_path (record (s.0.container) { config = opts }) s.1
          ≡ (ok tt, s'.1))

  abbrev pub dry_option : Bool → List String
  dry_option dry_run = if dry_run then "--dry-run" ∷ [] else []

  -- The executor with the options of a move after those that it had.
  abbrev pub moving : Bool → String → String → String → State K X → State K X
  moving dry_run kubecfg from to s =
      with_cmd K X (dry_option dry_run)
        (with_cmd K X (move_options K X kubecfg from to s.0.options.move_namespace) s)
