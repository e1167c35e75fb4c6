-- ===== src/Tests/Executing.antt =====
-- Runs of the executors, on documents and containers in memory.
use airshipctl.Base.{ℕ, true, false, none, some, [], ◌∷◌, ok, err, pos, ◌≡◌, inl, refl}
use airshipctl.Base.GoMap.{made, entries}
use airshipctl.Base.Paths.{join, split}
use airshipctl.Clusters.{ClusterMap}
use airshipctl.Phases.Types.{RunOptions}
use airshipctl.Bootstrap.{verify_inputs, verify_artifacts, create_bootstrap_container, first_part}
use airshipctl.Executors.{ApplyConfig, BaremetalManagerSpec, Surroundings}
use airshipctl.Executors.Applying.{Applier, get_kubeconfig, cleaning, run_applier}
use airshipctl.Executors.Ephemeral.{Executor, run_ephemeral, run_ephemeral-stat}
use airshipctl.Executors.Baremetal.{run_baremetal, validate_baremetal, run_baremetal_dry}
use airshipctl.Inventory.{document_failed}
use airshipctl.Tests.Shelf.{shelf, bundle}
use airshipctl.Tests.Bmc.{no_auth}
use airshipctl.Tests.Boxes.{outside, boot, box, conf}
use airshipctl.Executors.Clusterctl.{move}
use airshipctl.Executors.Clusterctl.{
  Executor as Mover, get_kubeconfig as get_move_kubeconfig, cleaning as move_cleaning,
}

-- The world counts the kubeconfig files that are there.
abbrev desk : Surroundings shelf
desk = record {
  World = ℕ;
  get_file = λ w. (ok ("/tmp/kubeconfig", some "/tmp/kubeconfig"), 1);
  clean_up = λ cleanup w. (ok tt, 0);
  run_client = λ results input output target container w. (ok tt, w);
  debug_enabled = false;
  to_container = λ doc. ok conf;
  to_apply = λ doc. err "no such object";
  to_clusterctl = λ doc. err "no such object";
  to_boot = λ doc. ok boot;
  to_baremetal = λ doc. err "no such object";
  marshal_apply = λ config. ok config.kubeconfig;
  marshal_clusterctl = λ providers images variables. ok "";
  marshal_options = λ options. ok "";
  scheme_of = λ url. ok "";
  gvk_of = λ version kind. record { group = ""; version = version; kind = kind };
  walk = λ m. entries m;
  disk = tt;
}

abbrev site : ClusterMap
site = made (
    ("target", some (record { parent = "ephemeral"; sources = [] }))
    ∷ ("ephemeral", some (record { parent = ""; sources = [] }))
    ∷ [])

abbrev apply_config : ApplyConfig
apply_config = record {
  wait_timeout = pos 600;
  poll_interval = pos 10;
  prune = false;
  kubeconfig = "";
  context = "";
  dry_run = false;
  debug = false;
  phase_name = "";
  inventory_policy = "";
}

abbrev applier : Applier shelf desk
applier = record {
  bundle = bundle;
  bundle_name = "initinfra";
  target_path = "/target";
  config = apply_config;
  cluster_map = site;
  cluster_name = "target";
  container = conf;
}

abbrev for_real : RunOptions
for_real = record { dry_run = false; timeout = none }

abbrev after : Applier shelf desk × ℕ
after = (run_applier shelf desk for_real (applier, 0)).1

abbrev ephemeral : Executor outside (λ driver image w. (ok box, w))
ephemeral = record { boot_conf = boot; container = none }

abbrev booted : Executor outside (λ driver image w. (ok box, w)) × ℕ
booted = (run_ephemeral outside (λ driver image w. (ok box, w)) for_real (ephemeral, 0)).1

run_ephemeral-stat_example :
    outside.stat
      (join (
        first_part (split ":" (booted.0.boot_conf.volume))
        ∷ booted.0.boot_conf.config_filename
        ∷ []))
      booted.1
    ≡ ok tt
unfolding run_ephemeral verify_inputs create_bootstrap_container verify_artifacts split
run_ephemeral-stat_example =
    run_ephemeral-stat outside (λ driver image w. (ok box, w)) for_real (ephemeral, 0) booted refl
      refl

abbrev dry : RunOptions
dry = record { dry_run = true; timeout = none }

abbrev reboot_spec : BaremetalManagerSpec
reboot_spec = record {
  operation = "reboot";
  label_selector = "";
  name = "node-0";
  namespace = "";
  iso_url = "";
  timeout = pos 300;
}

run_baremetal_dry_example :
    run_baremetal {W = ℕ} (λ w. (err (document_failed "no inventory"), w)) no_auth reboot_spec dry 3
    ≡ (
      validate_baremetal {W = ℕ}
          (λ w. (err (document_failed "no inventory"), w))
          no_auth
          reboot_spec,
      3,
    )
run_baremetal_dry_example =
    run_baremetal_dry {W = ℕ} (λ w. (err (document_failed "no inventory"), w)) no_auth reboot_spec
      dry 3 (inl refl)

abbrev mover : Mover shelf desk
mover = record {
  cluster_name = "target";
  target_path = "/target";
  cluster_map = site;
  options = record {
    providers = [];
    action = "move";
    core_provider = "";
    bootstrap_providers = "";
    infrastructure_providers = "";
    control_plane_providers = "";
    move_namespace = "target-infra";
    additional_component_variables = made [];
    images = "";
  };
  container = conf;
  cctl_opts = record { cmd_options = []; config = ""; components = made [] };
}

abbrev moved : Mover shelf desk × ℕ
moved = (move shelf desk false (mover, 0)).1
