-- ===== src/Executors/Baremetal.antt =====
-- baremetal_manager.go: the executor that runs an operation on bare-metal hosts.
use airshipctl.Base.{
  String, ◌==◌, true, false, if◌then◌else◌, ok, err, crash, Proc, Outcome-cases, ◌≡◌, ◌≢◌, ◌⊎◌, inl,
  inr, arith,
}
use airshipctl.Redfish.Types.{Ctx}
use airshipctl.Inventory.{
  Operation, reboot, power_off, power_on, eject_virtual_media, other_operation,
}
use airshipctl.Inventory.{Method as InventoryMethod}
use airshipctl.Inventory.Commands.{
  CommandOptions, BaremetalInventory, bmh_action, remote_direct_host,
}
use airshipctl.Phases.Types.{RunOptions}
use airshipctl.Executors.{
  ExecutorError, inventory_error, unknown_executor_action, Reply, of, BaremetalManagerSpec,
}

-- validate
unfoldable pub validate_operation : String → Reply Operation
validate_operation operation =
    if operation == "power-on"
    then ok power_on
    else if operation == "power-off"
    then ok power_off
    else if operation == "eject-virtual-media"
    then ok eject_virtual_media
    else if operation == "reboot"
    then ok reboot
    else if operation == "remote-direct"
    then ok (other_operation "")
    else err (unknown_executor_action operation "BaremetalManager")

-- toCommandOptions, but for the timeout, which is in the context
abbrev pub to_command_options : BaremetalManagerSpec → CommandOptions
to_command_options spec = record {
  all = false;
  labels = spec.label_selector;
  name = spec.name;
  namespace = spec.namespace;
  iso_url = spec.iso_url;
}

module _ {W : Type 0} (inventory : InventoryMethod W (BaremetalInventory W)) (ctx : Ctx) where
  abbrev pub Method : Type 0 → Type 0
  Method A = Proc W ExecutorError A

  abbrev pub call : {A : Type 0} → InventoryMethod W A → Method A
  call m w = let (r, w') = m w in (of inventory_error r, w')

  -- The switch of Run.
  abbrev pub act : BaremetalManagerSpec → Operation → Method Unit
  act spec op =
      if spec.operation == "remote-direct"
      then call (remote_direct_host inventory ctx (to_command_options spec))
      else call (bmh_action inventory ctx (to_command_options spec) op)

  -- Run
  unfoldable pub run_baremetal : BaremetalManagerSpec → RunOptions → Method Unit
  unfolding validate_operation
  run_baremetal spec ro w = elim (validate_operation spec.operation) [
    | err x ↦ (err x, w)
    | crash k ↦ (crash k, w)
    | ok op ↦ if ro.dry_run then (ok tt, w) else act spec op w
  ]

  -- Validate
  unfoldable pub validate_baremetal : BaremetalManagerSpec → Reply Unit
  unfolding validate_operation
  validate_baremetal spec = elim (validate_operation spec.operation) [
    | ok op ↦ ok tt
    | err x ↦ err x
    | crash k ↦ crash k
  ]

  -- A dry run gives what Validate gives, and touches nothing; and no run that Validate refuses touches
  -- anything.
  pub run_baremetal_dry :
      (spec : BaremetalManagerSpec) (ro : RunOptions) (w : W)
      → (ro.dry_run ≡ true) ⊎ (validate_baremetal spec ≢ ok tt)
      → run_baremetal spec ro w ≡ (validate_baremetal spec, w)
  unfolding run_baremetal validate_baremetal
  run_baremetal_dry spec ro w h = elim (Outcome-cases (validate_operation spec.operation)) [
    | inl (op, e) ↦ elim h [
      | inl dry ↦ ground arith
      | inr refused ↦ absurd (refused (ground arith))
    ]
    | inr (inl (x, e)) ↦ ground arith
    | inr (inr (k, e)) ↦ ground arith
  ]
