-- ===== src/Inventory/Commands.antt =====
-- pkg/inventory/command.go: the commands on bare-metal hosts and the checks of their options.
use airshipctl.Base.{
  String, ◌<>◌, ◌==◌, is_set, Bool, true, false, not, ◌&&◌, ◌||◌, List, [], ◌∷◌, if◌then◌else◌, ok,
  err, reject_if, ◌≡◌, ◌≢◌, ◌↔◌, ◌⊎◌, arith, eq_iff,
}
use airshipctl.Base.Procs.{◌>>=◌, ◌>>◌, lift}
use airshipctl.Redfish.Types.{
  Ctx, Status, status_unknown, status_on, status_off, status_powering_on, status_powering_off,
}
use airshipctl.Redfish.Direct.{remote_direct}
use airshipctl.Inventory.{
  HostSelector, Operation, invalid_options, document_failed, Reply, Method, Host, remote_call,
}

-- ifc.BaremetalInventory
pub record BaremetalInventory (W : Type 0) : Type 0 where
  pub select : HostSelector → Reply (List (Host W))
  pub select_one : HostSelector → Reply (Host W)
  pub run_operation : Ctx → Operation → HostSelector → Method W Unit

-- CommandOptions, without the inventory; the context stands for the timeout.
pub record CommandOptions : Type 0 where
  pub all : Bool
  pub labels : String
  pub name : String
  pub namespace : String
  pub iso_url : String

-- None of name, namespace and labels is given.
abbrev selects_none : CommandOptions → Bool
selects_none o = (o.name == "") && (o.namespace == "") && (o.labels == "")

unfoldable pub validate_bmh_action : CommandOptions → Reply Unit
validate_bmh_action o =
    if selects_none o && not o.all
    then err (
        invalid_options
          "must provide atleast one of the following options: 'name', 'namespace', 'labels' or 'all'")
    else if o.all && (is_set o.name || is_set o.namespace || is_set o.labels)
    then err (invalid_options "option 'all' can not be combined with other host selector options")
    else ok tt

unfoldable pub validate_single_host_action : CommandOptions → Reply Unit
validate_single_host_action o = reject_if (selects_none o) (
    invalid_options
      "No options are specified, must provide atleast 'name', 'namespace' or 'labels'")

abbrev pub selector_of : CommandOptions → HostSelector
selector_of o = record { label_selector = o.labels; name = o.name; namespace = o.namespace }

-- power.Status.String
abbrev pub status_text : Status → String
status_text status_unknown = "UNKNOWN"
status_text status_on = "ON"
status_text status_off = "OFF"
status_text status_powering_on = "POWERING ON"
status_text status_powering_off = "POWERING OFF"

module _ {W : Type 0} (baremetal_inventory : Method W (BaremetalInventory W)) (ctx : Ctx) where
  -- BMHAction
  unfoldable pub bmh_action : CommandOptions → Operation → Method W Unit
  unfolding validate_bmh_action
  bmh_action o op = do
    lift (validate_bmh_action o)
    inventory ← baremetal_inventory
    inventory.run_operation ctx op (selector_of o)

  unfoldable get_host : CommandOptions → Method W (Host W)
  get_host o = do inventory ← baremetal_inventory; lift (inventory.select_one (selector_of o))

  -- CommandOptions.RemoteDirect
  unfoldable pub remote_direct_host : CommandOptions → Method W Unit
  unfolding validate_single_host_action get_host
  remote_direct_host o = do
    lift (validate_single_host_action o)
    host ← get_host o
    remote_call (remote_direct host.driver ctx o.iso_url)

  -- PowerStatus; `print` is fmt.Fprintf, whose error is not looked at
  unfoldable pub power_status : (String → W → W) → CommandOptions → Method W Unit
  unfolding validate_single_host_action get_host
  power_status print o = do
    lift (validate_single_host_action o)
    host ← get_host o
    status ← remote_call (host.driver.system_power_status ctx)
    λ w. (
      ok tt,
      print
          ("Host with node id '"
            <> (host.node_id <> ("' has power status: '" <> (status_text status <> "'\n"))))
          w,
    )

  unfoldable present : List (Host W) → Method W Unit → Method W Unit
  present [] m w = (err (document_failed "no hosts present in the hostInventory"), w)
  present (host ∷ hosts) m w = m w

  -- ListHostsCommand.RunE; `write` writes the identifiers and names of the hosts.
  unfoldable pub list_hosts_command :
      (List (Host W) → Method W Unit) → String → CommandOptions → Method W Unit
  unfolding present
  list_hosts_command write output_format o = do
    lift (
        reject_if (not (output_format == "table") && not (output_format == "yaml"))
          (invalid_options "output formats. Supported options are 'table' and 'yaml'"))
    inventory ← baremetal_inventory
    hosts ← lift (inventory.select (selector_of o))
    present hosts (write hosts)

-- BMHAction takes its options exactly if they say all and select nothing, or select something and do
-- not say all.
pub validate_bmh_action-eq-ok :
    (o : CommandOptions)
    → (validate_bmh_action o ≡ ok tt) ↔ (
        ((o.all ≡ true) × (o.name ≡ "") × (o.namespace ≡ "") × (o.labels ≡ ""))
        ⊎ ((o.all ≡ false) × ((o.name ≢ "") ⊎ (o.namespace ≢ "") ⊎ (o.labels ≢ ""))))
unfolding validate_bmh_action
validate_bmh_action-eq-ok o =
    ground (arith, eq_iff o.name "", eq_iff o.namespace "", eq_iff o.labels "")
