-- ===== src/Inventory.antt =====
-- pkg/inventory: the bare-metal hosts of a site and the operations on those that a selector picks.
pub mod Operations
pub mod Commands
use airshipctl.Base.{
  ℤ, String, ◌==◌, is_set, Bool, not, ◌&&◌, ◌||◌, Option, none, some, List, [], ◌∷◌, if◌then◌else◌,
  Outcome, Proc, ok, err, crash, reject_if, ◌>>=◌ as bind_outcome, ◌>>◌ as then_outcome,
}
use airshipctl.Base.Procs.{◌>>=◌, ◌>>◌, pure, lift}
use airshipctl.Config.Types.{ManagementConfiguration}
use airshipctl.Config.Defaults.{redfish_type, redfish_dell_type}
use airshipctl.Redfish.Types.{Ctx, Client, RedfishError, Status}
use airshipctl.Redfish.Types.{Reply as RemoteReply, Method as RemoteMethod}
use airshipctl.Redfish.Api.{Api}
use airshipctl.Redfish.Ids.{new_client}
use airshipctl.Redfish.Direct.{Driver, redfish_driver, remote_direct}
use airshipctl.Redfish.Dell.{Http, dell_driver}

-- ifc.BaremetalHostSelector
pub record HostSelector : Type 0 where
  pub label_selector : String
  pub name : String
  pub namespace : String

-- ifc.BaremetalOperation, by the texts that it stands for
pub data Operation : Type 0 where
  reboot power_off power_on eject_virtual_media list_hosts : Operation
  other_operation : String → Operation

pub data InventoryError : Type 0 where
  remote_driver_not_supported : String → String → String → InventoryError
  no_hosts_found : HostSelector → InventoryError
  operation_not_supported : Operation → InventoryError
  invalid_options : String → InventoryError
  remote_failed : RedfishError → InventoryError
  document_failed : String → InventoryError

abbrev pub Reply : Type 0 → Type 0
Reply A = Outcome InventoryError A

abbrev pub Method : Type 0 → Type 0 → Type 0
Method W A = Proc W InventoryError A

-- What the inventory reads of the documents of its bundle.
pub record Documents : Type 1 where
  pub Document : Type 0
  pub select : HostSelector → Reply (List Document)
  pub select_one : HostSelector → Reply Document
  pub get_string : Document → String → Reply String
  pub name_of : Document → String
  pub namespace_of : Document → String
  -- the secret of this name, and a key of a secret
  pub select_credentials : String → Reply Document
  pub secret_data_key : Document → String → Reply String

-- A reply and a call of the out-of-band client, with their errors passed on.
unfoldable pub remote_reply : {A : Type 0} → RemoteReply A → Reply A
remote_reply (ok a) = ok a
remote_reply (err e) = err (remote_failed e)
remote_reply (crash k) = crash k

unfoldable pub remote_call : {W A : Type 0} → RemoteMethod W A → Method W A
unfolding remote_reply
remote_call m w = let (r, w') = m w in (remote_reply r, w')

-- The client of one host, with the names that it answers to.
pub record Host (W : Type 0) : Type 0 where
  pub node_id : String
  pub node_name : String
  pub driver : Driver W

-- action
unfoldable pub action : {W : Type 0} → Ctx → Operation → Reply (Host W → Method W Unit)
unfolding remote_call
action ctx reboot = ok (λ host. remote_call (host.driver.reboot_system ctx))
action ctx power_off = ok (λ host. remote_call (host.driver.system_power_off ctx))
action ctx power_on = ok (λ host. remote_call (host.driver.system_power_on ctx))
action ctx eject_virtual_media = ok (λ host. remote_call (host.driver.eject_virtual_media ctx))
action ctx list_hosts = err (operation_not_supported list_hosts)
action ctx (other_operation text) = err (operation_not_supported (other_operation text))

-- The walk over the hosts, which ends at the first that fails.
unfoldable pub act_on_all : {W : Type 0} → (Host W → Method W Unit) → List (Host W) → Method W Unit
act_on_all act [] = pure tt
act_on_all act (host ∷ hosts) = do act host; act_on_all act hosts

unfoldable pub reject_no_hosts : {A : Type 0} → HostSelector → List A → Reply Unit
reject_no_hosts selector [] = err (no_hosts_found selector)
reject_no_hosts selector (host ∷ hosts) = ok tt

module _ (A : Api) (H : Http A.World) (D : Documents) (mgmt : ManagementConfiguration) where
  open A use {World}
  open D use {Document}

  -- GetBMHBMCCredentials
  unfoldable pub credentials_of : Document → Reply (String × String)
  credentials_of doc = bind_outcome (D.get_string doc "spec.bmc.credentialsName") (λ secret_name.
      bind_outcome (D.select_credentials secret_name) (λ secret.
        bind_outcome (D.secret_data_key secret "username") (λ username.
          bind_outcome (D.secret_data_key secret "password")
            (λ password. ok (username, password)))))

  -- The driver for the type of the management configuration.
  unfoldable pub driver_for : Document → Reply (Client → Driver World)
  driver_for doc =
      if mgmt.type == redfish_type
      then ok (redfish_driver A)
      else if mgmt.type == redfish_dell_type
      then ok (dell_driver A H)
      else err (remote_driver_not_supported (D.name_of doc) (D.namespace_of doc) mgmt.type)

  -- newHost
  unfoldable pub new_host : Document → Reply (Host World)
  unfolding credentials_of driver_for remote_reply
  new_host doc = bind_outcome (D.get_string doc "spec.bmc.address") (λ address.
      bind_outcome (credentials_of doc) (λ (username, password).
        bind_outcome (driver_for doc) (λ driver.
          bind_outcome
            (remote_reply (
              new_client A (D.name_of doc) address mgmt.insecure mgmt.use_proxy username password
                mgmt.system_action_retries mgmt.system_reboot_delay))
            (λ client. ok (record {
              node_id = client.node_id;
              node_name = client.node_name;
              driver = driver client;
            })))))

  unfoldable pub new_hosts : List Document → Reply (List (Host World))
  unfolding new_host
  new_hosts [] = ok []
  new_hosts (doc ∷ docs) =
      bind_outcome (new_host doc)
        (λ host. bind_outcome (new_hosts docs) (λ hosts. ok (host ∷ hosts)))

  -- Inventory.Select and Inventory.SelectOne
  unfoldable pub select_hosts : HostSelector → Reply (List (Host World))
  unfolding new_hosts
  select_hosts selector = bind_outcome (D.select selector) new_hosts

  unfoldable pub select_one_host : HostSelector → Reply (Host World)
  unfolding new_host
  select_one_host selector = bind_outcome (D.select_one selector) new_host

  -- Inventory.RunOperation
  unfoldable pub run_operation : Ctx → Operation → HostSelector → Method World Unit
  unfolding reject_no_hosts act_on_all
  run_operation ctx op selector = do
    act ← lift (action ctx op)
    hosts ← lift (select_hosts selector)
    lift (reject_no_hosts selector hosts)
    act_on_all act hosts
