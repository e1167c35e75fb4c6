-- ===== src/Redfish/Direct.antt =====
-- The interface of an out-of-band client (remote/ifc/ifc.go) and RemoteDirect over it
-- (redfish/client.go).
pub mod Order
use airshipctl.Base.{
  String, ◌==◌, Bool, true, false, if◌then◌else◌, ok, err, Outcome, Proc, reject_if,
}
use airshipctl.Base.Procs.{◌>>=◌, ◌>>◌, pure, lift}
use airshipctl.Redfish.Types.{
  Ctx, Client, Status, status_off, status_unknown, status_on, status_powering_on,
  status_powering_off, RedfishError, missing_config, Reply, Method,
}
use airshipctl.Redfish.Api.{Api}
use airshipctl.Redfish.Client.{
  eject_virtual_media, reboot_system, system_power_off, system_power_on, system_power_status,
}
use airshipctl.Redfish.Media.{set_boot_source_by_type, set_virtual_media}

-- ifc.Client, without its names
pub record Driver (W : Type 0) : Type 0 where
  pub eject_virtual_media : Ctx → Method W Unit
  pub reboot_system : Ctx → Method W Unit
  pub set_boot_source_by_type : Ctx → Method W Unit
  pub system_power_off : Ctx → Method W Unit
  pub system_power_on : Ctx → Method W Unit
  pub system_power_status : Ctx → Method W Status
  pub set_virtual_media : Ctx → String → Method W Unit

unfoldable pub is_off : Status → Bool
is_off status_off = true
is_off _ = false

-- Powers the node off unless its status is off.
unfoldable pub ensure_off : {W : Type 0} → Driver W → Ctx → Method W Unit
unfolding is_off
ensure_off d ctx = do
  power_status ← d.system_power_status ctx
  if is_off power_status then pure tt else d.system_power_off ctx

unfoldable pub remote_direct : {W : Type 0} → Driver W → Ctx → String → Method W Unit
unfolding ensure_off
remote_direct d ctx iso_url = do
  ensure_off d ctx
  lift (reject_if (iso_url == "") (missing_config "isoURL"))
  d.set_virtual_media ctx iso_url
  d.set_boot_source_by_type ctx
  d.system_power_on ctx

-- The Redfish client as a driver.
unfoldable pub redfish_driver : (A : Api) → Client → Driver A.World
redfish_driver A c = record {
  eject_virtual_media = eject_virtual_media A c;
  reboot_system = reboot_system A c;
  set_boot_source_by_type = set_boot_source_by_type A c;
  system_power_off = system_power_off A c;
  system_power_on = system_power_on A c;
  system_power_status = system_power_status A c;
  set_virtual_media = set_virtual_media A c;
}
