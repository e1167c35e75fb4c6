-- ===== src/Tests/Directing.antt =====
-- RemoteDirect and the ejecting of virtual media on the controller in memory.
use airshipctl.Base.{String, true, false, ok, All, ◌≡◌, refl}
use airshipctl.Redfish.Types.{state_on}
use airshipctl.Redfish.Errors.{screen}
use airshipctl.Redfish.Ids.{set_auth, media_id_of, private_manager_id}
use airshipctl.Redfish.Client.{
  eject_virtual_media, eject_all, eject_media, eject_device, eject_inserted,
}
use airshipctl.Redfish.Client.Ejecting.{IsEmpty, eject_virtual_media-IsEmpty}
use airshipctl.Tests.Bmc.{Bmc, bmc, bmc-Drives, client, no_auth, running}

abbrev loaded : Bmc
loaded = record { power = state_on; is_loaded = true }

abbrev emptied : Bmc
emptied = record running { is_loaded = false }

eject_virtual_media-IsEmpty_example :
    let ctx' = set_auth "" "" no_auth in
    let (r, w₁) = private_manager_id bmc ctx' client.node_id running in
    (manager : String) × (r ≡ ok manager)
    × All
        (IsEmpty bmc bmc-Drives client ctx' manager emptied)
        (bmc.list_manager_virtual_media ctx' manager w₁).0.value
unfolding eject_virtual_media screen eject_all eject_media eject_device eject_inserted
    private_manager_id media_id_of
eject_virtual_media-IsEmpty_example =
    eject_virtual_media-IsEmpty bmc bmc-Drives client no_auth running emptied refl
