-- ===== src/Redfish/Media/Insert.antt =====
-- SetVirtualMedia of the Redfish client: into which device it inserts, and what it has done before.
use airshipctl.Base.{String, true, ok, ◌≡◌, ◌⊎◌}
use airshipctl.Redfish.Types.{Ctx, Client}
use airshipctl.Redfish.Api.{Api}
use airshipctl.Redfish.Errors.Screening.{Succeeded}
use airshipctl.Redfish.Ids.{private_manager_id}
use airshipctl.Redfish.Client.{eject_virtual_media}
use airshipctl.Redfish.Media.{get_virtual_media_id}

-- The types that an image can be inserted in.
abbrev pub IsCompatible : String → Type 0
IsCompatible media_type = (media_type ≡ "CD") ⊎ (media_type ≡ "DVD")

module _ (A : Api) (c : Client) where
  open A use {World}

  -- The calls of a SetVirtualMedia that ends without an error.
  pub record Inserted (ctx : Ctx) (iso_path : String) (w w' : World) : Type 0 where
    pub emptied : World
    pub media_id : String
    pub media_type : String
    pub found_at : World
    pub manager : String
    pub start : World
    pub has_ejected : eject_virtual_media A c ctx w ≡ (ok tt, emptied)
    pub has_media : get_virtual_media_id A c ctx emptied ≡ (ok (media_id, media_type), found_at)
    pub is_compatible : IsCompatible media_type
    pub has_manager : private_manager_id A ctx c.node_id found_at ≡ (ok manager, start)
    pub accepted :
        Succeeded (A.insert_virtual_media ctx manager media_id iso_path true start).0.response
    pub ends : w' ≡ (A.insert_virtual_media ctx manager media_id iso_path true start).1
