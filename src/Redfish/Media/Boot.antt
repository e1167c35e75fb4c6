-- ===== src/Redfish/Media/Boot.antt =====
-- SetBootSourceByType of the Redfish client: the target that it sets, and when it succeeds.
use airshipctl.Base.{String, none, All, true, false, List, ◌∷◌, ◌++◌, ok, ◌≡◌}
use airshipctl.Redfish.Types.{System, Call, Ctx, Client}
use airshipctl.Redfish.Api.{Api}
use airshipctl.Redfish.Errors.Screening.{Succeeded}
use airshipctl.Redfish.Media.{equal_fold, get_virtual_media_id}

-- The first of the values that is the media type but for the case of its letters.
pub record IsFirst (media_type : String) (values : List String) (v : String) : Type 0 where
  pub before : List String
  pub after : List String
  pub splits : values ≡ before ++ (v ∷ after)
  pub matches : equal_fold v media_type ≡ true
  pub no_earlier : All (λ u. equal_fold u media_type ≡ false) before

module _ (A : Api) (c : Client) where
  open A use {World}

  -- The calls of a SetBootSourceByType that ends without an error.
  pub record BootSet (ctx : Ctx) (w w' : World) : Type 0 where
    pub media : String × String
    pub w₁ : World
    pub call : Call System
    pub w₂ : World
    pub target : String
    pub has_media : get_virtual_media_id A c ctx w ≡ (ok media, w₁)
    pub has_system : A.get_system ctx c.node_id w₁ ≡ (call, w₂)
    pub no_error : call.error ≡ none
    pub is_first : IsFirst media.1 call.value.boot_targets target
    pub accepted : Succeeded (A.set_boot_target ctx c.node_id target w₂).0.response
    pub ends : w' ≡ (A.set_boot_target ctx c.node_id target w₂).1
