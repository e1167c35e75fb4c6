-- ===== src/Redfish/Media.antt =====
-- GetVirtualMediaID of redfish/utils.go, and SetBootSourceByType and SetVirtualMedia of
-- redfish/client.go.
pub mod Boot
pub mod Insert
use Prim.Native.Char.{code}
use airshipctl.Base.{
  ℕ, ◌+◌, String, ◌<>◌, ◌==◌, nat_eqb, ltb, Bool, true, false, ◌&&◌, ◌||◌, Option, none, some, List,
  [], ◌∷◌, if◌then◌else◌, ok, err, crash, deref, then_do,
}
use airshipctl.Base.Procs.{◌>>=◌, ◌>>◌, pure, lift}
use airshipctl.Redfish.Types.{System, Ctx, Client, ClientError, client_error, Reply, Method}
use airshipctl.Redfish.Api.{Api}
use airshipctl.Redfish.Ids.{media_id_of, private_manager_id, get_manager_id, set_auth}
use airshipctl.Redfish.Client.{screened, eject_virtual_media}

-- `strings.EqualFold`, for a second text whose letters fold to ASCII letters alone.
fold : ℕ → ℕ
fold n = if ltb n 65 then n else if ltb n 91 then n + 32 else n

unfoldable pub equal_fold : String → String → Bool
unfolding fold
equal_fold String.[] String.[] = true
equal_fold String.[] (String.◌∷◌ d t) = false
equal_fold (String.◌∷◌ c s) String.[] = false
equal_fold (String.◌∷◌ c s) (String.◌∷◌ d t) =
    nat_eqb (fold (code c)) (fold (code d)) && equal_fold s t

-- The first of the types that is CD or DVD.
unfoldable pub compatible_type : List String → Option String
compatible_type [] = none
compatible_type (t ∷ types) =
    let later = compatible_type types in if (t == "CD") || (t == "DVD") then some t else later

-- The first allowable boot target that is the media type but for upper and lower case.
unfoldable pub boot_target : String → List String → Option String
unfolding equal_fold
boot_target media_type [] = none
boot_target media_type (value ∷ values) =
    let later = boot_target media_type values in
    if equal_fold value media_type then some value else later

module _ (A : Api) where
  open A use {World}

  -- A device of the manager, and the type that makes it compatible, if there is one.
  unfoldable pub media_device :
      Client → Ctx → String → Option String → Method World (String × Option String)
  unfolding media_id_of screened compatible_type
  media_device c ctx manager_id ref = do
    media_id ← lift (media_id_of A ref)
    media ← screened A c (A.get_manager_virtual_media ctx manager_id media_id)
    types ← lift (deref media.media_types)
    pure (media_id, compatible_type types)

  -- The walk over the media devices of a manager.
  unfoldable pub find_media :
      Client → Ctx → String → List (Option String) → Method World (String × String)
  unfolding media_device
  find_media c ctx manager_id [] w = (
    err (
        client_error
          ("Manager '" <> (manager_id <> "' does not have virtual media type CD or DVD."))),
    w,
  )
  find_media c ctx manager_id (ref ∷ refs) w =
      let (r, w') = media_device c ctx manager_id ref w in
      elim r [
        | err e ↦ (err e, w')
        | crash k ↦ (crash k, w')
        | ok (media_id, some media_type) ↦ (ok (media_id, media_type), w')
        | ok (media_id, none) ↦ find_media c ctx manager_id refs w'
      ]

  unfoldable pub get_virtual_media_id : Client → Ctx → Method World (String × String)
  unfolding get_manager_id screened find_media
  get_virtual_media_id c ctx = do
    manager_id ← get_manager_id A ctx c.node_id
    members ← screened A c (A.list_manager_virtual_media ctx manager_id)
    find_media c ctx manager_id members

  get_system_failed : String → Option ClientError → Reply Unit
  get_system_failed node_id none = ok tt
  get_system_failed node_id (some e) =
      err (client_error ("Get System[" <> (node_id <> ("] failed with err: " <> e.message))))

  -- GetSystem of SetBootSourceByType: the HTTP answer is not looked at.
  unfoldable pub unscreened_system : Client → Ctx → Method World System
  unfolding get_system_failed
  unscreened_system c ctx w =
      let (r, w') = A.get_system ctx c.node_id w in
      then_do (get_system_failed c.node_id r.error, w') (λ _ w''. (ok r.value, w''))

  set_target : Client → Ctx → Option String → Method World Unit
  unfolding screened
  set_target c ctx none w =
      (err (client_error ("failed to set system[" <> (c.node_id <> "] boot source"))), w)
  set_target c ctx (some target) w = screened A c (A.set_boot_target ctx c.node_id target) w

  unfoldable pub set_boot_source_by_type : Client → Ctx → Method World Unit
  unfolding set_auth get_virtual_media_id unscreened_system boot_target set_target
  set_boot_source_by_type c ctx₀ = do
    let ctx = set_auth c.username c.password ctx₀
    media ← get_virtual_media_id c ctx
    system ← unscreened_system c ctx
    set_target c ctx (boot_target media.1 system.boot_targets)

  unfoldable pub set_virtual_media : Client → Ctx → String → Method World Unit
  unfolding set_auth eject_virtual_media get_virtual_media_id private_manager_id screened
  set_virtual_media c ctx₀ iso_path = do
    let ctx = set_auth c.username c.password ctx₀
    eject_virtual_media A c ctx
    media ← get_virtual_media_id c ctx
    manager_id ← private_manager_id A ctx c.node_id
    screened A c (A.insert_virtual_media ctx manager_id media.0 iso_path true)
