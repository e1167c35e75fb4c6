-- ===== src/Redfish/Client.antt =====
-- redfish/client.go and the loops of utils.go. Each call of the controller changes its world, and its
-- answer is screened. The loops recur on the rounds that the retries allow.
pub mod Waiting
pub mod Power
pub mod Ejecting
use Prim.Native.Char.{code}
use airshipctl.Base.{
  ℕ, zero, suc, ◌+◌, ℤ, rounds_below, rounds_through, String, ◌<>◌, ◌==◌, nat_eqb, ltb, not, Bool,
  true, false, ◌&&◌, ◌||◌, Option, none, some, List, [], ◌∷◌, if◌then◌else◌, ok, err, crash, deref,
  then_do, reject_if,
}
use airshipctl.Base.Procs.{◌>>=◌, ◌>>◌, pure, lift}
use airshipctl.Redfish.Types.{
  PowerState, state_on, state_off, state_powering_on, state_powering_off, other_state, Status,
  status_unknown, status_on, status_off, status_powering_on, status_powering_off, ResetType,
  reset_on, reset_force_off, System, VirtualMedia, Response, Call, Ctx, Client, RedfishError,
  client_error, operation_retries_exceeded, missing_config, passed_on, Reply, Method,
}
use airshipctl.Redfish.Api.{Api}
use airshipctl.Redfish.Errors.{screen}
use airshipctl.Redfish.Ids.{media_id_of, private_manager_id, get_manager_id, set_auth}

unfoldable pub state_eqb : PowerState → PowerState → Bool
state_eqb state_on state_on = true
state_eqb state_off state_off = true
state_eqb state_powering_on state_powering_on = true
state_eqb state_powering_off state_powering_off = true
state_eqb (other_state s) (other_state t) = s == t
state_eqb _ _ = false

unfoldable pub state_text : PowerState → String
state_text state_on = "On"
state_text state_off = "Off"
state_text state_powering_on = "PoweringOn"
state_text state_powering_off = "PoweringOff"
state_text (other_state s) = s

-- `system.PowerState != nil && *system.PowerState == desiredState`
unfoldable pub has_state : PowerState → System → Bool
unfolding state_eqb
has_state desired system = elim system.power_state [ none ↦ false | some s ↦ state_eqb s desired ]

module _ (A : Api) (c : Client) where
  open A use {World}

  -- A call whose answer is screened.
  unfoldable pub screened : {V : Type 0} → (World → Call V × World) → Method World V
  screened call w =
      let (r, w') = call w in then_do (screen A r.response r.error, w') (λ _ w''. (ok r.value, w''))

  -- The loop of waitForPowerState, with the rounds that are left.
  unfoldable pub wait_rounds : Ctx → PowerState → ℕ → Method World Unit
  unfolding screened has_state state_text
  wait_rounds ctx desired zero w = (
    err (
        operation_retries_exceeded ("reach desired power state " <> state_text desired)
          c.system_action_retries),
    w,
  )
  wait_rounds ctx desired (suc rounds) w =
      let (r, w') = screened (A.get_system ctx c.node_id) w in
      elim r [
        | err e ↦ (err e, w')
        | crash k ↦ (crash k, w')
        | ok system ↦ elim (has_state desired system) [
          | true ↦ (ok tt, w')
          | false ↦ wait_rounds ctx desired rounds (A.sleep c.system_reboot_delay w')
        ]
      ]

  unfoldable pub wait_for_power_state : Ctx → PowerState → Method World Unit
  unfolding wait_rounds
  wait_for_power_state ctx desired =
      wait_rounds ctx desired (rounds_through c.system_action_retries)

  -- waitForEjectMedia
  unfoldable pub wait_eject_rounds : Ctx → String → String → ℕ → Method World Unit
  unfolding screened
  wait_eject_rounds ctx manager_id media_id zero w =
      (err (operation_retries_exceeded ("eject media " <> media_id) c.system_action_retries), w)
  wait_eject_rounds ctx manager_id media_id (suc rounds) w =
      let (r, w') = screened (A.get_manager_virtual_media ctx manager_id media_id) w in
      elim r [
        | err e ↦ (err e, w')
        | crash k ↦ (crash k, w')
        | ok media ↦ elim media.inserted [
          | false ↦ (ok tt, w')
          | true ↦ wait_eject_rounds ctx manager_id media_id rounds w'
        ]
      ]

  -- The branch of EjectVirtualMedia for a device that something is inserted in.
  unfoldable pub eject_inserted : Ctx → String → String → Method World Unit
  unfolding screened wait_eject_rounds
  eject_inserted ctx manager_id media_id = do
    screened (A.eject_virtual_media ctx manager_id media_id)
    wait_eject_rounds ctx manager_id media_id (rounds_below c.system_action_retries)

  unfoldable pub eject_device : Ctx → String → String → Method World Unit
  eject_device ctx manager_id media_id = do
    media ← screened (A.get_manager_virtual_media ctx manager_id media_id)
    if media.inserted then eject_inserted ctx manager_id media_id else pure tt

  -- One round of the walk over the media devices.
  unfoldable pub eject_media : Ctx → String → Option String → Method World Unit
  eject_media ctx manager_id ref = do
    media_id ← lift (media_id_of A ref)
    eject_device ctx manager_id media_id

  unfoldable pub eject_all : Ctx → String → List (Option String) → Method World Unit
  eject_all ctx manager_id [] = pure tt
  eject_all ctx manager_id (ref ∷ refs) = do
    eject_media ctx manager_id ref
    eject_all ctx manager_id refs

  auth : Ctx → Ctx
  unfolding set_auth
  auth = set_auth c.username c.password

  unfoldable pub eject_virtual_media : Ctx → Method World Unit
  unfolding auth
  eject_virtual_media ctx = do
    manager_id ← private_manager_id A (auth ctx) c.node_id
    members ← screened (A.list_manager_virtual_media (auth ctx) manager_id)
    eject_all (auth ctx) manager_id members

  unfoldable pub reboot_system : Ctx → Method World Unit
  unfolding auth screened wait_for_power_state
  reboot_system ctx = do
    screened (A.reset_system (auth ctx) c.node_id reset_force_off)
    wait_for_power_state (auth ctx) state_off
    screened (A.reset_system (auth ctx) c.node_id reset_on)
    wait_for_power_state (auth ctx) state_on

  -- `httpResp != nil && httpResp.StatusCode == http.StatusConflict`
  is_conflict : Option Response → Bool
  is_conflict none = false
  is_conflict (some r) = nat_eqb r.status_code 409

  unfoldable pub system_power_off : Ctx → Method World Unit
  unfolding auth is_conflict wait_for_power_state
  system_power_off ctx w =
      let (r, w') = A.reset_system (auth ctx) c.node_id reset_force_off w in
      let rest =
        then_do (screen A r.response r.error, w')
          (λ _. wait_for_power_state (auth ctx) state_off) in
      if is_conflict r.response then (ok tt, w') else rest

  unfoldable pub system_power_on : Ctx → Method World Unit
  unfolding auth screened wait_for_power_state
  system_power_on ctx = do
    screened (A.reset_system (auth ctx) c.node_id reset_on)
    wait_for_power_state (auth ctx) state_on

  status_of : Option PowerState → Status
  status_of none = status_unknown
  status_of (some state_on) = status_on
  status_of (some state_off) = status_off
  status_of (some state_powering_on) = status_powering_on
  status_of (some state_powering_off) = status_powering_off
  status_of (some (other_state s)) = status_unknown

  -- The status beside an error is StatusUnknown.
  unfoldable pub system_power_status : Ctx → Method World Status
  unfolding auth screened status_of
  system_power_status ctx = do
    system ← screened (A.get_system (auth ctx) c.node_id)
    pure (status_of system.power_state)
