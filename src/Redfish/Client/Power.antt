-- ===== src/Redfish/Client/Power.antt =====
-- Reboot, power off and power on of redfish/client.go: what the controller has shown where they end
-- without an error.
use airshipctl.Base.{
  rounds_through, true, false, Option, none, some, ok, Bool-cases, ◌≡◌, refl, sym, ap, ◌∙◌, ◌↔◌,
  ◌⊎◌, inl, inr, arith,
}
use airshipctl.Base.Procs.{◌>>◌, >>=-inv, >>=-intro, >>=_assoc}
use airshipctl.Redfish.Types.{
  Response, PowerState, state_on, state_off, ResetType, reset_on, reset_force_off, Ctx, Client,
  Call, Reply,
}
use airshipctl.Redfish.Api.{Api}
use airshipctl.Redfish.Errors.Screening.{Succeeded, screen-eq-ok}
use airshipctl.Redfish.Ids.{set_auth}
use airshipctl.Redfish.Client.{
  screened, wait_for_power_state, system_power_off, system_power_on, reboot_system, is_conflict,
}
use airshipctl.Redfish.Client.Waiting.{Found, wait_for_power_state-eq-ok}

module _ (A : Api) (c : Client) where
  open A use {World}

  -- The controller accepts the reset, and a poll within the retries then shows the state.
  abbrev pub Reaches : Ctx → ResetType → PowerState → World → World → Type 0
  Reaches ctx reset state w w' =
      let (r, w₁) = A.reset_system ctx c.node_id reset w in
      Succeeded r.response × Found A c ctx state (rounds_through c.system_action_retries) w₁ w'

  pub screened-world :
      {V : Type 0} (call : World → Call V × World) (w : World)
      → (screened A c call w).1 ≡ (call w).1
  unfolding screened
  screened-world call w = ground arith

  pub screened-value :
      {V : Type 0} (call : World → Call V × World) (w : World) {v : V}
      → (screened A c call w).0 ≡ ok v
      → v ≡ (call w).0.value
  unfolding screened
  screened-value call w h = ground arith

  -- A screened call passes exactly if its answer says that it succeeded.
  pub screened-eq-ok :
      {V : Type 0} (call : World → Call V × World) (w : World)
      → ((screened A c call w).0 ≡ ok (call w).0.value) ↔ Succeeded (call w).0.response
  unfolding screened
  screened-eq-ok call w =
      let r = (call w).0 in
      (
        λ e. (screen-eq-ok A r.response r.error).0 (ground arith),
        λ s. let e = (screen-eq-ok A r.response r.error).1 s in ground arith,
      )

  reset_and_wait : Ctx → ResetType → PowerState → World → Reply Unit × World
  reset_and_wait ctx reset state =
      screened A c (A.reset_system ctx c.node_id reset) >> wait_for_power_state A c ctx state

  reset_and_wait-Reaches :
      (ctx : Ctx) (reset : ResetType) (state : PowerState) (w w' : World)
      → (reset_and_wait ctx reset state w ≡ (ok tt, w')) ↔ Reaches ctx reset state w w'
  unfolding reset_and_wait
  reset_and_wait-Reaches ctx reset state w w' =
      let call = A.reset_system ctx c.node_id reset in
      let next = λ (_ : Unit {0}). wait_for_power_state A c ctx state in
      let wait_iff = wait_for_power_state-eq-ok A c ctx state (call w).1 w' in
      let same = screened-world call w in
      (
        λ e.
            let (a, p, q) = >>=-inv (screened A c call) next w e in
            ((screened-eq-ok call w).0 (p), wait_iff.0 (rw same at q)),
        λ (s, f).
            >>=-intro (screened A c call) next w tt ((screened-eq-ok call w).1 s)
            ∙ rw same (wait_iff.1 f),
      )

  -- SystemPowerOn ends without an error exactly if the controller accepts the request and a poll
  -- within the retries shows the node on, and the world is the one after that poll.
  pub system_power_on-eq-ok :
      (ctx : Ctx) (w w' : World)
      → (system_power_on A c ctx w ≡ (ok tt, w'))
        ↔ Reaches (set_auth c.username c.password ctx) reset_on state_on w w'
  unfolding system_power_on reset_and_wait
  system_power_on-eq-ok ctx w w' =
      reset_and_wait-Reaches (set_auth c.username c.password ctx) reset_on state_on w w'

  reboot_in_two :
      (ctx : Ctx) (w : World)
      → let ctx' = set_auth c.username c.password ctx in
        (reset_and_wait ctx' reset_force_off state_off >> reset_and_wait ctx' reset_on state_on) w
        ≡ reboot_system A c ctx w
  unfolding reset_and_wait reboot_system
  reboot_in_two ctx w =
      let ctx' = set_auth c.username c.password ctx in
      >>=_assoc (screened A c (A.reset_system ctx' c.node_id reset_force_off))
        (λ _. wait_for_power_state A c ctx' state_off) (λ _. reset_and_wait ctx' reset_on state_on)
        w

  -- RebootSystem ends without an error exactly if the forced power off is accepted, a poll within the
  -- retries then shows the node off, and from there the power on is accepted and a poll shows it on.
  pub reboot_system-eq-ok :
      (ctx : Ctx) (w w' : World)
      → (reboot_system A c ctx w ≡ (ok tt, w')) ↔ (
          (w₁ : World) × Reaches (set_auth c.username c.password ctx) reset_force_off state_off w w₁
          × Reaches (set_auth c.username c.password ctx) reset_on state_on w₁ w')
  reboot_system-eq-ok ctx w w' =
      let ctx' = set_auth c.username c.password ctx in
      let off = reset_and_wait ctx' reset_force_off state_off in
      let on = λ (_ : Unit {0}). reset_and_wait ctx' reset_on state_on in
      let u = (off w).1 in
      let joined = reboot_in_two ctx w in
      let on_iff = λ (u : World). reset_and_wait-Reaches ctx' reset_on state_on u w' in
      let off_iff = λ (u : World). reset_and_wait-Reaches ctx' reset_force_off state_off w u in
      (
        λ e.
            let (a, p, q) = >>=-inv off on w (joined ∙ e) in
            (u, (off_iff u).0 (ap (λ r. (r, u)) p), (on_iff u).0 q),
        λ (u, f, r).
            let e = (off_iff u).1 f in
            sym joined
            ∙ >>=-intro off on w tt (ap (λ r. r.0) e)
            ∙ rw (ap (λ r. r.1) e) ((on_iff u).1 r),
      )

  conflict_code :
      (response : Option Response)
      → (is_conflict A c response ≡ true)
        ↔ ((a : Response) × (response ≡ some a) × (a.status_code ≡ 409))
  unfolding is_conflict
  conflict_code none = (λ h. cc, λ (a, e, s). cc)
  conflict_code (some a) = (λ h. (a, refl, ground arith), λ (b, e, s). ground arith)

  power_off_conflict :
      (ctx : Ctx) (w : World)
      → let (r, w₁) =
          A.reset_system (set_auth c.username c.password ctx) c.node_id reset_force_off w in
        is_conflict A c r.response ≡ true → system_power_off A c ctx w ≡ (ok tt, w₁)
  power_off_conflict ctx w k = unfold system_power_off in rw k

  power_off_otherwise :
      (ctx : Ctx) (w : World)
      → let ctx' = set_auth c.username c.password ctx in
        is_conflict A c (A.reset_system ctx' c.node_id reset_force_off w).0.response ≡ false
        → system_power_off A c ctx w ≡ reset_and_wait ctx' reset_force_off state_off w
  unfolding system_power_off reset_and_wait screened
  power_off_otherwise ctx w k = ground arith

  -- SystemPowerOff ends without an error exactly if the controller reports a conflict, which means
  -- that the node is off already, or accepts the request and a poll then shows the node off.
  pub system_power_off-eq-ok :
      (ctx : Ctx) (w w' : World)
      → let ctx' = set_auth c.username c.password ctx in
        let (r, w₁) = A.reset_system ctx' c.node_id reset_force_off w in
        (system_power_off A c ctx w ≡ (ok tt, w')) ↔ (
          ((a : Response) × (r.response ≡ some a) × (a.status_code ≡ 409) × (w' ≡ w₁))
          ⊎ Reaches ctx' reset_force_off state_off w w')
  system_power_off-eq-ok ctx w w' =
      let ctx' = set_auth c.username c.password ctx in
      let (r, w₁) = A.reset_system ctx' c.node_id reset_force_off w in
      let wait_iff = reset_and_wait-Reaches ctx' reset_force_off state_off w w' in
      elim (Bool-cases (is_conflict A c r.response)) [
        | inl k ↦
            let (a, e, s) = (conflict_code r.response).0 k in
            let same = power_off_conflict ctx w k in
            (
              λ h. inl (a, e, s, ap (λ r. r.1) (sym h ∙ same)),
              elim [ inl (_, _, _, h) ↦ same ∙ rw h | inr (s', f) ↦ absurd (ground arith) ],
            )
        | inr k ↦
            let same = power_off_otherwise ctx w k in
            (
              λ h. inr (wait_iff.0 (sym same ∙ h)),
              elim [
                | inl (b, e, s, _) ↦ absurd (ground (arith, (conflict_code r.response).1 (b, e, s)))
                | inr f ↦ same ∙ wait_iff.1 f
              ],
            )
      ]
