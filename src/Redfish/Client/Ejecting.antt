-- ===== src/Redfish/Client/Ejecting.antt =====
-- EjectVirtualMedia against the drives of the controller: where it ends without an error, all of them
-- are empty.
use airshipctl.Base.{
  ℕ, zero, suc, rounds_below, Bool, false, Option, List, [], ◌∷◌, String, ok, Outcome-cases, ◌≡◌,
  ap, subst, inl, inr, arith, All,
}
use airshipctl.Base.Procs.{◌>>=◌, >>=-inv}
use airshipctl.Redfish.Types.{VirtualMedia, Ctx, Client}
use airshipctl.Redfish.Api.{Api}
use airshipctl.Redfish.Errors.Screening.{Succeeded, screen-eq-ok}
use airshipctl.Redfish.Ids.{media_id_of, set_auth, private_manager_id}
use airshipctl.Redfish.Client.{
  screened, wait_eject_rounds, eject_inserted, eject_device, eject_media, eject_all,
  eject_virtual_media,
}
use airshipctl.Redfish.Client.Power.{screened-value}

-- What is relied on: the controller has drives, a successful GET of a device tells whether it is
-- loaded, and neither a GET nor an eject loads an empty drive.
pub record Drives (A : Api) : Type 0 where
  pub loaded : A.World → String → String → Bool
  pub get_tells :
      (ctx : Ctx) (manager media : String) (w : A.World)
      → let (r, w') = A.get_manager_virtual_media ctx manager media w in
        Succeeded r.response → r.value.inserted ≡ loaded w' manager media
  pub get_stays :
      (ctx : Ctx) (manager media : String) (w : A.World) (m i : String)
      → loaded w m i ≡ false
      → loaded (A.get_manager_virtual_media ctx manager media w).1 m i ≡ false
  pub eject_stays :
      (ctx : Ctx) (manager media : String) (w : A.World) (m i : String)
      → loaded w m i ≡ false
      → loaded (A.eject_virtual_media ctx manager media w).1 m i ≡ false

module _ (A : Api) (D : Drives A) (c : Client) (ctx : Ctx) (manager : String) where
  open A use {World}

  -- No drive that was empty is loaded.
  abbrev pub Stays : World → World → Type 0
  Stays w w' = (m i : String) → D.loaded w m i ≡ false → D.loaded w' m i ≡ false

  screened_get :
      (media : String) (w : World) {v : VirtualMedia}
      → let (r, w') = screened A c (A.get_manager_virtual_media ctx manager media) w in
        r ≡ ok v → v.inserted ≡ D.loaded w' manager media
  unfolding screened
  screened_get media w h =
      let (r, w') = A.get_manager_virtual_media ctx manager media w in
      ground (arith, D.get_tells ctx manager media w, (screen-eq-ok A r.response r.error).0)

  screened_get-Stays :
      (media : String) (w : World)
      → Stays w (screened A c (A.get_manager_virtual_media ctx manager media) w).1
  unfolding screened
  screened_get-Stays media w m i h = ground (arith, D.get_stays ctx manager media w m i h)

  wait_eject-Stays :
      (media : String) (n : ℕ) (w : World) → Stays w (wait_eject_rounds A c ctx manager media n w).1
  unfolding wait_eject_rounds
  wait_eject-Stays media zero w m i h = h
  wait_eject-Stays media (suc n) w m i h =
      let w₁ = (screened A c (A.get_manager_virtual_media ctx manager media) w).1 in
      let h₁ = screened_get-Stays media w m i h in
      ground (arith, wait_eject-Stays media n w₁ m i h₁)

  wait_eject_empties :
      (media : String) (n : ℕ) (w : World)
      → (wait_eject_rounds A c ctx manager media n w).0 ≡ ok tt
      → D.loaded (wait_eject_rounds A c ctx manager media n w).1 manager media ≡ false
  unfolding wait_eject_rounds
  wait_eject_empties media zero w h = cc
  wait_eject_empties media (suc n) w h =
      let (r, w₁) = screened A c (A.get_manager_virtual_media ctx manager media) w in
      elim (Outcome-cases r) [
        | inl (v, e) ↦ ground (arith, screened_get media w e, wait_eject_empties media n w₁)
        | inr (inl (x, e)) ↦ absurd (ground arith)
        | inr (inr (k, e)) ↦ absurd (ground arith)
      ]

  eject_inserted-Stays :
      (media : String) (w : World) → Stays w (eject_inserted A c ctx manager media w).1
  unfolding eject_inserted
  eject_inserted-Stays media w m i h =
      let w₁ = (A.eject_virtual_media ctx manager media w).1 in
      let h₁ = D.eject_stays ctx manager media w m i h in
      ground (arith, h₁, wait_eject-Stays media (rounds_below c.system_action_retries) w₁ m i h₁)

  eject_inserted_empties :
      (media : String) (w : World)
      → (eject_inserted A c ctx manager media w).0 ≡ ok tt
      → D.loaded (eject_inserted A c ctx manager media w).1 manager media ≡ false
  unfolding eject_inserted
  eject_inserted_empties media w h =
      let w₁ = (A.eject_virtual_media ctx manager media w).1 in
      ground (arith, wait_eject_empties media (rounds_below c.system_action_retries) w₁)

  eject_device-Stays :
      (media : String) (w : World) → Stays w (eject_device A c ctx manager media w).1
  unfolding eject_device
  eject_device-Stays media w m i h =
      let w₁ = (screened A c (A.get_manager_virtual_media ctx manager media) w).1 in
      let h₁ = screened_get-Stays media w m i h in
      ground (arith, h₁, eject_inserted-Stays media w₁ m i h₁)

  eject_device_empties :
      (media : String) (w : World)
      → (eject_device A c ctx manager media w).0 ≡ ok tt
      → D.loaded (eject_device A c ctx manager media w).1 manager media ≡ false
  unfolding eject_device
  eject_device_empties media w h =
      let (r, w₁) = screened A c (A.get_manager_virtual_media ctx manager media) w in
      elim (Outcome-cases r) [
        | inl (v, e) ↦ ground (arith, screened_get media w e, eject_inserted_empties media w₁)
        | inr (inl (x, e)) ↦ absurd (ground arith)
        | inr (inr (k, e)) ↦ absurd (ground arith)
      ]

  -- The drive that a reference names, if it names one, is empty.
  abbrev pub IsEmpty : World → Option String → Type 0
  IsEmpty w ref = (media : String) → media_id_of A ref ≡ ok media → D.loaded w manager media ≡ false

  eject_media-Stays :
      (ref : Option String) (w : World) → Stays w (eject_media A c ctx manager ref w).1
  unfolding eject_media
  eject_media-Stays ref w m i h = elim (Outcome-cases (media_id_of A ref)) [
    | inl (media, e) ↦ ground (arith, eject_device-Stays media w m i h)
    | inr (inl (x, e)) ↦ ground arith
    | inr (inr (k, e)) ↦ ground arith
  ]

  eject_media-IsEmpty :
      (ref : Option String) (w : World)
      → (eject_media A c ctx manager ref w).0 ≡ ok tt
      → IsEmpty (eject_media A c ctx manager ref w).1 ref
  unfolding eject_media
  eject_media-IsEmpty ref w h media e = ground (arith, eject_device_empties media w)

  eject_all-Stays :
      (refs : List (Option String)) (w : World) → Stays w (eject_all A c ctx manager refs w).1
  unfolding eject_all
  eject_all-Stays [] w m i h = h
  eject_all-Stays (ref ∷ refs) w m i h =
      let w₁ = (eject_media A c ctx manager ref w).1 in
      let h₁ = eject_media-Stays ref w m i h in ground (arith, h₁, eject_all-Stays refs w₁ m i h₁)

  -- Where the walk over the devices ends without an error, each of them is empty at the end.
  pub eject_all-IsEmpty :
      (refs : List (Option String)) (w w' : World)
      → eject_all A c ctx manager refs w ≡ (ok tt, w')
      → All (IsEmpty w') refs
  unfolding eject_all
  eject_all-IsEmpty [] w w' h = tt
  eject_all-IsEmpty (ref ∷ refs) w w' h =
      let first = eject_media A c ctx manager ref in
      let (u, p, q) = >>=-inv first (λ _. eject_all A c ctx manager refs) w h in
      let w₁ = (first w).1 in
      (
        λ media e.
            subst (λ v. D.loaded v manager media ≡ false) (ap (λ r. r.1) q)
              (eject_all-Stays refs w₁ manager media (eject_media-IsEmpty ref w p media e)),
        eject_all-IsEmpty refs w₁ w' q,
      )

module _ (A : Api) (D : Drives A) (c : Client) where
  -- On a controller whose GETs tell whether a drive is loaded, and where neither a GET nor an eject
  -- loads one: where EjectVirtualMedia ends without an error, every device that the manager of the
  -- node lists has an empty drive at the end, whatever was inserted before.
  pub eject_virtual_media-IsEmpty :
      (ctx : Ctx) (w w' : A.World)
      → eject_virtual_media A c ctx w ≡ (ok tt, w')
      → let ctx' = set_auth c.username c.password ctx in
        let (r, w₁) = private_manager_id A ctx' c.node_id w in
        (manager : String) × (r ≡ ok manager)
        × All (IsEmpty A D c ctx' manager w') (A.list_manager_virtual_media ctx' manager w₁).0.value
  unfolding eject_virtual_media
  eject_virtual_media-IsEmpty ctx w w' h =
      let ctx' = set_auth c.username c.password ctx in
      let call = A.list_manager_virtual_media ctx' in
      let first = private_manager_id A ctx' c.node_id in
      let walk = eject_all A c ctx' in
      let rest = λ (m : String). (screened A c (call m) >>= walk m) in
      let w₁ = (first w).1 in
      let (m, p, q) = >>=-inv first rest w h in
      let (refs, p', q') = >>=-inv (screened A c (call m)) (walk m) w₁ q in
      let w₂ = (screened A c (call m) w₁).1 in
      (
        m,
        p,
        subst (All (IsEmpty A D c ctx' m w')) (screened-value A c (call m) w₁ p')
            (eject_all-IsEmpty A D c ctx' m refs w₂ w' q'),
      )
