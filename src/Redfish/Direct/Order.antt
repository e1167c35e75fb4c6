-- ===== src/Redfish/Direct/Order.antt =====
-- RemoteDirect: where it ends, and what it has done by then.
use airshipctl.Base.{String, ◌==◌, false, ok, err, ◌≡◌, ap, ◌≢◌, ◌↔◌, arith, eq_iff, reject_if}
use airshipctl.Base.Procs.{◌>>◌, >>=-inv}
use airshipctl.Redfish.Types.{
  Ctx, Client, Status, status_off, Method, missing_config, state_on, reset_on, RedfishError,
}
use airshipctl.Redfish.Api.{Api}
use airshipctl.Redfish.Ids.{set_auth}
use airshipctl.Redfish.Client.Power.{Reaches, system_power_on-eq-ok}
use airshipctl.Redfish.Direct.{Driver, is_off, ensure_off, remote_direct, redfish_driver}

is_off-ne : (s : Status) → s ≢ status_off → is_off s ≡ false
unfolding is_off
is_off-ne s n = ground arith

module _ {W : Type 0} (d : Driver W) (ctx : Ctx) where
  -- With no ISO URL and a node that is not off, RemoteDirect first powers the node off and then
  -- fails for the missing URL: the error leaves the node off.
  pub remote_direct_no_iso :
      (w w₁ w₂ : W) (s : Status)
      → d.system_power_status ctx w ≡ (ok s, w₁)
      → s ≢ status_off
      → d.system_power_off ctx w₁ ≡ (ok tt, w₂)
      → remote_direct d ctx "" w ≡ (err (missing_config "isoURL"), w₂)
  unfolding remote_direct
  remote_direct_no_iso w w₁ w₂ s p n q = rw (p, is_off-ne s n, q, remote_direct)

  -- The calls of a RemoteDirect that ends without an error, in their order.
  pub record Directed (iso_url : String) (w w' : W) : Type 0 where
    pub has_url : iso_url ≢ ""
    pub off : W
    pub media : W
    pub boot : W
    pub powered_off : ensure_off d ctx w ≡ (ok tt, off)
    pub inserted : d.set_virtual_media ctx iso_url off ≡ (ok tt, media)
    pub boot_set : d.set_boot_source_by_type ctx media ≡ (ok tt, boot)
    pub powered_on : d.system_power_on ctx boot ≡ (ok tt, w')

  pair_eq : {B : Type 0} (m : Method W B) (w : W) (b : B) → (m w).0 ≡ ok b → m w ≡ (ok b, (m w).1)
  pair_eq m w b p = ap (λ r. (r, (m w).1)) p

  pub remote_direct-eq-ok :
      (iso_url : String) (w w' : W)
      → (remote_direct d ctx iso_url w ≡ (ok tt, w')) ↔ Directed iso_url w w'
  unfolding remote_direct
  remote_direct-eq-ok iso_url w w' =
      let insert = d.set_virtual_media ctx iso_url in
      let boot = d.set_boot_source_by_type ctx in
      let on = d.system_power_on ctx in
      let given : Method W Unit = λ u. (reject_if (iso_url == "") (missing_config "isoURL"), u) in
      (
        λ e.
            let (_, p, e₁) =
              >>=-inv (ensure_off d ctx) (λ _. given >> (insert >> (boot >> on))) w e in
            let w₁ = (ensure_off d ctx w).1 in
            let (_, g, e₂) = >>=-inv given (λ _. insert >> (boot >> on)) w₁ e₁ in
            let (_, q, e₃) = >>=-inv insert (λ _. boot >> on) w₁ e₂ in
            let w₂ = (insert w₁).1 in
            let (_, r, e₄) = >>=-inv boot (λ _. on) w₂ e₃ in
            record {
              has_url = ground (arith, eq_iff iso_url "");
              off = w₁;
              media = w₂;
              boot = (boot w₂).1;
              powered_off = pair_eq (ensure_off d ctx) w tt p;
              inserted = pair_eq insert w₁ tt q;
              boot_set = pair_eq boot w₂ tt r;
              powered_on = e₄;
            },
        λ s.
            let u = s.has_url in
            let g : reject_if {E = RedfishError} (iso_url == "") (missing_config "isoURL") ≡ ok tt =
              ground (arith, eq_iff iso_url "") in
            rw (s.powered_off, g, s.inserted, s.boot_set, s.powered_on),
      )

module _ (A : Api) (c : Client) where
  -- Where RemoteDirect over the Redfish client ends without an error, there was an ISO URL, and the
  -- last thing it did is a power on that the controller accepted, after which a poll within the
  -- retries showed the node on.
  pub remote_direct-Reaches :
      (ctx : Ctx) (iso_url : String) (w w' : A.World)
      → remote_direct (redfish_driver A c) ctx iso_url w ≡ (ok tt, w')
      → (iso_url ≢ "")
        × ((w₁ : A.World) × Reaches A c
              (set_auth c.username c.password ctx)
              reset_on
              state_on
              w₁
              w')
  remote_direct-Reaches ctx iso_url w w' h =
      let d = (remote_direct-eq-ok (redfish_driver A c) ctx iso_url w w').0 h in
      (
        d.has_url,
        (
          d.boot,
          (system_power_on-eq-ok A c ctx d.boot w').0 (unfold redfish_driver in d.powered_on),
        ),
      )
