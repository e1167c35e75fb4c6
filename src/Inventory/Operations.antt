-- ===== src/Inventory/Operations.antt =====
-- RunOperation of pkg/inventory/baremetal: on which hosts it acts, in which order, and where it stops.
use airshipctl.Base.{List, [], ◌∷◌, ◌++◌, ok, err, ◌≡◌, ◌≢◌, ◌↔◌, refl, ◌∙◌, arith}
use airshipctl.Config.Types.{ManagementConfiguration}
use airshipctl.Redfish.Types.{Ctx}
use airshipctl.Redfish.Api.{Api}
use airshipctl.Redfish.Dell.{Http}
use airshipctl.Inventory.{
  HostSelector, Operation, InventoryError, Documents, Method, Host, action, act_on_all,
  reject_no_hosts, select_hosts, run_operation,
}

module _ {W : Type 0} (act : Host W → Method W Unit) where
  -- The action has ended without an error on each of the hosts, one after the other.
  pub data Acted : List (Host W) → W → W → Type 0 where
    done : {w : W} → Acted [] w w
    next :
        {host : Host W} {hosts : List (Host W)} {w w₁ w₂ : W}
        → act host w ≡ (ok tt, w₁)
        → Acted hosts w₁ w₂
        → Acted (host ∷ hosts) w w₂

  Acted-append :
      (hosts more : List (Host W)) (w w' : W)
      → Acted hosts w w'
      → act_on_all act (hosts ++ more) w ≡ act_on_all act more w'
  unfolding act_on_all
  Acted-append [] more w w' done = refl
  Acted-append (host ∷ hosts) more w w' (next e r) = rw e (Acted-append hosts more _ w' r)

reject-ne :
    {B : Type 0} (selector : HostSelector) (hosts : List B)
    → (reject_no_hosts selector hosts ≡ ok tt) ↔ (hosts ≢ [])
unfolding reject_no_hosts
reject-ne selector [] = (λ h. absurd (ground arith), λ n. absurd (n refl))
reject-ne selector (host ∷ hosts) = (λ h e. absurd (ground arith), λ n. refl)

not_nil : {B : Type 0} (before : List B) (b : B) (later : List B) → before ++ (b ∷ later) ≢ []
not_nil [] b later e = absurd (ground arith)
not_nil (a ∷ before) b later e = absurd (ground arith)

module _ (A : Api) (H : Http A.World) (D : Documents) (mgmt : ManagementConfiguration) where
  open A use {World}

  -- The first host on which the operation fails ends it with that error, and no later host is touched.
  pub run_operation_stops :
      (ctx : Ctx) (op : Operation) (selector : HostSelector) (act : Host World → Method World Unit)
      (before later : List (Host World)) (host : Host World) (w w₁ w₂ : World) (e : InventoryError)
      → action ctx op ≡ ok act
      → select_hosts A H D mgmt selector ≡ ok (before ++ (host ∷ later))
      → Acted act before w w₁
      → act host w₁ ≡ (err e, w₂)
      → run_operation A H D mgmt ctx op selector w ≡ (err e, w₂)
  unfolding run_operation
  run_operation_stops ctx op selector act before later host w w₁ w₂ e a s b f =
      let all = before ++ (host ∷ later) in
      rw (a, s, (reject-ne selector all).1 (not_nil before host later))
        (Acted-append act before (host ∷ later) w w₁ b ∙ rw f refl)
