-- ===== src/Redfish/Dell/Booting.antt =====
-- SetBootSourceByType of the Dell client: when it succeeds, and where it panics.
use airshipctl.Base.{
  String, Option, none, some, ok, crash, nil_pointer, ◌≡◌, ◌↔◌, refl, ap, ◌∙◌, arith,
}
use airshipctl.Base.Procs.{◌>>=◌, >>=-inv, >>=-intro}
use airshipctl.Redfish.Types.{Ctx, Client, Method}
use airshipctl.Redfish.Api.{Api}
use airshipctl.Redfish.Ids.{set_auth, get_manager_id}
use airshipctl.Redfish.Dell.{
  HttpResponse, Http, Request, screen_idrac, boot_request, send_screened, set_boot_source,
}

module _ (A : Api) (H : Http A.World) (c : Client) (ctx : Ctx) (w : A.World) where
  -- The request for the boot source is accepted: the iDRAC answers 202, with no error beside it.
  pub record Accepted (w' : A.World) : Type 0 where
    pub manager : String
    pub request : Request
    pub response : HttpResponse
    pub has_manager :
        (get_manager_id A (set_auth c.username c.password ctx) c.node_id w).0 ≡ ok manager
    pub has_request : boot_request A H c manager ≡ ok request
    pub answered :
        H.send request (get_manager_id A (set_auth c.username c.password ctx) c.node_id w).1
        ≡ ((some response, none), w')
    pub is_accepted : response.status_code ≡ 202

  screen_idrac-eq-ok :
      (response : Option HttpResponse) (error : Option String)
      → screen_idrac A H response error ≡ ok tt
      → (r : HttpResponse) × (response ≡ some r) × (error ≡ none) × (r.status_code ≡ 202)
  unfolding screen_idrac
  screen_idrac-eq-ok none error h = absurd (ground arith)
  screen_idrac-eq-ok (some r) error h = (r, refl, ground arith, ground arith)

  accepted_send :
      (request : Request) (r : HttpResponse) (w₁ w' : A.World)
      → H.send request w₁ ≡ ((some r, none), w')
      → r.status_code ≡ 202
      → send_screened A H request w₁ ≡ (ok tt, w')
  unfolding send_screened
  accepted_send request r w₁ w' e s = ground arith

  -- SetBootSourceByType of the Dell client ends without an error exactly if the manager of the node is
  -- found, the request can be made, and the iDRAC answers it with 202 and no error beside it.
  pub set_boot_source-eq-ok :
      (w' : A.World) → (set_boot_source A H c ctx w ≡ (ok tt, w')) ↔ Accepted w'
  unfolding set_boot_source
  set_boot_source-eq-ok w' =
      let first = get_manager_id A (set_auth c.username c.password ctx) c.node_id in
      let w₁ = (first w).1 in
      let build : String → Method A.World Request = λ m u. (boot_request A H c m, u) in
      let send = send_screened A H in
      (
        λ h.
            let (manager, p, q) = >>=-inv first (λ m. build m >>= send) w h in
            let (request, p', q') = >>=-inv (build manager) send w₁ q in
            let ((response, error), w₂) = H.send request w₁ in
            let (r, e, e', s) =
              screen_idrac-eq-ok response error (ap (λ x. x.0) (unfold send_screened in q')) in
            record {
              manager = manager;
              request = request;
              response = r;
              has_manager = p;
              has_request = p';
              answered = unfold send_screened in ground arith;
              is_accepted = s;
            },
        λ a.
            >>=-intro first (λ m. build m >>= send) w a.manager a.has_manager
            ∙ >>=-intro (build a.manager) send w₁ a.request a.has_request
            ∙ accepted_send a.request a.response w₁ w' a.answered a.is_accepted,
      )

  -- Where the request cannot be sent and there is no answer, it panics: the status of the answer is
  -- read before the error is looked at.
  pub set_boot_source_panics :
      (manager : String) (request : Request) (e : String) (w₁ w' : A.World)
      → get_manager_id A (set_auth c.username c.password ctx) c.node_id w ≡ (ok manager, w₁)
      → boot_request A H c manager ≡ ok request
      → H.send request w₁ ≡ ((none, some e), w')
      → set_boot_source A H c ctx w ≡ (crash nil_pointer, w')
  unfolding set_boot_source
  set_boot_source_panics manager request e w₁ w' m r s = rw (m, r, s) refl
