-- ===== src/Redfish/Errors/Screening.antt =====
-- What ScreenRedfishError accepts, and where it panics.
use airshipctl.Base.{
  String, Option, none, some, ok, crash, bad_assertion, Option-cases, ◌≡◌, ◌≢◌, ◌↔◌, ◌⊎◌, inl, inr,
  arith,
}
use airshipctl.Redfish.Types.{array, object, Items, item, Fields, Response, ClientError}
use airshipctl.Redfish.Api.{Api}
use airshipctl.Redfish.Errors.{screen, member, decode_raw_error, final_error}

-- An HTTP answer that says OK or No Content.
abbrev pub Succeeded : Option Response → Type 0
Succeeded response =
    (r : Response) × (response ≡ some r) × ((r.status_code ≡ 200) ⊎ (r.status_code ≡ 204))

module _ (A : Api) (response : Option Response) (client_err : Option ClientError) where
  final_error-ne-ok : (r : Response) → final_error A r client_err ≢ ok tt
  unfolding final_error
  final_error-ne-ok r h = ground arith

  screen-Succeeded : screen A response client_err ≡ ok tt → Succeeded response
  unfolding screen
  screen-Succeeded h = elim (Option-cases response) [
    | inl e ↦ absurd (ground arith)
    | inr (r, e) ↦ (r, e, ground (arith, final_error-ne-ok r))
  ]

  Succeeded-screen : Succeeded response → screen A response client_err ≡ ok tt
  unfolding screen
  Succeeded-screen (r, e, s) = ground arith

  -- The status code alone decides: an answer passes exactly if it is there and says 200 or 204,
  -- whatever error go-redfish returned beside it.
  pub screen-eq-ok : (screen A response client_err ≡ ok tt) ↔ Succeeded response
  screen-eq-ok = (screen-Succeeded, Succeeded-screen)

-- An error body whose extended information begins with an object that has no Message, while the
-- error itself has no message.
pub record LacksMessages (A : Api) (body : String) : Type 0 where
  pub whole : Fields
  pub content : Fields
  pub info : Fields
  pub rest : Items
  pub is_json : A.unmarshal body ≡ some whole
  pub has_error : member "error" whole ≡ some (object content)
  pub has_extended : member "@Message.ExtendedInfo" content ≡ some (array (item (object info) rest))
  pub no_item_message : member "Message" info ≡ none
  pub no_message : member "message" content ≡ none

decode-LacksMessages :
    (A : Api) (body : String) → LacksMessages A body → decode_raw_error A body ≡ crash bad_assertion
unfolding decode_raw_error
decode-LacksMessages A body l = ground arith

-- For such a body, with any status but 200 and 204, ScreenRedfishError does not return an error but
-- panics: DecodeRawError asserts that the error's message is a text without looking.
pub screen_panics :
    (A : Api) (r : Response) (e : ClientError) (body : String)
    → r.status_code ≢ 200
    → r.status_code ≢ 204
    → e.body ≡ some body
    → LacksMessages A body
    → screen A (some r) (some e) ≡ crash bad_assertion
unfolding screen final_error
screen_panics A r e body n m b l = ground (arith, decode-LacksMessages A body l)
