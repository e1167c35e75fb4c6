-- ===== src/Redfish/Errors.antt =====
-- ScreenRedfishError and DecodeRawError of redfish/utils.go.
pub mod Screening
use airshipctl.Base.{
  ℕ, String, ◌<>◌, ◌==◌, nat_eqb, Bool, Option, none, some, List, if◌then◌else◌, ok, err, crash,
  bad_assertion, ◌>>=◌, ◌>>◌,
}
use airshipctl.Redfish.Types.{
  Json, null, boolean, number, text, array, object, Items, no_item, item, Fields, no_field, field,
  Response, ClientError, RedfishError, client_error, unrecognized_response, Reply,
}
use airshipctl.Redfish.Api.{Api}

-- `m[key]`, comma ok. A decoded map has each name once.
unfoldable pub member : String → Fields → Option Json
member key no_field = none
member key (field k v fs) = let later = member key fs in if k == key then some v else later

-- Type assertions, comma ok.
as_object : Json → Option Fields
as_object (object fs) = some fs
as_object _ = none

as_text : Json → Option String
as_text (text s) = some s
as_text _ = none

known_or : {A : Type 0} → Option A → String → Reply A
known_or none key = err (unrecognized_response key)
known_or (some a) key = ok a

-- `%s` of a value
printed : Api → Json → String
printed A (text s) = s
printed A j = A.print_value j

with_resolution : Api → String → Option Json → String
unfolding printed
with_resolution A message none = message
with_resolution A message (some resolution) = message <> (" " <> printed A resolution)

unfoldable pub process_extended_info : Api → Fields → Reply String
unfolding member as_text known_or with_resolution
process_extended_info A info = do
  message ← known_or (member "Message" info) "error.@Message.ExtendedInfo.Message"
  content ← known_or (as_text message) "error.@Message.ExtendedInfo.Message"
  ok (with_resolution A content (member "Resolution" info))

-- `errContent["message"].(string)`, which panics on a missing key or on what is no text.
asserted_text : Option Json → Reply String
asserted_text none = crash bad_assertion
asserted_text (some (text s)) = ok s
asserted_text (some _) = crash bad_assertion

-- The loop over the extended information; the last argument is `errorMessage`.
decode_items : Api → Fields → Items → String → Reply String
decode_items A content no_item message = ok message
decode_items A content (item info rest) message = elim (as_object info) [
  | none ↦ err (unrecognized_response "error.@Message.ExtendedInfo")
  | some fs ↦ elim (member "Message" fs) [
    | none ↦ asserted_text (member "message" content)
    | some _ ↦ elim (process_extended_info A fs) [
      | ok m ↦ decode_items A content rest (m <> ("\n" <> message))
      | err e ↦ err e
      | crash k ↦ crash k
    ]
  ]
]

decode_extended : Api → Fields → Json → Reply String
unfolding decode_items as_object member process_extended_info asserted_text
decode_extended A content (array no_item) =
    err (unrecognized_response "error.@Message.ExtendedInfo")
decode_extended A content (array (item info rest)) = decode_items A content (item info rest) ""
decode_extended A content (object fs) = process_extended_info A fs
decode_extended A content _ = err (unrecognized_response "error.@Message.ExtendedInfo")

unfoldable pub decode_raw_error : Api → String → Reply String
unfolding decode_extended known_or member as_object
decode_raw_error A raw = do
  arbitrary ← known_or (A.unmarshal raw) "error"
  error ← known_or (member "error" arbitrary) "error"
  content ← known_or (as_object error) "error"
  extended ← known_or (member "@Message.ExtendedInfo" content) "error.@Message.ExtendedInfo"
  decode_extended A content extended

-- The message for a status code that is no success.
status_message : Response → String
status_message r =
    if nat_eqb r.status_code 404
    then "System not found. Correct the system name and try again."
    else if nat_eqb r.status_code 400
    then "Invalid request. Verify the system name and try again."
    else if nat_eqb r.status_code 405
    then "This operation is likely unsupported by the BMC Redfish version, or the BMC is busy"
      <> (". BMC returned status '" <> (r.status <> "'."))
    else r.status

-- The body of a GenericOpenAPIError; the zero value of any other error has an empty one.
raw_body : Option ClientError → String
raw_body none = ""
raw_body (some e) = elim e.body [ none ↦ "" | some b ↦ b ]

no_response_message : Option ClientError → String
no_response_message none =
    "HTTP request failed. Redfish may be temporarily unavailable. Please try again."
no_response_message (some e) =
    "HTTP request failed. Redfish may be temporarily unavailable. Please try again."
    <> (" original error " <> e.message)

-- A decoded answer is added to the message; what cannot be decoded is only logged.
unfoldable pub final_error : Api → Response → Option ClientError → Reply Unit
unfolding decode_raw_error status_message raw_body
final_error A r client_err = elim (decode_raw_error A (raw_body client_err)) [
  | ok bmc ↦ err (client_error (status_message r <> ("\nBMC responded: '" <> (bmc <> "'"))))
  | err _ ↦ err (client_error (status_message r))
  | crash k ↦ crash k
]

-- ScreenRedfishError
unfoldable pub screen : Api → Option Response → Option ClientError → Reply Unit
unfolding no_response_message
screen A none client_err = err (client_error (no_response_message client_err))
screen A (some r) client_err =
    if nat_eqb r.status_code 200
    then ok tt
    else if nat_eqb r.status_code 204
    then ok tt
    else final_error A r client_err
