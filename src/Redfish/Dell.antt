-- ===== src/Redfish/Dell.antt =====
-- redfish/vendors/dell/client.go: the Redfish client with a boot source that is set through the
-- iDRAC actions API.
pub mod Booting
use airshipctl.Base.{
  ℕ, ℤ, String, ◌<>◌, ◌==◌, nat_eqb, Bool, ◌&&◌, Option, none, some, List, [], ◌∷◌, if◌then◌else◌,
  Outcome, ok, err, crash, nil_pointer, index_out_of_range, ◌>>=◌ as bind_outcome,
}
use airshipctl.Base.Procs.{◌>>=◌, ◌>>◌, lift}
use airshipctl.Redfish.Types.{
  BasicAuth, Ctx, Client, RedfishError, client_error, passed_on, Reply, Method,
}
use airshipctl.Redfish.Api.{Api}
use airshipctl.Redfish.Ids.{set_auth, get_manager_id, new_client}
use airshipctl.Redfish.Direct.{Driver, redfish_driver}

-- iDRACAPIExtendedInfo
pub record ExtendedInfo : Type 0 where
  pub message : String
  pub resolution : String

-- *http.Response, whose body may fail to be read
pub record HttpResponse : Type 0 where
  pub status_code : ℕ
  pub body : Outcome String String

pub record Request : Type 0 where
  pub url : String
  pub body : String
  pub accept : String
  pub content_type : String
  pub basic_auth : Option BasicAuth

-- What is taken from net/http and encoding/json: the error of http.NewRequest for a URL, HTTPClient.Do,
-- and the extended information of an error body.
pub record Http (W : Type 0) : Type 0 where
  pub request_error : String → Option String
  pub send : Request → W → (Option HttpResponse × Option String) × W
  pub unmarshal : String → Option (List ExtendedInfo)

abbrev pub v_cd_boot_request_body : String
v_cd_boot_request_body =
    "{\n\t    \"ShareParameters\": {\n\t        \"Target\": \"ALL\"\n\t    },\n\t    \"ShutdownType\": \"NoReboot\",\n\t    \"ImportBuffer\": \"<SystemConfiguration>\n\t                       <Component FQDD=\\\"iDRAC.Embedded.1\\\">\n\t                         <Attribute Name=\\\"ServerBoot.1#BootOnce\\\">Enabled</Attribute>\n\t                         <Attribute Name=\\\"ServerBoot.1#FirstBootDevice\\\">VCD-DVD</Attribute>\n\t                       </Component>\n\t                     </SystemConfiguration>\"\n\t}"

abbrev pub endpoint_import_sys_cfg : String → String → String
endpoint_import_sys_cfg server manager_id =
    server
    <> ("/redfish/v1/Managers/"
        <> (manager_id <> "/Actions/Oem/EID_674_Manager.ImportSystemConfiguration"))

-- `iDRACResp.Err.ExtendedInfo[0]`, printed with `%s`
unfoldable first_info : List ExtendedInfo → Reply Unit
first_info [] = crash index_out_of_range
first_info (info ∷ infos) = err (
    client_error
      ("Unable to set boot device. {" <> (info.message <> (" " <> (info.resolution <> "}")))))

module _ (A : Api) (H : Http A.World) where
  open A use {World}

  unfoldable decode_idrac : Outcome String String → Reply Unit
  unfolding first_info
  decode_idrac (ok body) = elim (H.unmarshal body) [
    | none ↦ err (client_error "Unable to set boot device. Malformed iDrac response.")
    | some infos ↦ first_info infos
  ]
  decode_idrac (err e) = err (client_error "Unable to set boot device. Malformed iDRAC response.")
  decode_idrac (crash k) = crash k

  unfoldable send_error : Option String → Reply Unit
  send_error none = ok tt
  send_error (some e) = err (client_error ("Unable to set boot device. " <> e))

  -- The status is read before the error, so a missing answer panics.
  unfoldable pub screen_idrac : Option HttpResponse → Option String → Reply Unit
  unfolding decode_idrac send_error
  screen_idrac none error = crash nil_pointer
  screen_idrac (some r) error =
      if nat_eqb r.status_code 202 then send_error error else decode_idrac r.body

  unfoldable pub boot_request : Client → String → Reply Request
  boot_request c manager_id =
      let url = endpoint_import_sys_cfg c.redfish_cfg.server_url manager_id in
      elim (H.request_error url) [
        | some e ↦ err (passed_on e)
        | none ↦ ok (record {
          url = url;
          body = v_cd_boot_request_body;
          accept = "application/json";
          content_type = "application/json";
          basic_auth =
              if (c.password == "") && (c.username == "")
              then none
              else some (record { user_name = c.username; password = c.password });
        })
      ]

  unfoldable pub send_screened : Request → Method World Unit
  unfolding screen_idrac
  send_screened request w =
      let ((response, error), w') = H.send request w in (screen_idrac response error, w')

  -- Client.SetBootSourceByType
  unfoldable pub set_boot_source : Client → Ctx → Method World Unit
  unfolding set_auth get_manager_id boot_request send_screened
  set_boot_source c ctx = do
    manager_id ← get_manager_id A (set_auth c.username c.password ctx) c.node_id
    request ← lift (boot_request c manager_id)
    send_screened request

  -- The Dell client as a driver: the Redfish client but for the boot source.
  unfoldable pub dell_driver : Client → Driver World
  unfolding redfish_driver
  dell_driver c = record (redfish_driver A c) { set_boot_source_by_type = set_boot_source c }
