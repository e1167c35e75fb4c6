-- ===== src/Redfish/Types.antt =====
-- The data of pkg/remote/redfish and pkg/remote/power: what the go-redfish client returns, as far as
-- the code reads it, the client's settings, and the errors.
use airshipctl.Base.{ℕ, ℤ, String, Bool, Option, List, Outcome, Proc}

-- Arbitrary JSON, as `json.Unmarshal` gives it.
mutual
  pub data Json : Type 0 where
    null : Json
    boolean : Bool → Json
    number : String → Json
    text : String → Json
    array : Items → Json
    object : Fields → Json

  pub data Items : Type 0 where
    no_item : Items
    item : Json → Items → Items

  pub data Fields : Type 0 where
    no_field : Fields
    field : String → Json → Fields → Fields

pub data PowerState : Type 0 where
  state_on state_off state_powering_on state_powering_off : PowerState
  other_state : String → PowerState

-- power.Status
pub data Status : Type 0 where
  status_unknown status_on status_off status_powering_on status_powering_off : Status

pub data ResetType : Type 0 where
  reset_on reset_force_off : ResetType

-- Pointers of the go-redfish structs are `Option`s.
pub record System : Type 0 where
  pub managed_by : Option (List (Option String))
  pub power_state : Option PowerState
  pub boot_targets : List String

pub record VirtualMedia : Type 0 where
  pub name : String
  pub inserted : Bool
  pub media_types : Option (List String)

-- *http.Response, as far as it is read
pub record Response : Type 0 where
  pub status_code : ℕ
  pub status : String

-- The client's error: its text, and the body if it is a GenericOpenAPIError.
pub record ClientError : Type 0 where
  pub message : String
  pub body : Option String

-- What an Execute method returns.
pub record Call (A : Type 0) : Type 0 where
  pub value : A
  pub response : Option Response
  pub error : Option ClientError

pub record BasicAuth : Type 0 where
  pub user_name : String
  pub password : String

-- context.Context, as far as it holds the credentials
pub record Ctx : Type 0 where
  pub basic_auth : Option BasicAuth

-- redfishClient.Configuration, with the settings of its HTTP transport
pub record Configuration : Type 0 where
  pub server_url : String
  pub insecure_skip_verify : Bool
  pub use_proxy : Bool

pub record Client : Type 0 where
  pub node_id : String
  pub node_name : String
  pub username : String
  pub password : String
  pub redfish_url : String
  pub redfish_cfg : Configuration
  pub system_action_retries : ℤ
  pub system_reboot_delay : ℤ

pub data RedfishError : Type 0 where
  client_error : String → RedfishError
  missing_config : String → RedfishError
  operation_retries_exceeded : String → ℤ → RedfishError
  unrecognized_response : String → RedfishError
  -- an error of go-redfish or of the HTTP client that is passed on as it is
  passed_on : String → RedfishError

abbrev pub Reply : Type 0 → Type 0
Reply A = Outcome RedfishError A

abbrev pub Method : Type 0 → Type 0 → Type 0
Method W A = Proc W RedfishError A
