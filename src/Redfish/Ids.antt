-- ===== src/Redfish/Ids.antt =====
-- Resource IDs, the base path and the credentials of a request (redfish/utils.go), and NewClient.
use airshipctl.Base.{
  ℤ, String, ◌<>◌, ◌==◌, Bool, true, false, Option, none, some, List, [], ◌∷◌, ok, err, crash,
  fatal, index_out_of_range, ◌>>=◌, ◌>>◌, reject_if, deref,
}
use airshipctl.Base.Paths.{split, last_elem, trim_suffix}
use airshipctl.Redfish.Types.{
  System, Call, Ctx, Client, client_error, missing_config, passed_on, Reply,
}
use airshipctl.Redfish.Api.{Api}
use airshipctl.Redfish.Errors.{screen}

-- GetResourceIDFromURL; a URL that cannot be parsed ends the process.
unfoldable pub get_resource_id_from_url : Api → String → Reply String
unfolding split last_elem trim_suffix
get_resource_id_from_url A ref_url = elim (A.url_path ref_url) [
  | none ↦ crash fatal
  | some path ↦ ok (last_elem (split "/" (trim_suffix "/" path)))
]

-- The ID that a reference with an `*OdataId` names.
unfoldable pub media_id_of : Api → Option String → Reply String
unfolding get_resource_id_from_url
media_id_of A ref = deref ref >>= get_resource_id_from_url A

-- IsIDInList
unfoldable pub is_id_in_list : Api → List (Option String) → String → Reply Bool
unfolding media_id_of
is_id_in_list A [] id = ok false
is_id_in_list A (ref ∷ refs) id = elim (media_id_of A ref) [
  | ok r_id ↦ elim (r_id == id) [ true ↦ ok true | false ↦ is_id_in_list A refs id ]
  | err e ↦ err e
  | crash k ↦ crash k
]

-- `*(*system.Links.ManagedBy)[0].OdataId`
first_ref : List (Option String) → Reply String
first_ref [] = crash index_out_of_range
first_ref (ref ∷ refs) = deref ref

unfoldable pub manager_of : Api → System → Reply String
unfolding first_ref get_resource_id_from_url
manager_of A system = do
  refs ← deref system.managed_by
  url ← first_ref refs
  get_resource_id_from_url A url

passed_error : Call System → Reply Unit
passed_error call = elim call.error [ none ↦ ok tt | some e ↦ err (passed_on e.message) ]

-- getManagerID, which looks at the client's error alone
unfoldable pub private_manager_id : (A : Api) → Ctx → String → A.World → Reply String × A.World
unfolding passed_error manager_of
private_manager_id A ctx system_id w =
    let (call, w') = A.get_system ctx system_id w in
    (passed_error call >> manager_of A call.value, w')

-- GetManagerID, which screens the answer
unfoldable pub get_manager_id : (A : Api) → Ctx → String → A.World → Reply String × A.World
unfolding manager_of
get_manager_id A ctx system_id w =
    let (call, w') = A.get_system ctx system_id w in
    (screen A call.response call.error >> manager_of A call.value, w')

-- SetAuth
unfoldable pub set_auth : String → String → Ctx → Ctx
set_auth username password ctx = record ctx {
  basic_auth = some (record { user_name = username; password = password });
}

-- getBasePath: of a scheme such as `redfish+https` only the last part is kept.
unfoldable pub get_base_path : Api → String → Reply String
unfolding split last_elem
get_base_path A redfish_url = elim (A.url_scheme_host redfish_url) [
  | err parse_error ↦ err (client_error ("Redfish URL malformed " <> parse_error))
  | crash k ↦ crash k
  | ok (scheme, host) ↦ ok (last_elem (split "+" scheme) <> ("://" <> host))
]

-- NewClient
unfoldable pub new_client :
    Api → String → String → Bool → Bool → String → String → ℤ → ℤ → Reply Client
unfolding get_base_path get_resource_id_from_url
new_client A node_name redfish_url insecure use_proxy username password retries delay = do
  reject_if (redfish_url == "") (missing_config "Redfish URL")
  base_path ← get_base_path A redfish_url
  system_id ← get_resource_id_from_url A redfish_url
  reject_if (system_id == "") (missing_config "management URL system ID")
  ok (record {
    node_id = system_id;
    node_name = node_name;
    username = username;
    password = password;
    redfish_url = redfish_url;
    redfish_cfg = record {
      server_url = base_path;
      insecure_skip_verify = insecure;
      use_proxy = use_proxy;
    };
    system_action_retries = retries;
    system_reboot_delay = delay;
  })
