-- ===== src/Documents/CloudData.antt =====
-- pkg/bootstrap/cloudinit/cloud-init.go: the cloud-init data of the ephemeral node.
use airshipctl.Base.{String, ◌==◌, Bool, ◌&&◌, if◌then◌else◌, ok, ◌>>=◌}
use airshipctl.Documents.Selectors.{
  Selector, by_kind, by_label, secret_kind, bare_metal_host_kind, ephemeral_user_data_selector,
  ephemeral_host_selector, new_selector_from_v1alpha1, Reply,
}
use airshipctl.Documents.Library.{Call, Kustomize}
use airshipctl.Documents.Bundles.{Bundle, select_one}
use airshipctl.Documents.Secrets.{get_secret_data_key, new_network_data_selector}

-- No condition that a user gives.
abbrev pub selects_nothing : Selector → Bool
selects_nothing s =
    (s.kind == "") && (s.name == "") && (s.annotation_selector == "") && (s.label_selector == "")

unfoldable pub apply_defaults_and_get_data :
    Selector → String → String → String → String → Selector × String
apply_defaults_and_get_data s default_kind default_label key key_default = (
  if selects_nothing s then by_label default_label (by_kind default_kind s) else s,
  if key == "" then key_default else key,
)

module _ (K : Kustomize) (decode_base64 : String → Call String) (doc_bundle : Bundle K) where
  unfoldable pub get_user_data : Selector → String → Reply String
  get_user_data selector key = do
    doc ← select_one K selector doc_bundle
    get_secret_data_key K decode_base64 doc key

  unfoldable pub get_network_data : Selector → String → Reply String
  get_network_data selector key = do
    host ← select_one K selector doc_bundle
    secret ← new_network_data_selector K host
    doc ← select_one K secret doc_bundle
    get_secret_data_key K decode_base64 doc key

  unfoldable pub get_cloud_data : Selector → String → Selector → String → Reply (String × String)
  unfolding apply_defaults_and_get_data get_user_data get_network_data
  get_cloud_data user_data_selector user_data_key network_config_selector network_config_key = do
    let (user_selector, user_key) =
        apply_defaults_and_get_data (new_selector_from_v1alpha1 user_data_selector) secret_kind
          ephemeral_user_data_selector user_data_key "userData"
    user_data ← get_user_data user_selector user_key
    let (net_selector, net_key) =
        apply_defaults_and_get_data (new_selector_from_v1alpha1 network_config_selector)
          bare_metal_host_kind ephemeral_host_selector network_config_key "networkData"
    net_conf ← get_network_data net_selector net_key
    ok (user_data, net_conf)
