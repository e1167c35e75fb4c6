-- ===== src/Config/Defaults.antt =====
-- pkg/config/utils.go and NewManagementConfiguration. The home directory, which the code reads from
-- the environment, is an argument.
use airshipctl.Base.{String, false, none, some, [], ◌∷◌, ℤ}
use airshipctl.Base.GoMap.{made}
use airshipctl.Base.Paths.{join}
use airshipctl.Config.Types.{
  Context, Repository, RepoCheckout, Manifest, ManagementConfiguration, Permissions, Config,
}

abbrev pub airship_config : String
airship_config = "config"

abbrev pub airship_config_dir : String
airship_config_dir = ".airship"

abbrev pub airship_config_env : String
airship_config_env = "AIRSHIPCONFIG"

-- AirshipDefaultContext, AirshipDefaultManifest and AirshipDefaultManagementConfiguration
abbrev pub default_name : String
default_name = "default"

-- DefaultTestPhaseRepo
abbrev pub default_test_phase_repo : String
default_test_phase_repo = "primary"

abbrev pub default_manifest_metadata_file : String
default_manifest_metadata_file = "manifests/site/test-site/metadata.yaml"

-- redfish.ClientType and redfishdell.ClientType
abbrev pub redfish_type : String
redfish_type = "redfish"

abbrev pub redfish_dell_type : String
redfish_dell_type = "redfish-dell"

-- 0750 and 0640
abbrev pub default_permissions : Permissions
default_permissions = record { directory_permission = 0o750; file_permission = 0o640 }

abbrev pub new_context : Context
new_context = record { manifest = ""; management_configuration = "" }

abbrev pub new_checkout : RepoCheckout
new_checkout = record {
  commit_hash = "";
  branch = "";
  tag = "";
  ref = "";
  force_checkout = false;
  local_branch = false;
}

abbrev pub new_repository : Repository
new_repository = record {
  url_string = "";
  auth = none;
  checkout_options = some new_checkout;
  fetch_options = none;
}

-- filepath.Join(util.UserHomeDir(), AirshipConfigDir, AirshipDefaultManifest)
unfoldable pub default_target_path : String → String
unfolding join
default_target_path home = join (home ∷ airship_config_dir ∷ default_name ∷ [])

unfoldable pub new_manifest : String → Manifest
unfolding default_target_path
new_manifest home = record {
  phase_repository_name = default_test_phase_repo;
  inventory_repository_name = default_test_phase_repo;
  repositories = made ((default_test_phase_repo, some new_repository) ∷ []);
  target_path = default_target_path home;
  metadata_path = default_manifest_metadata_file;
}

abbrev pub new_management_configuration : ManagementConfiguration
new_management_configuration = record {
  insecure = false;
  system_action_retries = ℤ.pos 30;
  system_reboot_delay = ℤ.pos 30;
  type = redfish_type;
  use_proxy = false;
}

abbrev treasuremap : Repository
treasuremap = record {
  url_string = "https://opendev.org/airship/treasuremap";
  auth = none;
  checkout_options = some (record new_checkout { branch = "master" });
  fetch_options = none;
}

unfoldable pub new_config : String → Config
unfolding default_target_path
new_config home = record {
  kind = "Config";
  api_version = "airshipit.org/v1alpha1";
  permissions = default_permissions;
  contexts = made (
      (
        default_name,
        some (record { manifest = default_name; management_configuration = default_name }),
      )
      ∷ []);
  manifests = made (
      (
        default_name,
        some (record {
          phase_repository_name = default_test_phase_repo;
          inventory_repository_name = default_test_phase_repo;
          repositories = made ((default_test_phase_repo, some treasuremap) ∷ []);
          target_path = default_target_path home;
          metadata_path = default_manifest_metadata_file;
        }),
      )
      ∷ []);
  current_context = default_name;
  management_configuration = made ((default_name, some new_management_configuration) ∷ []);
  loaded_config_path = "";
}

abbrev pub new_empty_config : Config
new_empty_config = record {
  kind = "";
  api_version = "";
  permissions = default_permissions;
  contexts = made [];
  manifests = made [];
  current_context = "";
  management_configuration = made [];
  loaded_config_path = "";
}
