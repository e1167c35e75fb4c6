-- ===== src/Config/Types.antt =====
-- The structs of pkg/config and its errors (config.go, context.go, manifest.go, management.go,
-- repo.go, options.go, errors.go, constants.go). A pointer is an `Option`, a map a `GoMap`.
use airshipctl.Base.{ℕ, String, Bool, List, Option, ℤ, Outcome, Proc}
use airshipctl.Base.GoMap.{GoMap}

pub record Permissions : Type 0 where
  pub directory_permission : ℕ
  pub file_permission : ℕ

pub record Context : Type 0 where
  pub manifest : String
  pub management_configuration : String

pub record RepoAuth : Type 0 where
  pub type : String
  pub key_password : String
  pub key_path : String
  pub http_password : String
  pub ssh_password : String
  pub username : String

pub record RepoCheckout : Type 0 where
  pub commit_hash : String
  pub branch : String
  pub tag : String
  pub ref : String
  pub force_checkout : Bool
  pub local_branch : Bool

pub record RepoFetch : Type 0 where
  pub remote_ref_spec : String

pub record Repository : Type 0 where
  pub url_string : String
  pub auth : Option RepoAuth
  pub checkout_options : Option RepoCheckout
  pub fetch_options : Option RepoFetch

pub record Manifest : Type 0 where
  pub phase_repository_name : String
  pub inventory_repository_name : String
  pub repositories : GoMap (Option Repository)
  pub target_path : String
  pub metadata_path : String

pub record ManagementConfiguration : Type 0 where
  pub insecure : Bool
  pub system_action_retries : ℤ
  pub system_reboot_delay : ℤ
  pub type : String
  pub use_proxy : Bool

pub record Config : Type 0 where
  pub kind : String
  pub api_version : String
  pub permissions : Permissions
  pub contexts : GoMap (Option Context)
  pub manifests : GoMap (Option Manifest)
  pub current_context : String
  pub management_configuration : GoMap (Option ManagementConfiguration)
  pub loaded_config_path : String

pub record ContextOptions : Type 0 where
  pub name : String
  pub current_context : Bool
  pub manifest : String
  pub current : Bool
  pub management_configuration : String
  pub format : String

pub record ManifestOptions : Type 0 where
  pub name : String
  pub repo_name : String
  pub url : String
  pub branch : String
  pub commit_hash : String
  pub tag : String
  pub force : Bool
  pub is_phase : Bool
  pub target_path : String
  pub metadata_path : String

-- `external` is an error that comes from the file system, the writer, YAML or go-git.
pub data ConfigError : Type 0 where
  missing_config : String → ConfigError
  incompatible_auth_options : List String → String → ConfigError
  auth_type_not_supported : ConfigError
  repo_spec_requires_url : ConfigError
  mutually_exclusive_checkout : ConfigError
  repository_not_found : String → ConfigError
  missing_repository_name : String → ConfigError
  missing_repo_checkout_options : ConfigError
  config_failed : ConfigError
  management_configuration_not_found : String → ConfigError
  empty_management_configuration_name : ConfigError
  missing_management_configuration : String → ConfigError
  conflicting_context_options : ConfigError
  empty_context_name : ConfigError
  unknown_management_type : String → ConfigError
  missing_manifest_name : ConfigError
  config_file_exists : String → ConfigError
  wrong_output_format : String → List String → ConfigError
  not_implemented : String → ConfigError
  external : String → ConfigError

-- A call that returns `(A, error)`, and one that also changes an `S` in place.
abbrev pub Reply : Type 0 → Type 0
Reply A = Outcome ConfigError A

abbrev pub Method : Type 0 → Type 0 → Type 0
Method S A = Proc S ConfigError A
