-- ===== src/Config/Lookup.antt =====
-- The checks and getters of config.go. A getter that returns a pointer returns the `Option` that the
-- map holds; one that reads through the pointer panics where it is nil.
pub mod Complete
use airshipctl.Base.{
  String, ◌<>◌, ◌==◌, Bool, Option, none, some, if◌then◌else◌, ok, err, crash, ◌>>=◌, ◌>>◌,
  reject_if, deref, found_or,
}
use airshipctl.Base.GoMap.{GoMap, get, is_empty}
use airshipctl.Base.Paths.{git_dir_name_from_url}
use airshipctl.Config.Types.{
  Context, Repository, Manifest, ManagementConfiguration, Config, Reply, missing_config,
  missing_repository_name, management_configuration_not_found, missing_management_configuration,
}

unfoldable pub ensure_complete : Config → Reply Unit
ensure_complete c = do
  reject_if (is_empty c.contexts) (missing_config "At least one Context needs to be defined")
  reject_if (is_empty c.manifests) (missing_config "At least one Manifest needs to be defined")
  reject_if (c.current_context == "") (missing_config "Current Context is not defined")
  pointer ← found_or (get c.current_context c.contexts) (
      missing_config
        ("Current Context (" <> (c.current_context <> ") does not identify a defined Context")))
  current_context ← deref pointer
  _ ← found_or (get current_context.manifest c.manifests) (
      missing_config
        ("Current Context (" <> (c.current_context <> ") does not identify a defined Manifest")))
  ok tt

unfoldable pub get_context : String → Config → Reply (Option Context)
get_context name c =
    found_or (get name c.contexts) (missing_config ("context with name '" <> (name <> "'")))

unfoldable pub get_management_configuration :
    String → Config → Reply (Option ManagementConfiguration)
get_management_configuration name c =
    found_or (get name c.management_configuration) (management_configuration_not_found name)

unfoldable pub get_manifest : String → Config → Reply (Option Manifest)
get_manifest name c =
    found_or (get name c.manifests) (missing_config ("manifest with name '" <> (name <> "'")))

unfoldable pub get_current_context : Config → Reply (Option Context)
unfolding get_context
get_current_context c = get_context c.current_context c

unfoldable pub current_context_manifest : Config → Reply (Option Manifest)
unfolding get_current_context
current_context_manifest c = do
  pointer ← get_current_context c
  current_context ← deref pointer
  found_or (get current_context.manifest c.manifests)
      (missing_config ("manifest named " <> current_context.manifest))

unfoldable pub current_context_metadata_path : Config → Reply String
unfolding current_context_manifest
current_context_metadata_path c = do
  pointer ← current_context_manifest c
  ccm ← deref pointer
  ok ccm.metadata_path

unfoldable pub current_context_target_path : Config → Reply String
unfolding current_context_manifest
current_context_target_path c = do
  pointer ← current_context_manifest c
  ccm ← deref pointer
  ok ccm.target_path

-- `repo.URL()` of the named repository, reduced to its directory
repository_dir : String → String → Manifest → Reply String
unfolding git_dir_name_from_url
repository_dir name kind ccm = do
  pointer ← found_or (get name ccm.repositories) (missing_repository_name kind)
  repo ← deref pointer
  ok (git_dir_name_from_url repo.url_string)

unfoldable pub current_context_phase_repository_dir : Config → Reply String
unfolding current_context_manifest repository_dir
current_context_phase_repository_dir c = do
  pointer ← current_context_manifest c
  ccm ← deref pointer
  repository_dir ccm.phase_repository_name "phase" ccm

inventory_name : Manifest → String
inventory_name ccm =
    if ccm.inventory_repository_name == ""
    then ccm.phase_repository_name
    else ccm.inventory_repository_name

unfoldable pub current_context_inventory_repository_name : Config → Reply String
unfolding current_context_manifest repository_dir inventory_name
current_context_inventory_repository_name c = do
  pointer ← current_context_manifest c
  ccm ← deref pointer
  repository_dir (inventory_name ccm) "inventory" ccm

unfoldable pub current_context_management_config : Config → Reply (Option ManagementConfiguration)
unfolding get_current_context
current_context_management_config c = do
  pointer ← get_current_context c
  current_context ← deref pointer
  reject_if (current_context.management_configuration == "")
      (missing_config ("no management config listed for context '" <> (c.current_context <> "'")))
  found_or (get current_context.management_configuration c.management_configuration)
      (missing_management_configuration c.current_context)
