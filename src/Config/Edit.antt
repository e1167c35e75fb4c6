-- ===== src/Config/Edit.antt =====
-- The operations of config.go that change a configuration, the options of config_helper.go, and the
-- type check of management.go. A pointer that the code writes through is read from its map, changed,
-- and written back; no two keys of a loaded configuration share a pointer.
pub mod Repositories
pub mod Management
use airshipctl.Base.{
  ℕ, zero, suc, ℤ, String, ◌==◌, is_set, ltb, Bool, true, false, ◌&&◌, Option, none, some, List, [],
  ◌∷◌, if◌then◌else◌, Outcome, Crash, nil_pointer, nil_map_write, ok, err, crash, ◌>>=◌, ◌>>◌,
  then_do, deref, reject_if,
}
use airshipctl.Base.GoMap.{GoMap, unmade, made, get, put, assign}
use airshipctl.Config.Types.{
  Context, RepoCheckout, Repository, Manifest, ManagementConfiguration, Config, ManifestOptions,
  Reply, Method, mutually_exclusive_checkout, missing_repo_checkout_options, repository_not_found,
  unknown_management_type,
}
use airshipctl.Config.Defaults.{
  new_context, new_repository, new_manifest, new_management_configuration, redfish_type,
  redfish_dell_type,
}
use airshipctl.Config.Repo.{count_set}

-- ContextOption and ManagementConfigOption
abbrev pub ContextOption : Type 0
ContextOption = Context → Context

abbrev pub ManagementConfigOption : Type 0
ManagementConfigOption = ManagementConfiguration → ManagementConfiguration

abbrev pub set_context_manifest : String → ContextOption
set_context_manifest manifest ctx = record ctx { manifest = manifest }

abbrev pub set_context_management_config : String → ContextOption
set_context_management_config name ctx = record ctx { management_configuration = name }

abbrev pub set_management_config_insecure : Bool → ManagementConfigOption
set_management_config_insecure insecure m = record m { insecure = insecure }

abbrev pub set_management_config_mgmt_type : String → ManagementConfigOption
set_management_config_mgmt_type type m = record m { type = type }

abbrev pub set_management_config_use_proxy : Bool → ManagementConfigOption
set_management_config_use_proxy use_proxy m = record m { use_proxy = use_proxy }

abbrev pub set_management_config_system_action_retries : ℤ → ManagementConfigOption
set_management_config_system_action_retries n m = record m { system_action_retries = n }

abbrev pub set_management_config_system_reboot_delay : ℤ → ManagementConfigOption
set_management_config_system_reboot_delay n m = record m { system_reboot_delay = n }

-- `for _, o := range opts { o(ptr) }`
abbrev pub apply_options : {A : Type 0} → List (A → A) → A → A
apply_options [] a = a
apply_options (o ∷ opts) a = apply_options opts (o a)

-- ModifyContext and ModifyManagementConfig: the options write through the pointer.
unfoldable pub modify_through : {A : Type 0} → List (A → A) → Option A → Reply (Option A)
modify_through [] ptr = ok ptr
modify_through (o ∷ opts) none = crash nil_pointer
modify_through (o ∷ opts) (some a) = ok (some (apply_options (o ∷ opts) a))

unfoldable pub add_context : String → List ContextOption → Config → Reply Config
add_context name opts c = do
  contexts ← assign name (some (apply_options opts new_context)) c.contexts
  ok (record c { contexts = contexts })

unfoldable pub modify_context : String → List ContextOption → Option Context → Config → Reply Config
unfolding modify_through
modify_context name opts ptr c = do
  context ← modify_through opts ptr
  contexts ← assign name context c.contexts
  ok (record c { contexts = contexts })

unfoldable pub add_management_config : String → List ManagementConfigOption → Config → Reply Config
add_management_config name opts c = do
  configs ←
      assign name (some (apply_options opts new_management_configuration))
        c.management_configuration
  ok (record c { management_configuration = configs })

unfoldable pub modify_management_config :
    String → List ManagementConfigOption → Option ManagementConfiguration → Config → Reply Config
unfolding modify_through
modify_management_config name opts ptr c = do
  management_cfg ← modify_through opts ptr
  configs ← assign name management_cfg c.management_configuration
  ok (record c { management_configuration = configs })

-- `if value != "" { field = value }`
abbrev pub overwrite : String → String → String
overwrite value field = if value == "" then field else value

unfoldable pub set_checkout : ManifestOptions → RepoCheckout → RepoCheckout
set_checkout o c = record c {
  branch = overwrite o.branch c.branch;
  commit_hash = overwrite o.commit_hash c.commit_hash;
  tag = overwrite o.tag c.tag;
  force_checkout = if o.force then o.force else c.force_checkout;
}

-- The count of possible values at the end of ModifyRepository.
unfoldable pub check_checkout : RepoCheckout → Reply Unit
unfolding count_set
check_checkout c =
    let count = count_set (c.commit_hash ∷ c.branch ∷ c.tag ∷ []) in
    if ltb 1 count
    then err mutually_exclusive_checkout
    else if ltb 0 count
    then ok tt
    else err missing_repo_checkout_options

-- `repository.CheckoutOptions` is read whatever the options are, so a nil one panics.
modify_checkout : ManifestOptions → Option RepoCheckout → Method Repository Unit
unfolding set_checkout check_checkout
modify_checkout o none r = (crash nil_pointer, r)
modify_checkout o (some c) r =
    let c' = set_checkout o c in (check_checkout c', record r { checkout_options = some c' })

unfoldable pub modify_repository : ManifestOptions → Method Repository Unit
unfolding modify_checkout
modify_repository o r =
    modify_checkout o r.checkout_options (record r { url_string = overwrite o.url r.url_string })

-- A write of `manifest.Repositories[name]`, which panics on a nil map.
set_repository : String → Option Repository → Method Manifest Unit
set_repository name repo m = elim m.repositories [
  | unmade ↦ (crash nil_map_write, m)
  | made rs ↦ (ok tt, record m { repositories = put name repo (made rs) })
]

-- The new repository stands in the map before its settings are checked, and stays there.
unfoldable pub add_repository : ManifestOptions → Method Manifest Unit
unfolding set_repository modify_repository
add_repository o m =
    let (res, r) = modify_repository o new_repository in
    then_do (set_repository o.repo_name (some r) m) (λ _ m'. (res, m'))

-- ModifyRepository on the pointer that the map holds.
modify_repository_at : ManifestOptions → Option Repository → Method Manifest Unit
unfolding modify_repository
modify_repository_at o none m = (crash nil_pointer, m)
modify_repository_at o (some repo) m =
    let (res, r) = modify_repository o repo in
    (res, record m { repositories = put o.repo_name (some r) m.repositories })

add_or_modify_repository : ManifestOptions → Option (Option Repository) → Method Manifest Unit
unfolding add_repository modify_repository_at
add_or_modify_repository o none m = add_repository o m
add_or_modify_repository o (some ptr) m = modify_repository_at o ptr m

-- The assignments at the head of ModifyManifest.
unfoldable pub set_manifest_fields : ManifestOptions → Manifest → Manifest
set_manifest_fields o m = record m {
  phase_repository_name = if o.is_phase then o.repo_name else m.phase_repository_name;
  target_path = overwrite o.target_path m.target_path;
  metadata_path = overwrite o.metadata_path m.metadata_path;
}

-- `manifest.Repositories[name] == nil`
is_nil_repository : Option (Option Repository) → Bool
is_nil_repository none = true
is_nil_repository (some none) = true
is_nil_repository (some (some r)) = false

unfoldable pub modify_manifest : ManifestOptions → Method Manifest Unit
unfolding set_manifest_fields is_nil_repository add_or_modify_repository
modify_manifest o m =
    let m' = set_manifest_fields o m in
    let entry = get o.repo_name m'.repositories in
    if o.repo_name == ""
    then (ok tt, m')
    else if o.is_phase && (o.url == "") && is_nil_repository entry
    then (err (repository_not_found o.repo_name), m')
    else add_or_modify_repository o entry m'

-- The value of AddManifest: the new manifest, or nil for every error of ModifyManifest.
manifest_or_nil : Reply Unit → Manifest → Reply (Option Manifest)
manifest_or_nil (ok _) m = ok (some m)
manifest_or_nil (err e) m = ok none
manifest_or_nil (crash c) m = crash c

-- The new manifest stands in the map also where it could not be modified. `home` is the user's home.
unfoldable pub add_manifest : String → ManifestOptions → Method Config (Option Manifest)
unfolding modify_manifest manifest_or_nil
add_manifest home o c = elim c.manifests [
  | unmade ↦ (crash nil_map_write, c)
  | made ms ↦
      let (res, m) = modify_manifest o (new_manifest home) in
      (manifest_or_nil res m, record c { manifests = put o.name (some m) (made ms) })
]

-- ManagementConfiguration.Validate
unfoldable pub validate_type : ManagementConfiguration → Reply Unit
validate_type m =
    if m.type == redfish_type
    then ok tt
    else if m.type == redfish_dell_type
    then ok tt
    else err (unknown_management_type m.type)

unfoldable pub set_type : String → Method ManagementConfiguration Unit
unfolding validate_type
set_type management_type m =
    let m' : ManagementConfiguration = record m { type = management_type } in
    let restored : ManagementConfiguration = record m' { type = m.type } in
    elim (validate_type m') [
      | ok _ ↦ (ok tt, m')
      | err e ↦ (err e, restored)
      | crash c ↦ (crash c, m')
    ]
