-- ===== src/Config/Run.antt =====
-- config_helper.go: the commands that change the configuration file.
pub mod Manifests
pub mod Contexts
use airshipctl.Base.{
  [], ◌∷◌, ◌>>=◌ as bind_outcome, String, ◌<>◌, ◌==◌, is_set, Bool, true, false, Option, none, some,
  List, if◌then◌else◌, Outcome, ok, err, crash, nil_pointer, reject_if, ◌||◌,
}
use airshipctl.Base.Procs.{◌>>=◌, ◌>>◌, pure, lift}
use airshipctl.Base.GoMap.{GoMap, made, get, put}
use airshipctl.Config.Types.{
  Config, Context, Manifest, ManagementConfiguration, ManifestOptions, Reply, Method,
  empty_context_name, empty_management_configuration_name, config_failed,
}
use airshipctl.Config.Lookup.{ensure_complete, get_context, get_manifest}
use airshipctl.Config.Options.{validate_manifest_options}
use airshipctl.Config.Edit.{
  ContextOption, ManagementConfigOption, add_context, modify_context, add_management_config,
  modify_management_config, add_manifest, modify_manifest,
}
use airshipctl.Config.Host.{Host}
use airshipctl.Config.Persist.{factory, persist_config}

-- RunSetContextOptions, without the factory and the writer
pub record SetContextOptions : Type 0 where
  pub ctx_name : String
  pub current : Bool

unfoldable pub context_name : SetContextOptions → Config → String
context_name o cfg = if o.current then cfg.current_context else o.ctx_name

set_context_entry : String → List ContextOption → Option (Option Context) → Config → Reply Config
unfolding add_context modify_context
set_context_entry name opts none c = add_context name opts c
set_context_entry name opts (some ptr) c = modify_context name opts ptr c

-- Creates the context, or changes the one that is there.
unfoldable pub set_context : String → List ContextOption → Config → Reply Config
unfolding set_context_entry
set_context name opts c = set_context_entry name opts (get name c.contexts) c

set_management_entry :
    String
    → List ManagementConfigOption
    → Option (Option ManagementConfiguration)
    → Config
    → Reply Config
unfolding add_management_config modify_management_config
set_management_entry name opts none c = add_management_config name opts c
set_management_entry name opts (some ptr) c = modify_management_config name opts ptr c

unfoldable pub set_management_config : String → List ManagementConfigOption → Config → Reply Config
unfolding set_management_entry
set_management_config name opts c =
    set_management_entry name opts (get name c.management_configuration) c

-- The text that a command writes: what it did to which object.
info_msg : {A : Type 0} → String → Option A → String
info_msg what none = what <> " created\n"
info_msg what (some a) = what <> " modified\n"

-- Of a nil manifest nothing is read or written if no option names a field or a repository.
modify_manifest_ptr : ManifestOptions → Option Manifest → Reply Unit × Option Manifest
unfolding modify_manifest
modify_manifest_ptr o none =
    if o.is_phase || is_set o.target_path || is_set o.metadata_path || is_set o.repo_name
    then (crash nil_pointer, none)
    else (ok tt, none)
modify_manifest_ptr o (some m) = let (res, m') = modify_manifest o m in (res, some m')

-- `modified`, and the error as far as RunSetManifest looks at it
abbrev pub Change : Type 0
Change = Bool × Reply Unit

store_manifest : String → Option Manifest → Config → Config
store_manifest name ptr c = record c { manifests = put name ptr c.manifests }

-- The error of AddManifest is lost: its value is not looked at.
ignore_value : Reply (Option Manifest) → Reply Unit
ignore_value (ok ptr) = ok tt
ignore_value (err e) = err e
ignore_value (crash c) = crash c

set_manifest_entry : String → ManifestOptions → Option (Option Manifest) → Config → Change × Config
unfolding add_manifest modify_manifest_ptr store_manifest ignore_value
set_manifest_entry home o none c =
    let (res, c') = add_manifest home o c in ((false, ignore_value res), c')
set_manifest_entry home o (some ptr) c =
    let (res, ptr') = modify_manifest_ptr o ptr in
    let c' = store_manifest o.name ptr' c in
    elim res [
      | ok _ ↦ ((true, ok tt), c')
      | err e ↦ ((false, err e), c')
      | crash k ↦ ((false, crash k), c')
    ]

-- The first half of RunSetManifest: what it does to the configuration in memory.
unfoldable pub set_manifest : String → ManifestOptions → Config → Change × Config
unfolding set_manifest_entry validate_manifest_options
set_manifest home o c = elim (validate_manifest_options o) [
  | ok _ ↦ set_manifest_entry home o (get o.name c.manifests) c
  | err e ↦ ((false, err e), c)
  | crash k ↦ ((false, crash k), c)
]

module _ (H : Host) where
  open H use {World}

  -- RunSetContext
  unfoldable pub run_set_context :
      Method World Config → SetContextOptions → List ContextOption → Method World Unit
  unfolding context_name info_msg
  run_set_context cfg_factory o opts = do
    cfg ← cfg_factory
    let name = context_name o cfg
    lift (reject_if (name == "") empty_context_name)
    cfg' ← lift (set_context name opts cfg)
    lift (ensure_complete cfg')
    H.write_out (info_msg ("context with name " <> name) (get name cfg.contexts))
    persist_config H true cfg'

  -- RunSetManagementConfig
  unfoldable pub run_set_management_config :
      Method World Config → String → List ManagementConfigOption → Method World Unit
  unfolding info_msg
  run_set_management_config cfg_factory name opts = do
    cfg ← cfg_factory
    lift (reject_if (name == "") empty_management_configuration_name)
    cfg' ← lift (set_management_config name opts cfg)
    lift (ensure_complete cfg')
    H.write_out (
        info_msg ("management configuration with name " <> name)
          (get name cfg.management_configuration))
    persist_config H true cfg'

  -- RunUseContext: the configuration in memory changes, and the world.
  unfoldable pub run_use_context : String → Config → World → Reply Unit × Config × World
  unfolding get_context
  run_use_context desired c w =
      let c' : Config = record c { current_context = desired } in
      let (res, w') = persist_config H true c' w in
      elim (get_context desired c) [
        | ok _ ↦ if c.current_context == desired then (ok tt, c, w) else (res, c', w')
        | err e ↦ (err e, c, w)
        | crash k ↦ (crash k, c, w)
      ]

  persist_change : Bool → Config → Method World Unit
  persist_change write_to_storage c w =
      let (res, w') = persist_config H true c w in
      let persisted : Reply Unit = elim res [
        | ok _ ↦ ok tt
        | err e ↦ err config_failed
        | crash k ↦ crash k
      ] in
      if write_to_storage then (persisted, w') else (ok tt, w)

  finish_manifest : Bool → Change × Config → World → Change × Config × World
  unfolding persist_change
  finish_manifest write_to_storage ((modified, ok _), c) w =
      let (res, w') = persist_change write_to_storage c w in ((modified, res), c, w')
  finish_manifest write_to_storage ((modified, err e), c) w = ((modified, err e), c, w)
  finish_manifest write_to_storage ((modified, crash k), c) w = ((modified, crash k), c, w)

  -- RunSetManifest
  unfoldable pub run_set_manifest :
      ManifestOptions → Bool → Config → World → Change × Config × World
  unfolding set_manifest finish_manifest
  run_set_manifest o write_to_storage c w =
      finish_manifest write_to_storage (set_manifest H.home_dir o c) w

  wanted_manifests : String → Config → Reply (GoMap (Option Manifest))
  unfolding get_manifest
  wanted_manifests name c =
      if is_set name
      then bind_outcome (get_manifest name c) (λ ptr. ok (made ((name, ptr) ∷ [])))
      else ok c.manifests

  -- RunGetManifest
  unfoldable pub run_get_manifest : Method World Config → String → Method World Unit
  unfolding wanted_manifests
  run_get_manifest cfg_factory manifest_name = do
    cfg ← cfg_factory
    manifests ← lift (wanted_manifests manifest_name cfg)
    text ← lift (H.marshal_manifests manifests)
    H.write_out text
