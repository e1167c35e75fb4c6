-- ===== src/Config/Run/Contexts.antt =====
-- RunSetContext, RunSetManagementConfig and RunUseContext of config_helper.go.
use airshipctl.Base.{String, Option, none, some, List, ok, ◌≡◌, arith}
use airshipctl.Base.GoMap.{get, put}
use airshipctl.Config.Types.{Config}
use airshipctl.Config.Defaults.{new_context, new_management_configuration}
use airshipctl.Config.Edit.{ContextOption, ManagementConfigOption, apply_options, modify_through}
use airshipctl.Config.Host.{Host}
use airshipctl.Config.Run.{set_context, set_management_config}

-- What a context or a management configuration is before the options are applied to it: the one
-- that stands under the name, or a new one.
abbrev pub base_of : {A : Type 0} → A → Option (Option A) → Option A
base_of new none = some new
base_of new (some ptr) = ptr

abbrev pub options_on : {A : Type 0} → List (A → A) → Option A → Option A
options_on opts none = none
options_on opts (some a) = some (apply_options opts a)

-- Where it succeeds, set-context stores under the name what its options make of the context that
-- stood there, or of a new one if there was none, and changes nothing else.
pub set_context_lem :
    (name : String) (opts : List ContextOption) (c c' : Config)
    → set_context name opts c ≡ ok c'
    → c' ≡ record c {
      contexts = put name (options_on opts (base_of new_context (get name c.contexts))) c.contexts;
    }
unfolding set_context modify_through
set_context_lem name opts c c' h = ground arith

-- The same of set-management-config.
pub set_management_config_lem :
    (name : String) (opts : List ManagementConfigOption) (c c' : Config)
    → set_management_config name opts c ≡ ok c'
    → c' ≡ record c {
      management_configuration =
          put name
            (options_on opts
              (base_of new_management_configuration (get name c.management_configuration)))
            c.management_configuration;
    }
unfolding set_management_config modify_through
set_management_config_lem name opts c c' h = ground arith
