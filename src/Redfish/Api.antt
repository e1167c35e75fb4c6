-- ===== src/Redfish/Api.antt =====
-- What the client takes from outside: the go-redfish calls that reach the controller, the clock, the
-- URL and JSON parsers, and how `%s` prints what is no text.
use airshipctl.Base.{ℤ, String, Option, List, Bool, Outcome}
use airshipctl.Redfish.Types.{Json, Fields, ResetType, System, VirtualMedia, Call, Ctx}

pub record Api : Type 1 where
  pub World : Type 0
  pub get_system : Ctx → String → World → Call System × World
  pub reset_system : Ctx → String → ResetType → World → Call Unit × World
  pub set_boot_target : Ctx → String → String → World → Call Unit × World
  pub list_manager_virtual_media : Ctx → String → World → Call (List (Option String)) × World
  pub get_manager_virtual_media : Ctx → String → String → World → Call VirtualMedia × World
  pub eject_virtual_media : Ctx → String → String → World → Call Unit × World
  -- manager, media, image, inserted
  pub insert_virtual_media : Ctx → String → String → String → Bool → World → Call Unit × World
  -- a pause of so many seconds
  pub sleep : ℤ → World → World
  -- the path of a URL that `url.Parse` accepts, and its scheme and host or the parser's error
  pub url_path : String → Option String
  pub url_scheme_host : String → Outcome String (String × String)
  -- `json.Unmarshal` into a map
  pub unmarshal : String → Option Fields
  pub print_value : Json → String
