-- ===== src/Tests/Bmc.antt =====
-- A controller with one node, one manager and one CD drive, in memory.
use airshipctl.Base.{ℕ, ℤ, Bool, true, false, none, some, [], ◌∷◌, ok, refl}
use airshipctl.Redfish.Types.{
  PowerState, state_on, state_off, ResetType, reset_on, reset_force_off, Call, Client, Ctx, object,
  array, text, item, no_item, field, no_field, Fields,
}
use airshipctl.Redfish.Api.{Api}
use airshipctl.Redfish.Client.Ejecting.{Drives}

pub record Bmc : Type 0 where
  pub power : PowerState
  pub is_loaded : Bool

abbrev after_reset : ResetType → PowerState
after_reset reset_on = state_on
after_reset reset_force_off = state_off

abbrev pub answer : {A : Type 0} → A → ℕ → Call A
answer a code = record {
  value = a;
  response = some (record { status_code = code; status = "" });
  error = none;
}

-- An error body without any message.
abbrev pub bare_info : Fields
bare_info = field "Resolution" (text "none") no_field

abbrev pub bare_error : Fields
bare_error = field "@Message.ExtendedInfo" (array (item (object bare_info) no_item)) no_field

abbrev pub bare_body : Fields
bare_body = field "error" (object bare_error) no_field

abbrev pub bmc : Api
bmc = record {
  World = Bmc;
  get_system = λ ctx node w. (
    answer
        (record {
          managed_by = some (some "1" ∷ []);
          power_state = some w.power;
          boot_targets = "Cd" ∷ [];
        })
        200,
    w,
  );
  reset_system = λ ctx node reset w. (answer tt 204, record w { power = after_reset reset });
  set_boot_target = λ ctx node target w. (answer tt 200, w);
  list_manager_virtual_media = λ ctx manager w. (answer (some "Cd" ∷ []) 200, w);
  get_manager_virtual_media = λ ctx manager media w. (
    answer (record { name = "Cd"; inserted = w.is_loaded; media_types = some ("CD" ∷ []) }) 200,
    w,
  );
  eject_virtual_media = λ ctx manager media w. (answer tt 204, record w { is_loaded = false });
  insert_virtual_media =
      λ ctx manager media image inserted w. (answer tt 204, record w { is_loaded = true });
  sleep = λ seconds w. w;
  url_path = λ url. some url;
  url_scheme_host = λ url. ok ("https", "bmc");
  unmarshal = λ body. some bare_body;
  print_value = λ j. "";
}

pub bmc-Drives : Drives bmc
bmc-Drives = record {
  loaded = λ w manager media. w.is_loaded;
  get_tells = λ ctx manager media w s. refl;
  get_stays = λ ctx manager media w m i h. h;
  eject_stays = λ ctx manager media w m i h. refl;
}

abbrev pub client : Client
client = record {
  node_id = "node";
  node_name = "node-0";
  username = "";
  password = "";
  redfish_url = "redfish+https://bmc/redfish/v1/Systems/node";
  redfish_cfg = record {
    server_url = "https://bmc";
    insecure_skip_verify = false;
    use_proxy = false;
  };
  system_action_retries = ℤ.pos 2;
  system_reboot_delay = ℤ.pos 1;
}

abbrev pub no_auth : Ctx
no_auth = record { basic_auth = none }

abbrev pub running : Bmc
running = record { power = state_on; is_loaded = true }

abbrev pub stopped : Bmc
stopped = record { power = state_off; is_loaded = false }
