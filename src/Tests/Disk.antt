-- ===== src/Tests/Disk.antt =====
-- A file system that is a map from paths to texts, with a YAML library that knows one configuration,
-- and configurations to run on.
use airshipctl.Base.{
  String, Bool, true, false, Option, none, some, [], ◌∷◌, ok, found_or, refl, arith,
}
use airshipctl.Base.GoMap.{GoMap, made, unmade, get, put, get-put_self}
use airshipctl.Config.Types.{Config, external}
use airshipctl.Config.Defaults.{new_config}
use airshipctl.Config.Host.{Host, IsStorage}
use airshipctl.Config.Lookup.Complete.{IsComplete}

abbrev found : Option String → Bool
found none = false
found (some t) = true

-- The configuration is what the YAML library reads from any text.
abbrev pub disk_of : Config → Host
disk_of known = record {
  World = GoMap String;
  home_dir = "/home/airship";
  getenv = λ name. "";
  stat = λ path w. found (get path w);
  is_dir = λ path w. false;
  read_file = λ path w. found_or (get path w) (external "no such file");
  write_file = λ path text w. (ok tt, put path text w);
  mkdir_all = λ path w. (ok tt, w);
  chmod = λ path mode w. (ok tt, w);
  remove_all = λ path w. (ok tt, unmade);
  marshal = λ c. ok "saved";
  unmarshal = λ text c. ok known;
  marshal_manifests = λ m. ok "manifests";
  write_out = λ text w. (ok tt, w);
}

pub disk-IsStorage : (c : Config) → IsStorage (disk_of c)
disk-IsStorage c = record {
  read-write = λ path text w h. let e = get-put_self path text w in ground (arith, e);
  read-chmod = λ path mode w. refl;
}

-- The default configuration with a second context, whose manifest is missing.
abbrev pub two_contexts : Config
two_contexts = record (new_config "/home/airship") {
  contexts = made (
      ("default", some (record { manifest = "default"; management_configuration = "default" }))
      ∷ ("other", some (record { manifest = "gone"; management_configuration = "default" }))
      ∷ []);
  loaded_config_path = "/home/airship/.airship/config";
}

pub two_contexts-IsComplete : IsComplete two_contexts
unfolding new_config get
two_contexts-IsComplete = record {
  context = record { manifest = "default"; management_configuration = "default" };
  manifest = _;
  is_named = λ e. cc;
  has_context = refl;
  has_manifest = refl;
}
