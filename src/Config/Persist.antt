-- ===== src/Config/Persist.antt =====
-- The path of the configuration, its loading and its writing (config.go).
pub mod Storage
use airshipctl.Base.{
  String, ◌==◌, is_set, Bool, not, ◌&&◌, [], ◌∷◌, if◌then◌else◌, ok, err, crash, Outcome, fatal,
  Proc,
}
use airshipctl.Base.Procs.{◌>>=◌, ◌>>◌, pure, lift}
use airshipctl.Base.Paths.{join, dir}
use airshipctl.Config.Types.{Config, Reply, Method, config_file_exists}
use airshipctl.Config.Defaults.{
  airship_config, airship_config_dir, airship_config_env, new_config, new_empty_config,
}
use airshipctl.Config.Lookup.{ensure_complete}
use airshipctl.Config.Host.{Host}

module _ (H : Host) where
  open H use {World, home_dir, getenv, marshal, unmarshal}

  unfoldable pub init_config_path : String → Config → Config
  unfolding join
  init_config_path airship_config_path c = record c {
    loaded_config_path =
        if is_set airship_config_path
        then airship_config_path
        else if is_set (getenv airship_config_env)
        then getenv airship_config_env
        else join (home_dir ∷ airship_config_dir ∷ airship_config ∷ []);
  }

  unfoldable pub load_config : Config → Method World Config
  load_config c = do text ← λ w. (H.read_file c.loaded_config_path w, w); lift (unmarshal text c)

  -- `log.Fatal` where the configuration cannot be loaded
  or_fatal : Reply Config → Reply Config
  or_fatal (ok c) = ok c
  or_fatal (err e) = crash fatal
  or_fatal (crash c) = crash c

  -- The function that CreateFactory returns; its error is that of EnsureComplete.
  unfoldable pub factory : String → Method World Config
  unfolding init_config_path load_config or_fatal
  factory airship_config_path = do
    cfg ← λ w.
        let (r, w') = load_config (init_config_path airship_config_path new_empty_config) w in
        (or_fatal r, w')
    lift (ensure_complete cfg)
    pure cfg

  reject_existing : Bool → Config → Method World Unit
  reject_existing overwrite c w =
      if H.stat c.loaded_config_path w && not overwrite
      then (err (config_file_exists c.loaded_config_path), w)
      else (ok tt, w)

  unfoldable pub persist_config : Bool → Config → Method World Unit
  unfolding reject_existing dir
  persist_config overwrite c = do
    reject_existing overwrite c
    airship_config_yaml ← lift (marshal c)
    let folder = dir c.loaded_config_path
    H.mkdir_all folder
    H.chmod folder c.permissions.directory_permission
    H.write_file c.loaded_config_path airship_config_yaml
    H.chmod c.loaded_config_path c.permissions.file_permission

  unfoldable pub create_config : String → Bool → Method World Unit
  unfolding init_config_path
  create_config airship_config_path overwrite =
      persist_config overwrite (init_config_path airship_config_path (new_config home_dir))

  unfoldable pub purge : Config → Method World Unit
  purge c = H.remove_all c.loaded_config_path

  -- The directory comes back beside the error.
  unfoldable pub work_dir : World → String × Reply Unit × World
  work_dir w =
      let folder = join (home_dir ∷ airship_config_dir ∷ []) in
      let (made_it, w') = H.mkdir_all folder w in
      if H.is_dir folder w then (folder, ok tt, w) else (folder, made_it, w')
