-- ===== src/Config/Persist/Storage.antt =====
-- PersistConfig, LoadConfig and CreateConfig together: what was written is what is read.
use airshipctl.Base.{String, Bool, true, false, ok, err, Outcome-cases, ◌≡◌, refl, inl, inr, arith}
use airshipctl.Config.Types.{Config, config_file_exists}
use airshipctl.Base.GoMap.{get}
use airshipctl.Base.Paths.{dir}
use airshipctl.Config.Defaults.{new_config, new_empty_config}
use airshipctl.Config.Lookup.{ensure_complete}
use airshipctl.Config.Host.{Host, IsStorage}
use airshipctl.Config.Persist.{
  init_config_path, load_config, factory, persist_config, create_config,
}

ensure-new_config :
    (home path : String)
    → ensure_complete (record (new_config home) { loaded_config_path = path }) ≡ ok tt
unfolding ensure_complete new_config get
ensure-new_config home path = refl

module _ (H : Host) where
  -- The empty configuration that a factory loads into.
  abbrev pub blank : String → Config
  blank path = record new_empty_config { loaded_config_path = path }

  -- YAML gives back this configuration, read into an empty one with the same path.
  abbrev pub ReadsBack : Config → Type 0
  ReadsBack c =
      (text : String) → H.marshal c ≡ ok text → H.unmarshal text (blank c.loaded_config_path) ≡ ok c

  -- Without the overwrite flag an existing file is refused, and nothing at all is done.
  pub persist_config_existing :
      (c : Config) (w : H.World)
      → H.stat c.loaded_config_path w ≡ true
      → persist_config H false c w ≡ (err (config_file_exists c.loaded_config_path), w)
  unfolding persist_config
  persist_config_existing c w h = ground arith

  module _ (S : IsStorage H) where
    persist-written :
        (overwrite : Bool) (c : Config) (w : H.World)
        → (persist_config H overwrite c w).0 ≡ ok tt
        → (text : String) × (H.marshal c ≡ ok text)
          × (H.read_file c.loaded_config_path (persist_config H overwrite c w).1 ≡ ok text)
    unfolding persist_config
    persist-written overwrite c w h = elim (Outcome-cases (H.marshal c)) [
      | inr (inl (e, p)) ↦ absurd (ground arith)
      | inr (inr (k, p)) ↦ absurd (ground arith)
      | inl (text, p) ↦
          let folder = dir c.loaded_config_path in
          let w₁ = (H.mkdir_all folder w).1 in
          let w₂ = (H.chmod folder c.permissions.directory_permission w₁).1 in
          let w₃ = (H.write_file c.loaded_config_path text w₂).1 in
          (
            text,
            p,
            ground (
              arith,
              S.read-write c.loaded_config_path text w₂,
              S.read-chmod c.loaded_config_path c.permissions.file_permission w₃,
            ),
          )
    ]

    pub load-persist :
        (overwrite : Bool) (c : Config) (w : H.World)
        → ReadsBack c
        → (persist_config H overwrite c w).0 ≡ ok tt
        → let w' = (persist_config H overwrite c w).1 in
          load_config H (blank c.loaded_config_path) w' ≡ (ok c, w')
    unfolding load_config
    load-persist overwrite c w back h =
        let (text, p, q) = persist-written overwrite c w h in ground (arith, back text p)

    -- On such a file system: after a `config init` that succeeded, the factory of every other command finds the default
    -- configuration at that path and accepts it, provided that YAML gives it back.
    pub factory-create :
        (path : String) (overwrite : Bool) (w : H.World)
        → let c = init_config_path H path (new_config H.home_dir) in
          ReadsBack c
          → (create_config H path overwrite w).0 ≡ ok tt
          → let w' = (create_config H path overwrite w).1 in factory H path w' ≡ (ok c, w')
    unfolding create_config factory
    factory-create path overwrite w back h =
        let c = init_config_path H path (new_config H.home_dir) in
        ground (
          arith,
          load-persist overwrite c w back h,
          ensure-new_config H.home_dir c.loaded_config_path,
        )
