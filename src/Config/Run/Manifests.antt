-- ===== src/Config/Run/Manifests.antt =====
-- RunSetManifest of config_helper.go: the manifests it leaves, and the error that it loses.
use airshipctl.Base.{
  String, ◌==◌, Bool, true, false, Option, none, some, List, if◌then◌else◌, ok, err, crash,
  Outcome-cases, ◌≡◌, refl, sym, subst, ap, ◌∙◌, ◌≢◌, ◌⊎◌, inl, inr, arith,
}
use airshipctl.Base.GoMap.{GoMap-cases, made, get, put, get-put, get-put_ne}
use airshipctl.Config.Types.{Config, Manifest, ManifestOptions, ConfigError}
use airshipctl.Config.Defaults.{new_manifest}
use airshipctl.Config.Options.{validate_manifest_options}
use airshipctl.Config.Edit.{add_manifest, modify_manifest}
use airshipctl.Config.Host.{Host}
use airshipctl.Config.Persist.{persist_config}
use airshipctl.Config.Lookup.Complete.{IsComplete}
use airshipctl.Config.Run.{
  set_manifest, set_manifest_entry, modify_manifest_ptr, run_set_manifest, finish_manifest, Change,
}

-- Where the named manifest is new and its options pass Validate, the command says that it created
-- the manifest, with no error, whatever ModifyManifest returned.
pub set_manifest_new :
    (home : String) (o : ManifestOptions) (c : Config) {ms : List (String × Option Manifest)}
    {e : ConfigError}
    → validate_manifest_options o ≡ ok tt
    → c.manifests ≡ made ms
    → get o.name c.manifests ≡ none
    → (modify_manifest o (new_manifest home)).0 ≡ err e
    → set_manifest home o c ≡ (
      (false, ok tt),
      record c {
        manifests = put o.name (some (modify_manifest o (new_manifest home)).1) (made ms);
      },
    )
unfolding set_manifest add_manifest
set_manifest_new home o c v p n h = ground arith

-- The configuration after the command: as before, or with one new value under the name.
abbrev Writes : String → Config → Config → Type 0
Writes name c c' =
    (c' ≡ c) ⊎ ((ptr : Option Manifest) × (c' ≡ record c { manifests = put name ptr c.manifests }))

entry-Writes :
    (home : String) (o : ManifestOptions) (e : Option (Option Manifest)) (c : Config)
    → Writes o.name c (set_manifest_entry home o e c).1
unfolding set_manifest_entry
entry-Writes home o none c = elim (GoMap-cases c.manifests) [
  | inl e ↦ inl (ground arith)
  | inr (ms, e) ↦ inr (some (modify_manifest o (new_manifest home)).1, ground arith)
]
entry-Writes home o (some ptr) c = inr ((modify_manifest_ptr o ptr).1, ground arith)

set_manifest-Writes :
    (home : String) (o : ManifestOptions) (c : Config) → Writes o.name c (set_manifest home o c).1
unfolding set_manifest
set_manifest-Writes home o c =
    let entry = entry-Writes home o (get o.name c.manifests) c in
    elim (Outcome-cases (validate_manifest_options o)) [
      | inl (u, e) ↦ rw (e, set_manifest) entry
      | inr (inl (x, e)) ↦ inl (rw (e, set_manifest))
      | inr (inr (k, e)) ↦ inl (rw (e, set_manifest))
    ]

Writes-get :
    (name j : String) (c c' : Config)
    → Writes name c c'
    → name ≢ j
    → get j c'.manifests ≡ get j c.manifests
Writes-get name j c c' (inl e) d = ap (λ (c : Config). get j c.manifests) e
Writes-get name j c c' (inr (ptr, e)) d =
    ap (λ (c : Config). get j c.manifests) e ∙ get-put_ne name j ptr c.manifests d

-- Whatever its result, the command changes no other manifest.
pub set_manifest_ne :
    (home : String) (o : ManifestOptions) (c : Config) (j : String)
    → o.name ≢ j
    → get j (set_manifest home o c).1.manifests ≡ get j c.manifests
set_manifest_ne home o c j = Writes-get o.name j c _ (set_manifest-Writes home o c)

Writes-IsComplete :
    (name : String) (c c' : Config) → Writes name c c' → IsComplete c → IsComplete c'
Writes-IsComplete name c c' (inl e) v = subst IsComplete (sym e) v
Writes-IsComplete name c c' (inr (ptr, e)) v = subst IsComplete (sym e) (record {
  context = v.context;
  manifest = if name == v.context.manifest then ptr else v.manifest;
  is_named = v.is_named;
  has_context = v.has_context;
  has_manifest = ground (arith, get-put name v.context.manifest ptr c.manifests, v.has_manifest);
})

-- Whatever its result, the command keeps a complete configuration complete.
pub set_manifest-IsComplete :
    (home : String) (o : ManifestOptions) (c : Config)
    → IsComplete c
    → IsComplete (set_manifest home o c).1
set_manifest-IsComplete home o c = Writes-IsComplete o.name c _ (set_manifest-Writes home o c)

module _ (H : Host) where
  finish-config :
      (write_to_storage : Bool) (r : Change × Config) (w : H.World)
      → (finish_manifest H write_to_storage r w).1 ≡ r.1
  unfolding finish_manifest
  finish-config write_to_storage ((m, ok u), c) w = refl
  finish-config write_to_storage ((m, err e), c) w = refl
  finish-config write_to_storage ((m, crash k), c) w = refl

  finish-world :
      (write_to_storage : Bool) (r : Change × Config) (w : H.World) (e : ConfigError)
      → r.0.1 ≡ err e
      → (finish_manifest H write_to_storage r w).2 ≡ w
  unfolding finish_manifest
  finish-world write_to_storage ((m, ok u), c) w e h = cc
  finish-world write_to_storage ((m, err e'), c) w e h = refl
  finish-world write_to_storage ((m, crash k), c) w e h = refl

  -- From a complete configuration RunSetManifest leaves a complete one in memory, in which no
  -- manifest but the named one has changed; and an error of its checks or of ModifyManifest on an
  -- existing manifest leaves the world as it was.
  pub run_set_manifest-IsComplete :
      (o : ManifestOptions) (write_to_storage : Bool) (c : Config) (w : H.World)
      → IsComplete c
      → let (change, c', w') = run_set_manifest H o write_to_storage c w in
        IsComplete c'
        × ((j : String) → o.name ≢ j → get j c'.manifests ≡ get j c.manifests)
        × ((e : ConfigError) → (set_manifest H.home_dir o c).0.1 ≡ err e → w' ≡ w)
  unfolding run_set_manifest
  run_set_manifest-IsComplete o write_to_storage c w v =
      let r = set_manifest H.home_dir o c in
      let same = sym (finish-config write_to_storage r w) in
      (
        subst IsComplete same (set_manifest-IsComplete H.home_dir o c v),
        λ j d.
            subst (λ (c' : Config). get j c'.manifests ≡ get j c.manifests) same
              (set_manifest_ne H.home_dir o c j d),
        finish-world write_to_storage r w,
      )

  -- Where the named manifest is new and its options pass Validate, RunSetManifest saves the manifest
  -- and reports success, also where ModifyManifest refused the options: the new manifest stands in
  -- the configuration half changed, and only a failure to save is an error.
  pub run_set_manifest_loses_error :
      (o : ManifestOptions) (c : Config) (w : H.World) {ms : List (String × Option Manifest)}
      {e : ConfigError}
      → validate_manifest_options o ≡ ok tt
      → c.manifests ≡ made ms
      → get o.name c.manifests ≡ none
      → (modify_manifest o (new_manifest H.home_dir)).0 ≡ err e
      → let c' : Config = record c {
        manifests = put o.name (some (modify_manifest o (new_manifest H.home_dir)).1) (made ms);
      } in
        (persist_config H true c' w).0 ≡ ok tt
        → run_set_manifest H o true c w ≡ ((false, ok tt), c', (persist_config H true c' w).1)
  unfolding run_set_manifest
  run_set_manifest_loses_error o c w v p n h s =
      rw (set_manifest_new H.home_dir o c v p n h, run_set_manifest) (ground arith)
