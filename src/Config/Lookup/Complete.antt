-- ===== src/Config/Lookup/Complete.antt =====
-- EnsureComplete of config.go against what it promises, and what the getters can rely on after it.
use airshipctl.Base.{Option, none, some, ok, ◌≡◌, ◌≢◌, ◌↔◌, inl, inr, arith, eq_iff, Option-cases}
use airshipctl.Base.GoMap.{get, is_empty-get}
use airshipctl.Config.Types.{Context, Manifest, Config}
use airshipctl.Config.Lookup.{ensure_complete, current_context_manifest, get_current_context}

-- The current context is named, it is a defined context, and its manifest is a defined one.
pub record IsComplete (c : Config) : Type 0 where
  pub context : Context
  pub manifest : Option Manifest
  pub is_named : c.current_context ≢ ""
  pub has_context : get c.current_context c.contexts ≡ some (some context)
  pub has_manifest : get context.manifest c.manifests ≡ some manifest

IsComplete-ensure : (c : Config) → IsComplete c → ensure_complete c ≡ ok tt
unfolding ensure_complete
IsComplete-ensure c v = ground (
  arith,
  is_empty-get c.current_context c.contexts v.has_context,
  is_empty-get v.context.manifest c.manifests v.has_manifest,
  eq_iff c.current_context "",
)

ensure-IsComplete : (c : Config) → ensure_complete c ≡ ok tt → IsComplete c
unfolding ensure_complete
ensure-IsComplete c h = elim (Option-cases (get c.current_context c.contexts)) [
  | inl e ↦ absurd (ground arith)
  | inr (none, e) ↦ absurd (ground arith)
  | inr (some ctx, e) ↦ elim (Option-cases (get ctx.manifest c.manifests)) [
    | inl e' ↦ absurd (ground arith)
    | inr (m, e') ↦ record {
      context = ctx;
      manifest = m;
      is_named = ground (arith, eq_iff c.current_context "");
      has_context = e;
      has_manifest = e';
    }
  ]
]

-- EnsureComplete returns no error exactly when the current context is named, it is a defined context
-- and not nil, and the manifest that it names is a defined one.
pub ensure_complete-eq-ok : (c : Config) → (ensure_complete c ≡ ok tt) ↔ IsComplete c
ensure_complete-eq-ok c = (ensure-IsComplete c, IsComplete-ensure c)

-- After EnsureComplete returned no error, the getters of the current context and of its manifest
-- return none either.
pub current_context_manifest_complete :
    (c : Config)
    → ensure_complete c ≡ ok tt
    → (ctx : Context) × (m : Option Manifest) × (get_current_context c ≡ ok (some ctx))
      × (current_context_manifest c ≡ ok m)
      × (get ctx.manifest c.manifests ≡ some m)
unfolding current_context_manifest
current_context_manifest_complete c h =
    let v = ensure-IsComplete c h in
    (v.context, v.manifest, ground arith, ground arith, v.has_manifest)
