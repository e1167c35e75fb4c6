-- ===== src/Containers/Running/Mounts.antt =====
-- The sources of the mounts of a container.
use Prim.Native.String.append
use airshipctl.Base.{
  String, ◌<>◌, ◌==◌, Bool, true, false, List, [], ◌∷◌, if◌then◌else◌, All, Bool-cases, ◌≡◌, inl,
  inr, refl, ap, eq_iff,
}
use airshipctl.Base.Paths.{join, join_with, clean, is_rooted, text_of}
use airshipctl.Base.Texts.{has_prefix}
use airshipctl.Kubeconfig.Files.{expand_tilde}
use airshipctl.Containers.Types.{StorageMount}
use airshipctl.Containers.Running.{expanded_source, expand_source_mounts}

rooted_append : (s t : String) → is_rooted s ≡ true → is_rooted (s <> t) ≡ true
unfolding is_rooted
rooted_append String.[] t h = cc
rooted_append (String.◌∷◌ c s) t h = rw (append.cons c s t) h

slash_rooted : (t : String) → is_rooted ("/" <> t) ≡ true
slash_rooted t = rooted_append "/" t (unfold is_rooted in refl)

if_rooted :
    (b : Bool) (kept : String)
    → b ≡ true
    → is_rooted (if b then "/" <> kept else if kept == "" then "." else kept) ≡ true
if_rooted true kept h = slash_rooted kept
if_rooted false kept h = cc

clean-rooted : (path : String) → is_rooted path ≡ true → is_rooted (clean path) ≡ true
unfolding clean
clean-rooted path h = if_rooted (is_rooted path) _ h

join-rooted :
    (target src : String) → is_rooted target ≡ true → is_rooted (join (target ∷ src ∷ [])) ≡ true
unfolding join join_with is_rooted
join-rooted target src h =
    let whole = clean-rooted (target <> ("/" <> src)) (rooted_append target ("/" <> src) h) in
    elim (Bool-cases (target == "")) [
      | inl e ↦ let empty : target ≡ "" = (eq_iff target "").0 e in absurd (cc (ap is_rooted empty))
      | inr e ↦ rw e whole
    ]

-- A path from the root is not expanded.
expand_tilde_rooted : (home path : String) → is_rooted path ≡ true → expand_tilde home path ≡ path
unfolding expand_tilde is_rooted has_prefix
expand_tilde_rooted home String.[] h = cc
expand_tilde_rooted home (String.◌∷◌ c s) h =
    let slash : text_of c ≡ "/" = (eq_iff (text_of c) "/").0 h in
    elim (Bool-cases (String.◌∷◌ c s == "~")) [
      | inl e ↦
          let same : String.◌∷◌ c s ≡ "~" = (eq_iff (String.◌∷◌ c s) "~").0 e in
          absurd (cc (ap is_rooted same))
      | inr e ↦ rw e (rw slash refl)
    ]

module _ (home target : String) (from_root : is_rooted target ≡ true) where
  expanded_source-rooted : (src : String) → is_rooted (expanded_source home target src) ≡ true
  expanded_source-rooted src = elim (Bool-cases (is_rooted (expand_tilde home src))) [
    | inl e ↦ rw e e
    | inr e ↦ rw e (join-rooted target src from_root)
  ]

  -- With a target path from the root, every source of a mount is one from the root afterwards.
  pub expand_source_mounts-rooted :
      (ms : List StorageMount)
      → All (λ (m : StorageMount). is_rooted m.src ≡ true) (expand_source_mounts home target ms)
  unfolding expand_source_mounts
  expand_source_mounts-rooted [] = tt
  expand_source_mounts-rooted (m ∷ ms) =
      (expanded_source-rooted m.src, expand_source_mounts-rooted ms)

  -- To expand the mounts again, as a second run of the same container does, changes nothing.
  pub expand_source_mounts_idem :
      (ms : List StorageMount)
      → expand_source_mounts home target (expand_source_mounts home target ms)
        ≡ expand_source_mounts home target ms
  unfolding expand_source_mounts
  expand_source_mounts_idem [] = refl
  expand_source_mounts_idem (m ∷ ms) =
      let src = expanded_source home target m.src in
      let rooted = expanded_source-rooted m.src in
      let same = expand_tilde_rooted home src rooted in
      let again : expanded_source home target src ≡ src = rw same (rw rooted refl) in
      rw again (ap (λ rest. record m { src = src } ∷ rest) (expand_source_mounts_idem ms))
