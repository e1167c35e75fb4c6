-- ===== src/Phases/Rendering.antt =====
-- pkg/phase/render.go: the command that prints documents, from where it has its helper.
use airshipctl.Base.{
  String, ◌==◌, Bool, ◌||◌, List, [], ◌∷◌, if◌then◌else◌, ok, err, crash, reject_if, ◌≡◌, ◌≢◌, ◌↔◌,
  ◌⊎◌, arith, eq_iff,
}
use airshipctl.Base.Procs.{◌>>=◌, ◌>>◌, lift}
use airshipctl.Base.Paths.{split, join_with}
use airshipctl.Phases.Types.{
  PhaseId, unknown_render_source, render_phase_name_not_specified, Reply, Method,
}
use airshipctl.Phases.Site.{Site}
use airshipctl.Phases.Client.{helper_phase, render_phase}

-- RenderCommand
pub record RenderCommand : Type 0 where
  pub label : String
  pub annotation : String
  pub api_version : String
  pub kind : String
  pub source : String
  pub fail_on_decryption_error : Bool
  pub phase_id : PhaseId

-- RenderSourceConfig, RenderSourceExecutor and RenderSourcePhase
abbrev pub source_config : String
source_config = "config"

abbrev pub source_executor : String
source_executor = "executor"

abbrev pub source_phase : String
source_phase = "phase"

-- RenderCommand.Validate
unfoldable pub validate_render : RenderCommand → Reply Unit
validate_render fo =
    if fo.source == source_config
    then ok tt
    else if (fo.source == source_executor) || (fo.source == source_phase)
    then reject_if (fo.phase_id.name == "")
        (render_phase_name_not_specified (source_executor ∷ source_phase ∷ []))
    else err (unknown_render_source fo.source (source_config ∷ source_executor ∷ source_phase ∷ []))

-- The group and the version: without a slash the whole text is the version.
unfoldable group_and_version : List String → String × String
unfolding join_with
group_and_version [] = ("", "")
group_and_version (version ∷ []) = ("", version)
group_and_version (group ∷ part ∷ parts) = (group, join_with "/" (part ∷ parts))

module _ (S : Site) where
  open S use {World, Filter}

  unfoldable pub render_filter : RenderCommand → Filter
  unfolding split group_and_version
  render_filter fo =
      let (group, version) = group_and_version (split "/" fo.api_version) in
      S.filter_of fo.label fo.annotation group version fo.kind

  -- renderConfigBundle
  unfoldable render_config_bundle : Filter → Reply String
  render_config_bundle filter = elim (S.select_bundle filter S.config_bundle) [
    | ok bundle ↦ S.write_bundle bundle
    | err e ↦ err e
    | crash k ↦ crash k
  ]

  -- The text of the phase, or of its executor.
  unfoldable render_named : RenderCommand → Method World String
  unfolding render_filter helper_phase render_phase
  render_named fo = do
    phase ← lift (helper_phase S fo.phase_id)
    render_phase S (fo.source == source_executor) (render_filter fo) phase

  unfoldable render_source : RenderCommand → Method World String
  unfolding render_filter render_config_bundle render_named
  render_source fo =
      if fo.source == source_config
      then lift (render_config_bundle (render_filter fo))
      else render_named fo

  -- TOLERATE_DECRYPTION_FAILURES
  unfoldable set_tolerance : (World → World) → RenderCommand → Method World Unit
  set_tolerance tolerate fo w =
      if fo.fail_on_decryption_error then (ok tt, w) else (ok tt, tolerate w)

  -- RunE. `tolerate` sets the variable that lets a failed decryption pass, and `open_helper` reads the
  -- configuration and makes the helper.
  unfoldable pub run_render :
      (World → World) → Method World Unit → RenderCommand → Method World String
  unfolding validate_render set_tolerance render_source
  run_render tolerate open_helper fo = do
    lift (validate_render fo)
    set_tolerance tolerate fo
    open_helper
    render_source fo

-- The options are taken exactly if the source is the configuration, or it is the executor or the phase
-- and a phase is named.
pub validate_render-eq-ok :
    (fo : RenderCommand)
    → (validate_render fo ≡ ok tt) ↔ (
        (fo.source ≡ source_config)
        ⊎ (((fo.source ≡ source_executor) ⊎ (fo.source ≡ source_phase)) × (fo.phase_id.name ≢ "")))
unfolding validate_render
validate_render-eq-ok fo = ground (
  arith,
  eq_iff fo.source source_config,
  eq_iff fo.source source_executor,
  eq_iff fo.source source_phase,
  eq_iff fo.phase_id.name "",
)
