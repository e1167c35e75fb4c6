-- ===== src/Phases/Plan.antt =====
-- The plans of pkg/phase/client.go.
pub mod Order
use airshipctl.Base.{
  String, ◌==◌, Option, none, some, is_set, List, [], ◌∷◌, if◌then◌else◌, ok, err, crash,
}
use airshipctl.Base.Procs.{◌>>=◌, ◌>>◌, pure, lift}
use airshipctl.Phases.Types.{
  RunOptions, PhaseId, Phase, PhaseStep, PhasePlan, ValidationConfig, Method, Reply,
}
use airshipctl.Phases.Site.{Site}
use airshipctl.Phases.Client.{helper_phase, executor, run_phase, phase_status, validate_executor}

-- ifc.PlanRunOptions
pub record PlanRunOptions : Type 0 where
  pub run_options : RunOptions
  pub resume_from_phase : String

-- The name of a step alone selects its phase.
abbrev pub step_id : PhaseStep → PhaseId
step_id s = record { name = s.name; namespace = "" }

-- The steps from the first one of this name on, if there is one.
unfoldable pub steps_from : String → List PhaseStep → Option (List PhaseStep)
steps_from name [] = none
steps_from name (s ∷ ss) =
    let later = steps_from name ss in if s.name == name then some (s ∷ ss) else later

-- The steps that are left to run: all of them where no step has the name.
unfoldable pub resumed : String → List PhaseStep → List PhaseStep
unfolding steps_from
resumed name ss =
    if is_set name then elim (steps_from name ss) [ none ↦ ss | some rest ↦ rest ] else ss

module _ (S : Site) where
  open S use {World}

  unfoldable pub run_step : RunOptions → PhaseStep → Method World Unit
  unfolding helper_phase run_phase
  run_step ro s = do phase ← lift (helper_phase S (step_id s)); run_phase S ro phase

  unfoldable pub run_steps : RunOptions → List PhaseStep → Method World Unit
  run_steps ro [] = pure tt
  run_steps ro (s ∷ ss) = do run_step ro s; run_steps ro ss

  -- plan.Run, with the plan that it leaves
  unfoldable pub run_plan : PlanRunOptions → PhasePlan → World → PhasePlan × (Reply Unit × World)
  unfolding resumed run_steps
  run_plan o plan w =
      let steps = resumed o.resume_from_phase plan.phases in
      (record plan { phases = steps }, run_steps o.run_options steps w)

  unfoldable pub check_step : ValidationConfig → PhaseStep → Method World Unit
  unfolding helper_phase executor validate_executor
  check_step cfg s = do
    phase ← lift (helper_phase S (step_id s))
    e ← executor S phase
    validate_executor S e cfg

  -- Before the last step the validator is told to clean up.
  unfoldable pub clear_at_last : List PhaseStep → Method World Unit
  clear_at_last [] w = (ok tt, S.unset_prevent_cleanup w)
  clear_at_last (s ∷ ss) w = (ok tt, w)

  unfoldable pub validate_steps : ValidationConfig → List PhaseStep → Method World Unit
  unfolding clear_at_last
  validate_steps cfg [] = pure tt
  validate_steps cfg (s ∷ ss) = do clear_at_last ss; check_step cfg s; validate_steps cfg ss

  -- plan.Validate
  unfoldable pub validate_plan : PhasePlan → Method World Unit
  unfolding validate_steps
  validate_plan plan w = validate_steps plan.validation_cfg plan.phases (S.set_prevent_cleanup w)

  unfoldable status_step : PhaseStep → Method World Unit
  unfolding helper_phase phase_status
  status_step s = do phase ← lift (helper_phase S (step_id s)); phase_status S phase; pure tt

  unfoldable status_steps : List PhaseStep → Method World Unit
  unfolding status_step
  status_steps [] = pure tt
  status_steps (s ∷ ss) = do status_step s; status_steps ss

  -- plan.Status
  unfoldable pub plan_status : PhasePlan → Method World Unit
  unfolding status_steps
  plan_status plan = status_steps plan.phases
