-- ===== src/Phases/Plan/Order.antt =====
-- In which order a plan runs its phases, where it stops, and from where it resumes.
use airshipctl.Base.{
  String, none, some, All, List, [], ◌∷◌, ◌++◌, ok, err, then_do, ◌≡◌, ◌≢◌, refl, sym, ap, ◌∙◌,
  arith, eq_iff,
}
use airshipctl.Base.Procs.{◌>>=◌, ◌>>◌, >>=_assoc, >>=_cong, >>=_pure, pure}
use airshipctl.Phases.Types.{RunOptions, PhaseStep, PhasePlan, PhaseError, ValidationConfig, Method}
use airshipctl.Phases.Site.{Site}
use airshipctl.Phases.Plan.{
  steps_from, run_step, run_steps, run_plan, check_step, validate_steps, validate_plan,
  clear_at_last,
}

-- No step has this name.
abbrev pub Lacks : String → List PhaseStep → Type 0
Lacks name = All (λ s. s.name ≢ name)

steps_from-Lacks : (name : String) (ss : List PhaseStep) → Lacks name ss → steps_from name ss ≡ none
unfolding steps_from
steps_from-Lacks name [] l = refl
steps_from-Lacks name (s ∷ ss) (n, l) =
    ground (arith, steps_from-Lacks name ss l, eq_iff s.name name)

steps_from_append :
    (name : String) (xs ys : List PhaseStep) (s : PhaseStep)
    → Lacks name xs
    → s.name ≡ name
    → steps_from name (xs ++ (s ∷ ys)) ≡ some (s ∷ ys)
unfolding steps_from
steps_from_append name [] ys s l e = ground (arith, eq_iff s.name name)
steps_from_append name (x ∷ xs) ys s (n, l) e =
    ground (arith, steps_from_append name xs ys s l e, eq_iff x.name name)

module _ (S : Site) (ro : RunOptions) where
  open S use {World}

  -- Resuming from a phase runs the steps from its first step on, and no other.
  pub run_plan_resumed :
      (plan : PhasePlan) (xs ys : List PhaseStep) (s : PhaseStep) (w : World)
      → plan.phases ≡ xs ++ (s ∷ ys)
      → s.name ≢ ""
      → Lacks s.name xs
      → run_plan S (record { run_options = ro; resume_from_phase = s.name }) plan w
        ≡ (record plan { phases = s ∷ ys }, run_steps S ro (s ∷ ys) w)
  unfolding run_plan
  run_plan_resumed plan xs ys s w e n l =
      let from = steps_from_append s.name xs ys s l refl in ground (arith, eq_iff s.name "", from)

  -- Resuming from a phase that no step names runs the whole plan from its first step on.
  pub run_plan_unknown :
      (plan : PhasePlan) (name : String) (w : World)
      → Lacks name plan.phases
      → run_plan S (record { run_options = ro; resume_from_phase = name }) plan w
        ≡ (plan, run_steps S ro plan.phases w)
  unfolding run_plan
  run_plan_unknown plan name w l = ground (arith, steps_from-Lacks name plan.phases l)

  -- The steps have run one after the other, each without an error.
  pub data Ran : List PhaseStep → World → World → Type 0 where
    done : {w : World} → Ran [] w w
    next :
        {s : PhaseStep} {ss : List PhaseStep} {w w₁ w₂ : World}
        → run_step S ro s w ≡ (ok tt, w₁)
        → Ran ss w₁ w₂
        → Ran (s ∷ ss) w w₂

  Ran-run_steps :
      (ss zs : List PhaseStep) (w w' : World)
      → Ran ss w w'
      → run_steps S ro (ss ++ zs) w ≡ run_steps S ro zs w'
  unfolding run_steps
  Ran-run_steps [] zs w w' done = refl
  Ran-run_steps (s ∷ ss) zs w w' (next e r) = rw e (Ran-run_steps ss zs _ w' r)

  -- The first step that fails ends the plan with its error, where it ended; no later step runs.
  pub run_steps_stops :
      (xs ys : List PhaseStep) (s : PhaseStep) (w w₁ w₂ : World) (e : PhaseError)
      → Ran xs w w₁
      → run_step S ro s w₁ ≡ (err e, w₂)
      → run_steps S ro (xs ++ (s ∷ ys)) w ≡ (err e, w₂)
  unfolding run_steps
  run_steps_stops xs ys s w w₁ w₂ e r f = Ran-run_steps xs (s ∷ ys) w w₁ r ∙ rw f refl

module _ (S : Site) where
  open S use {World}

  -- The checks of the steps, without the environment variable.
  pub check_steps : ValidationConfig → List PhaseStep → Method World Unit
  check_steps cfg [] = pure tt
  check_steps cfg (s ∷ ss) = do check_step S cfg s; check_steps cfg ss

  not_at_last :
      (xs : List PhaseStep) (s : PhaseStep) (w : World)
      → clear_at_last S (xs ++ (s ∷ [])) w ≡ (ok tt, w)
  unfolding clear_at_last
  not_at_last [] s w = refl
  not_at_last (x ∷ xs) s w = refl

  validate_steps_append :
      (cfg : ValidationConfig) (xs : List PhaseStep) (s : PhaseStep) (w : World)
      → validate_steps S cfg (xs ++ (s ∷ [])) w
        ≡ (check_steps cfg xs >> (λ u. check_step S cfg s (S.unset_prevent_cleanup u))) w
  unfolding validate_steps check_steps
  validate_steps_append cfg [] s w = >>=_pure (check_step S cfg s) (S.unset_prevent_cleanup w)
  validate_steps_append cfg (x ∷ xs) s w =
      let last = λ (_ : Unit {0}) (u : World). check_step S cfg s (S.unset_prevent_cleanup u) in
      let first = check_step S cfg x in
      ap (λ r. then_do r (λ _. first >> validate_steps S cfg (xs ++ (s ∷ [])))) (not_at_last xs s w)
      ∙ >>=_cong first (λ _. validate_steps S cfg (xs ++ (s ∷ [])))
          (λ _. check_steps cfg xs >>= last) w (λ _ u. validate_steps_append cfg xs s u)
      ∙ sym (>>=_assoc first (λ _. check_steps cfg xs) last w)

  -- Validating a plan sets the environment variable that keeps the validator from cleaning up, checks
  -- the steps in their order, and clears the variable right before it checks the last one.
  pub validate_plan_last :
      (plan : PhasePlan) (xs : List PhaseStep) (s : PhaseStep) (w : World)
      → plan.phases ≡ xs ++ (s ∷ [])
      → validate_plan S plan w
        ≡ (check_steps plan.validation_cfg xs
              >> (λ u. check_step S plan.validation_cfg s (S.unset_prevent_cleanup u)))
            (S.set_prevent_cleanup w)
  unfolding validate_plan
  validate_plan_last plan xs s w e =
      ap (λ ss. validate_steps S plan.validation_cfg ss (S.set_prevent_cleanup w)) e
      ∙ validate_steps_append plan.validation_cfg xs s (S.set_prevent_cleanup w)
