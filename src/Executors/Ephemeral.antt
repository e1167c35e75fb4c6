-- ===== src/Executors/Ephemeral.antt =====
-- ephemeral.go: the executor that runs the bootstrap container.
use airshipctl.Base.{
  String, false, Option, none, some, [], ◌∷◌, if◌then◌else◌, ok, Proc, Outcome-cases, ◌≡◌, inl, inr,
  arith,
}
use airshipctl.Base.Procs.{◌>>=◌, ◌>>◌, pure, >>=-inv}
use airshipctl.Base.Paths.{join, split}
use airshipctl.Containers.Types.{ContainerError, Container}
use airshipctl.Bootstrap.{
  BootConfiguration, Outside, verify_inputs, verify_artifacts, create_bootstrap_container,
  first_part,
}
use airshipctl.Phases.Types.{RunOptions}
use airshipctl.Executors.{ExecutorError, container_error, boot_error, of, modify, current}

-- `new_container` is container.NewContainer.
module _ (O : Outside)
    (new_container : String → String → Proc O.World ContainerError (Container O.World)) where
  open O use {World}

  -- EphemeralExecutor
  pub record Executor : Type 0 where
    pub boot_conf : BootConfiguration
    pub container : Option (Container World)

  abbrev pub State : Type 0
  State = Executor × World

  abbrev pub Method : Type 0 → Type 0
  Method A = Proc State ExecutorError A

  abbrev pub on_world : {E A : Type 0} → (E → ExecutorError) → Proc World E A → Method A
  on_world wrap m (e, w) = let (r, w') = m w in (of wrap r, (e, w'))

  -- The container that the executor holds, which is made for the first run.
  unfoldable pub container_or : Option (Container World) → Method (Container World)
  container_or (some box) = pure box
  container_or none = do
    (e, w) ← current
    box ← on_world container_error (new_container e.boot_conf.container_runtime e.boot_conf.image)
    modify (λ (e, w). (record e { container = some box }, w))
    pure box

  unfoldable pub verify : Method Unit
  verify (e, w) =
      let (r, conf) = verify_inputs e.boot_conf in
      (of boot_error r, (record e { boot_conf = conf }, w))

  unfoldable pub artifacts : Container World → Method Unit
  artifacts box (e, w) = on_world boot_error (verify_artifacts O box e.boot_conf) (e, w)

  unfoldable pub create : Container World → Method Unit
  create box (e, w) =
      on_world boot_error (create_bootstrap_container O box false e.boot_conf) (e, w)

  abbrev pub create_and_check : Container World → Method Unit
  create_and_check box = create box >> artifacts box

  abbrev pub run_in : Container World → Method Unit
  run_in box = verify >> create_and_check box

  -- Run
  unfoldable pub run_ephemeral : RunOptions → Method Unit
  unfolding container_or verify create artifacts
  run_ephemeral ro s =
      if ro.dry_run then (ok tt, s) else (container_or (s.0.container) >>= run_in) s

  artifacts-stat :
      (box : Container World) (s s' : State)
      → artifacts box s ≡ (ok tt, s')
      → O.stat
          (join
            (first_part (split ":" (s'.0.boot_conf.volume)) ∷ s'.0.boot_conf.config_filename ∷ []))
          s'.1
        ≡ ok tt
  unfolding artifacts verify_artifacts
  artifacts-stat box (e, w) s' h =
      let path =
        join (first_part (split ":" (e.boot_conf.volume)) ∷ e.boot_conf.config_filename ∷ []) in
      elim (Outcome-cases (O.stat path w)) [
        | inl (u, q) ↦ let same : s' ≡ (e, w) = ground arith in rw (same, q) (ground arith)
        | inr (inl (x, q)) ↦ absurd (ground arith)
        | inr (inr (k, q)) ↦ absurd (ground arith)
      ]

  -- Where a run that is not dry ends without an error, the configuration file of the ephemeral cluster
  -- is there at its end, in the directory that the volume names first.
  pub run_ephemeral-stat :
      (ro : RunOptions) (s s' : State)
      → ro.dry_run ≡ false
      → run_ephemeral ro s ≡ (ok tt, s')
      → O.stat
          (join
            (first_part (split ":" (s'.0.boot_conf.volume)) ∷ s'.0.boot_conf.config_filename ∷ []))
          s'.1
        ≡ ok tt
  unfolding run_ephemeral
  run_ephemeral-stat ro s s' dry h =
      let (box, _, h₁) = >>=-inv (container_or (s.0.container)) run_in s (rw dry at h) in
      let s₁ = (container_or (s.0.container) s).1 in
      let (_, _, h₂) = >>=-inv verify (λ _. create_and_check box) s₁ h₁ in
      let s₂ = (verify s₁).1 in
      let (_, _, h₃) = >>=-inv (create box) (λ _. artifacts box) s₂ h₂ in
      artifacts-stat box (create box s₂).1 s' h₃
