-- ===== src/Containers/Running/Removal.antt =====
-- The container of a run is removed, however the run ends.
use airshipctl.Base.{
  String, ◌==◌, Bool, Outcome-cases, if◌then◌else◌, ok, crash, Crash, Outcome, ◌≡◌, ◌≢◌, ◌↔◌, inl,
  inr, arith,
}
use airshipctl.Containers.Types.{ContainerError, Container, GenericContainer}
use airshipctl.Containers.Running.{Runtime, Client, run_in, run_airship}

module _ (R : Runtime) (logs_first : Bool) (c : Client R) (conf : GenericContainer) where
  open R use {World}

  abbrev pub runtime_of : GenericContainer → String
  runtime_of g = if g.container_runtime == "" then "docker" else g.container_runtime

  -- The container that is made, and the world in which its run has ended.
  abbrev pub made : World → Outcome ContainerError (Container World) × World
  made w = R.new_container (runtime_of conf) conf.image w

  abbrev pub after_run : Container World → World → World
  after_run cont w = (run_in R logs_first c conf cont (made w).1).1

  -- Once a container is made, the last call of a run removes it, whether the run succeeds, fails or
  -- panics, and an error of the removal is not one of the run.
  pub run_airship_removes :
      (cont : Container World) (w : World)
      → (made w).0 ≡ ok cont
      → ((run_airship R logs_first c conf w).1 ≡ (cont.rm_container (after_run cont w)).1)
        × (((run_airship R logs_first c conf w).0 ≡ ok tt) ↔ (
            ((run_in R logs_first c conf cont (made w).1).0 ≡ ok tt)
            × ((k : Crash) → (cont.rm_container (after_run cont w)).0 ≢ crash k)))
  unfolding run_airship
  run_airship_removes cont w h = elim (Outcome-cases (cont.rm_container (after_run cont w)).0) [
    | inl (u, e) ↦
        (ground arith, (λ q. (ground arith, λ k f. ground arith), λ (q, n). ground arith))
    | inr (inl (x, e)) ↦
        (ground arith, (λ q. (ground arith, λ k f. ground arith), λ (q, n). ground arith))
    | inr (inr (k, e)) ↦ (ground arith, (λ q. absurd (ground arith), λ (q, n). absurd (n k e)))
  ]
