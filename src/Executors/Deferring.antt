-- ===== src/Executors/Deferring.antt =====
-- The deferred cleanups of the executors: the last thing that a call does.
use airshipctl.Base.{
  Outcome, ok, err, crash, fatal, Bool-cases, ◌≡◌, ◌≢◌, inl, inr, refl, arith, nil_pointer,
  nil_map_write, index_out_of_range, bad_assertion, explicit_panic,
}
use airshipctl.Executors.{ExecutorError, ends_process, after_cleanup, deferred}

module _ {S B : Type 0} (clean : S → Outcome ExecutorError Unit × S) where
  after_cleanup-state :
      (r : Outcome ExecutorError B) (p : Outcome ExecutorError Unit × S)
      → (after_cleanup r p).1 ≡ p.1
  after_cleanup-state r (ok u, s) = refl
  after_cleanup-state r (err e, s) = refl
  after_cleanup-state r (crash k, s) = refl

  -- The cleanup comes last, in the state in which the call ended, unless the process has ended.
  pub deferred-state :
      (r : Outcome ExecutorError B) (s : S)
      → r ≢ crash fatal
      → (deferred clean (r, s)).1 ≡ (clean s).1
  unfolding deferred ends_process
  deferred-state (ok b) s h = after_cleanup-state (ok b) (clean s)
  deferred-state (err e) s h = after_cleanup-state (err e) (clean s)
  deferred-state (crash fatal) s h = absurd (h refl)
  deferred-state (crash nil_pointer) s h = after_cleanup-state (crash nil_pointer) (clean s)
  deferred-state (crash nil_map_write) s h = after_cleanup-state (crash nil_map_write) (clean s)
  deferred-state (crash index_out_of_range) s h =
      after_cleanup-state (crash index_out_of_range) (clean s)
  deferred-state (crash bad_assertion) s h = after_cleanup-state (crash bad_assertion) (clean s)
  deferred-state (crash explicit_panic) s h = after_cleanup-state (crash explicit_panic) (clean s)

  after_cleanup-ok :
      (r : Outcome ExecutorError B) (p : Outcome ExecutorError Unit × S) (b : B) (s' : S)
      → after_cleanup r p ≡ (ok b, s')
      → (r ≡ ok b) × (p.1 ≡ s')
  after_cleanup-ok r (ok u, s) b s' h = (ground arith, ground arith)
  after_cleanup-ok r (err e, s) b s' h = cc
  after_cleanup-ok r (crash k, s) b s' h = cc

  -- A call with a cleanup that succeeds did so before it.
  pub deferred-ok :
      (r : Outcome ExecutorError B) (s s' : S) (b : B)
      → deferred clean (r, s) ≡ (ok b, s')
      → (r ≡ ok b) × ((clean s).1 ≡ s')
  unfolding deferred
  deferred-ok (ok b') s s' b h = after_cleanup-ok (ok b') (clean s) b s' h
  deferred-ok (err e) s s' b h = after_cleanup-ok (err e) (clean s) b s' h
  deferred-ok (crash k) s s' b h = elim (Bool-cases (ends_process k)) [
    | inl e ↦ absurd (ground arith)
    | inr e ↦ after_cleanup-ok (crash k) (clean s) b s' (rw e at h)
  ]
