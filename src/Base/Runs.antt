-- ===== src/Base/Runs.antt =====
-- Calls that change a state and recurse without a limit of their own: with fuel, `none` where it ran
-- out. A file that chains them brings in this `>>=` and no other.
use mathlib.Core.Path.{◌≡◌, refl, subst}
use mathlib.Core.Logic.{◌≢◌}
use mathlib.Core.Option.{Option, none, some}
use native.Mathlib.Omega.{arith}
use airshipctl.Base.Results.{Outcome, ok, err, crash, Proc}

abbrev pub Run {ℓ} : Type ℓ → Type ℓ → Type ℓ → Type ℓ
Run S E A = S → Option (Outcome E A × S)

module _ {ℓ} {S E A B : Type ℓ} where
  abbrev pub run_on : Option (Outcome E A × S) → (A → Run S E B) → Option (Outcome E B × S)
  run_on none f = none
  run_on (some (ok a, s)) f = f a s
  run_on (some (err e, s)) f = some (err e, s)
  run_on (some (crash k, s)) f = some (crash k, s)

  infixl 10 ◌>>=◌ ◌>>◌
  abbrev pub ◌>>=◌ : Run S E A → (A → Run S E B) → Run S E B
  ◌>>=◌ m f s = run_on (m s) f

  abbrev pub ◌>>◌ : Run S E A → Run S E B → Run S E B
  m >> k = m >>= λ _. k

  pub run_on_ends :
      (r : Option (Outcome E A × S)) (f : A → Run S E B)
      → r ≢ none
      → ((a : A) (s : S) → f a s ≢ none)
      → run_on r f ≢ none
  run_on_ends none f h k = absurd (h refl)
  run_on_ends (some (ok a, s)) f h k = k a s
  run_on_ends (some (err e, s)) f h k = λ q. cc
  run_on_ends (some (crash c, s)) f h k = λ q. cc

  pub >>=-ends :
      (m : Run S E A) (f : A → Run S E B) (s : S)
      → m s ≢ none
      → ((a : A) (s' : S) → f a s' ≢ none)
      → (m >>= f) s ≢ none
  >>=-ends m f s h k = run_on_ends (m s) f h k

  pub run_on-inv :
      (x : Option (Outcome E A × S)) (f : A → Run S E B) (b : B) (s' : S)
      → run_on x f ≡ some (ok b, s')
      → (a : A) × (s : S) × (x ≡ some (ok a, s)) × (f a s ≡ some (ok b, s'))
  run_on-inv none f b s' h = cc
  run_on-inv (some (ok a, s)) f b s' h = (a, s, refl, h)
  run_on-inv (some (err e, s)) f b s' h = cc
  run_on-inv (some (crash k, s)) f b s' h = cc

module _ {ℓ} {S E A : Type ℓ} where
  abbrev pub return : A → Run S E A
  return a s = some (ok a, s)

  -- A call that ends, and one that does not change the state.
  abbrev pub proc : Proc S E A → Run S E A
  proc m s = some (m s)

  abbrev pub lift : Outcome E A → Run S E A
  lift r s = some (r, s)

  pub some-ne-none : {p : Outcome E A × S} → some p ≢ none
  some-ne-none h = cc

-- What holds of the state before a call holds after it, however it ends.
abbrev pub Keeps {ℓ} : {S E A : Type ℓ} → (S → Type 0) → Run S E A → Type ℓ
Keeps {S} {E} {A} P m = (s s' : S) (r : Outcome E A) → P s → m s ≡ some (r, s') → P s'

module _ {S E : Type 0} (P : S → Type 0) where
  run_on_keeps :
      {A B : Type 0} (x : Option (Outcome E A × S)) (f : A → Run S E B)
      → ((r : Outcome E A) (s : S) → x ≡ some (r, s) → P s)
      → ((a : A) → Keeps P (f a))
      → (s' : S) (r' : Outcome E B) → run_on x f ≡ some (r', s')
      → P s'
  run_on_keeps none f p k s' r' h = cc
  run_on_keeps (some (ok a, s)) f p k s' r' h = k a s s' r' (p (ok a) s refl) h
  run_on_keeps (some (err e, s)) f p k s' r' h =
      let same : s ≡ s' = ground arith in subst P same (p (err e) s refl)
  run_on_keeps (some (crash c, s)) f p k s' r' h =
      let same : s ≡ s' = ground arith in subst P same (p (crash c) s refl)

  pub >>=-Keeps :
      {A B : Type 0} (m : Run S E A) (f : A → Run S E B)
      → Keeps P m
      → ((a : A) → Keeps P (f a))
      → Keeps P (m >>= f)
  >>=-Keeps m f p k s s' r h q = run_on_keeps (m s) f (λ r' s₁ e. p s s₁ r' h e) k s' r q

  pub lift-Keeps : {A : Type 0} (r : Outcome E A) → Keeps P (lift r)
  lift-Keeps r s s' r' h q = let same : s ≡ s' = ground arith in subst P same h
