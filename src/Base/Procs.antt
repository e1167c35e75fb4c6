-- ===== src/Base/Procs.antt =====
-- Chains of calls that change a state. A file that also chains `Outcome`s brings in one of the two.
use mathlib.Core.Path.{◌≡◌, refl}
use native.Mathlib.Omega.{arith}
use airshipctl.Base.Results.{Outcome, ok, err, crash, Proc, then_do}

module _ {ℓ} {S E A B : Type ℓ} where
  infixl 10 ◌>>=◌ ◌>>◌
  abbrev pub ◌>>=◌ : Proc S E A → (A → Proc S E B) → Proc S E B
  ◌>>=◌ m f s = let (r, s') = m s in then_do (r, s') f

  abbrev pub ◌>>◌ : Proc S E A → Proc S E B → Proc S E B
  m >> k = m >>= λ _. k

module _ {ℓ} {S E A : Type ℓ} where
  abbrev pub pure : A → Proc S E A
  pure a s = (ok a, s)

  -- A call that does not touch the state.
  abbrev pub lift : Outcome E A → Proc S E A
  lift r s = (r, s)

  abbrev pub gets : (S → A) → Proc S E A
  gets f s = (ok (f s), s)

module _ {ℓ} {S E A B : Type ℓ} where
  then_do-inv :
      (p : Outcome E A × S) (f : A → Proc S E B) {b : B} {s : S}
      → then_do p f ≡ (ok b, s)
      → (a : A) × (p.0 ≡ ok a) × (f a p.1 ≡ (ok b, s))
  then_do-inv (ok a, s') f h = (a, refl, h)
  then_do-inv (err e, s') f h = cc
  then_do-inv (crash c, s') f h = cc

  then_do-intro :
      (p : Outcome E A × S) (f : A → Proc S E B) (a : A) → p.0 ≡ ok a → then_do p f ≡ f a p.1
  then_do-intro (ok a', s') f a h = ground arith
  then_do-intro (err e, s') f a h = cc
  then_do-intro (crash c, s') f a h = cc

  -- A chain that ends without an error is a first call that does, and a rest that does from there.
  pub >>=-inv :
      (m : Proc S E A) (f : A → Proc S E B) (s : S) {b : B} {s' : S}
      → (m >>= f) s ≡ (ok b, s')
      → (a : A) × ((m s).0 ≡ ok a) × (f a (m s).1 ≡ (ok b, s'))
  >>=-inv m f s h = then_do-inv (m s) f h

  pub >>=-intro :
      (m : Proc S E A) (f : A → Proc S E B) (s : S) (a : A)
      → (m s).0 ≡ ok a
      → (m >>= f) s ≡ f a (m s).1
  >>=-intro m f s a h = then_do-intro (m s) f a h

module _ {ℓ} {S E A B C : Type ℓ} where
  then_do_assoc :
      (p : Outcome E A × S) (f : A → Proc S E B) (g : B → Proc S E C)
      → then_do (then_do p f) g ≡ then_do p (λ a. f a >>= g)
  then_do_assoc (ok a, s) f g = refl
  then_do_assoc (err e, s) f g = refl
  then_do_assoc (crash c, s) f g = refl

  pub >>=_assoc :
      (m : Proc S E A) (f : A → Proc S E B) (g : B → Proc S E C) (s : S)
      → ((m >>= f) >>= g) s ≡ (m >>= λ a. f a >>= g) s
  >>=_assoc m f g s = then_do_assoc (m s) f g

module _ {ℓ} {S E A B : Type ℓ} where
  then_do_cong :
      (p : Outcome E A × S) (f g : A → Proc S E B)
      → ((a : A) (s : S) → f a s ≡ g a s)
      → then_do p f ≡ then_do p g
  then_do_cong (ok a, s) f g h = h a s
  then_do_cong (err e, s) f g h = refl
  then_do_cong (crash c, s) f g h = refl

  pub >>=_cong :
      (m : Proc S E A) (f g : A → Proc S E B) (s : S)
      → ((a : A) (s : S) → f a s ≡ g a s)
      → (m >>= f) s ≡ (m >>= g) s
  >>=_cong m f g s h = then_do_cong (m s) f g h

module _ {ℓ} {S E A : Type ℓ} where
  then_do-pure : (p : Outcome E A × S) → then_do p pure ≡ p
  then_do-pure (ok a, s) = refl
  then_do-pure (err e, s) = refl
  then_do-pure (crash c, s) = refl

  pub >>=_pure : (m : Proc S E A) (s : S) → (m >>= pure) s ≡ m s
  >>=_pure m s = then_do-pure (m s)
