-- ===== src/Base/Results.antt =====
-- How a Go call ends: with a value, with an `error`, or with the end of the process by a panic or by
-- `log.Fatal`. A `Proc` is a call that also changes a state; what it wrote before an error stays.
use mathlib.Core.Path.{◌≡◌, refl}
use mathlib.Core.Logic.{◌⊎◌, inl, inr}
use mathlib.Core.Bool.{Bool, true, false}
use mathlib.Core.Option.{Option, none, some}

pub data Crash : Type 0 where
  nil_pointer nil_map_write index_out_of_range bad_assertion fatal explicit_panic : Crash

pub data Outcome {ℓ} (E A : Type ℓ) : Type ℓ where
  ok : A → Outcome E A
  err : E → Outcome E A
  crash : Crash → Outcome E A

module _ {ℓ} {E A B : Type ℓ} where
  infixl 10 ◌>>=◌ ◌>>◌
  abbrev pub ◌>>=◌ : Outcome E A → (A → Outcome E B) → Outcome E B
  ok a >>= f = f a
  err e >>= f = err e
  crash c >>= f = crash c

  abbrev pub ◌>>◌ : Outcome E A → Outcome E B → Outcome E B
  m >> k = m >>= λ _. k

-- `if bad { return e }`
abbrev pub reject_if {ℓ} : {E : Type ℓ} → Bool → E → Outcome E (Unit {ℓ})
reject_if true e = err e
reject_if false e = ok tt

-- A read or a write through a pointer.
abbrev pub deref {ℓ} : {E A : Type ℓ} → Option A → Outcome E A
deref none = crash nil_pointer
deref (some a) = ok a

-- A comma-ok lookup whose failure is an error.
abbrev pub found_or {ℓ} : {E A : Type ℓ} → Option A → E → Outcome E A
found_or none e = err e
found_or (some a) e = ok a

abbrev pub Proc {ℓ} : Type ℓ → Type ℓ → Type ℓ → Type ℓ
Proc S E A = S → Outcome E A × S

module _ {ℓ} {S E : Type ℓ} where
  -- The rest of a call, unless what came before has ended it.
  abbrev pub then_do : {A B : Type ℓ} → Outcome E A × S → (A → Proc S E B) → Outcome E B × S
  then_do (ok a, s) f = f a s
  then_do (err e, s) f = (err e, s)
  then_do (crash c, s) f = (crash c, s)

pub Option-cases {ℓ} :
    {A : Type ℓ} (pointer : Option A) → (pointer ≡ none) ⊎ ((value : A) × (pointer ≡ some value))
Option-cases none = inl refl
Option-cases (some value) = inr (value, refl)

pub Outcome-cases {ℓ} :
    {E A : Type ℓ} (m : Outcome E A)
    → ((a : A) × (m ≡ ok a)) ⊎ ((e : E) × (m ≡ err e)) ⊎ ((c : Crash) × (m ≡ crash c))
Outcome-cases (ok a) = inl (a, refl)
Outcome-cases (err e) = inr (inl (e, refl))
Outcome-cases (crash c) = inr (inr (c, refl))
