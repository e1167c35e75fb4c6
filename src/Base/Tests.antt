-- ===== src/Base/Tests.antt =====
-- Boolean tests and Go's signed `int`, as far as the code compares it.
use Prim.Native.Nat.{ℕ, suc, compare, Ordering}
use Prim.Native.String.{String}
use mathlib.Core.Path.{◌≡◌, refl}
use mathlib.Core.Logic.{◌⊎◌, inl, inr, ◌≢◌}
use mathlib.Core.Bool.{Bool, true, false}
use native.Mathlib.Omega.{arith}
use text.Mathlib.TextEquality.{eq_iff}
pub use text.Mathlib.Text.{◌==◌}

infix 1 if◌then◌else◌
abbrev pub if◌then◌else◌ {ℓ} : {A : Type ℓ} → Bool → A → A → A
if true then x else y = x
if false then x else y = y

abbrev pub ltb : ℕ → ℕ → Bool
ltb a b = elim (compare a b) [ Ordering.lt ↦ true | _ ↦ false ]

abbrev pub nat_eqb : ℕ → ℕ → Bool
nat_eqb a b = elim (compare a b) [ Ordering.eq ↦ true | _ ↦ false ]

-- `s != ""`
abbrev pub is_set : String → Bool
is_set s = if s == "" then false else true

pub Bool-cases : (b : Bool) → (b ≡ true) ⊎ (b ≡ false)
Bool-cases true = inl refl
Bool-cases false = inr refl

pub eqb_false→ne : (s t : String) → (s == t) ≡ false → s ≢ t
eqb_false→ne s t h e = ground (arith, eq_iff s t)

pub ne→eqb_false : (s t : String) → s ≢ t → (s == t) ≡ false
ne→eqb_false s t h = ground (arith, eq_iff s t)

-- Go's `int`; `negsuc n` is -(n + 1).
pub data ℤ : Type 0 where
  pos : ℕ → ℤ
  negsuc : ℕ → ℤ

-- The rounds of `for retry := 0; retry < n; retry++`.
abbrev pub rounds_below : ℤ → ℕ
rounds_below (pos n) = n
rounds_below (negsuc n) = 0

-- The rounds of `for retry := 0; retry <= n; retry++`.
abbrev pub rounds_through : ℤ → ℕ
rounds_through (pos n) = suc n
rounds_through (negsuc n) = 0
