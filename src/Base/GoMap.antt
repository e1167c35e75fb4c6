-- ===== src/Base/GoMap.antt =====
-- Go's `map[string]V`: the nil map, which reads as empty and panics on a write, or a made map. A map
-- of pointers has `Option` values, for a key may hold nil. The order of the entries means nothing.
use Prim.Native.String.{String}
use mathlib.Core.Path.{◌≡◌, refl}
use mathlib.Core.Logic.{◌≢◌, ◌⊎◌, inl, inr}
use mathlib.Core.Bool.{Bool, true, false}
use mathlib.Core.Option.{Option, none, some}
use mathlib.Core.List.{List, [], ◌∷◌, map}
use native.Mathlib.Omega.{arith}
use text.Mathlib.TextEquality.{eq_iff}
use text.Mathlib.TextPositions.{eq_refl}
use airshipctl.Base.Tests.{◌==◌, if◌then◌else◌}
use airshipctl.Base.Results.{Outcome, ok, crash, nil_map_write}

pub data GoMap {ℓ} (V : Type ℓ) : Type ℓ where
  unmade : GoMap V
  made : List (String × V) → GoMap V

module _ {ℓ} {V : Type ℓ} where
  -- The value of the first entry with this key.
  unfoldable pub value_at : List (String × V) → String → Option V
  value_at [] key = none
  value_at (entry ∷ rest) key = if entry.0 == key then some entry.1 else value_at rest key

  -- The first entry with this key gets the value; without one, a new entry stands last.
  unfoldable with_value : List (String × V) → String → V → List (String × V)
  with_value [] key value = (key, value) ∷ []
  with_value (entry ∷ rest) key value =
      let later = with_value rest key value in
      if entry.0 == key then (entry.0, value) ∷ rest else entry ∷ later

  abbrev pub entries : GoMap V → List (String × V)
  entries unmade = []
  entries (made m) = m

  -- `v, found := m[k]`
  unfoldable pub get : String → GoMap V → Option V
  unfolding value_at
  get k m = value_at (entries m) k

  -- `m[k] = v`, on a made map
  unfoldable pub put : String → V → GoMap V → GoMap V
  unfolding with_value
  put k v m = made (with_value (entries m) k v)

  -- `m[k] = v`
  abbrev pub assign : {E : Type ℓ} → String → V → GoMap V → Outcome E (GoMap V)
  assign k v unmade = crash nil_map_write
  assign k v (made m) = ok (put k v (made m))

  -- `len(m) == 0`
  abbrev pub is_empty : GoMap V → Bool
  is_empty unmade = true
  is_empty (made []) = true
  is_empty (made (e ∷ m)) = false

  -- `for k := range m`, in one of the orders that Go may choose
  abbrev pub keys : GoMap V → List String
  keys m = map (λ (k, _). k) (entries m)

  value_at-with_value :
      (es : List (String × V)) (key other : String) (value : V)
      → value_at (with_value es key value) other
        ≡ (if key == other then some value else value_at es other)
  unfolding value_at with_value
  value_at-with_value [] key other value = refl
  value_at-with_value ((name, old) ∷ rest) key other value = ground (
    arith,
    eq_iff name key,
    eq_iff name other,
    eq_iff key other,
    value_at-with_value rest key other value,
  )

  -- A write shows at its own key and nowhere else.
  pub get-put :
      (k j : String) (v : V) (m : GoMap V)
      → get j (put k v m) ≡ (if k == j then some v else get j m)
  unfolding get put
  get-put k j v m = value_at-with_value (entries m) k j v

  pub get-put_self : (k : String) (v : V) (m : GoMap V) → get k (put k v m) ≡ some v
  get-put_self k v m = ground (arith, get-put k k v m, eq_refl k)

  pub get-put_ne : (k j : String) (v : V) (m : GoMap V) → k ≢ j → get j (put k v m) ≡ get j m
  get-put_ne k j v m h = ground (arith, get-put k j v m, eq_iff k j)

  -- What is found stands in a map that is not empty.
  pub is_empty-get : (k : String) (m : GoMap V) {v : V} → get k m ≡ some v → is_empty m ≡ false
  unfolding get
  is_empty-get k unmade h = cc
  is_empty-get k (made []) h = cc
  is_empty-get k (made (e ∷ m)) h = refl

  pub GoMap-cases : (m : GoMap V) → (m ≡ unmade) ⊎ ((es : List (String × V)) × (m ≡ made es))
  GoMap-cases unmade = inl refl
  GoMap-cases (made es) = inr (es, refl)
