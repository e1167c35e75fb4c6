-- ===== src/Base/Sorting.antt =====
-- `sort.Strings`: the byte order of texts, which for UTF-8 is that of the code points, and a sort by
-- it. The order is total, so what the sort returns does not depend on the order of its input.
use Prim.Native.Char.{code}
use Prim.Native.String.{String}
use mathlib.Core.Path.{◌≡◌, refl, ap₂, ◌∙◌}
use mathlib.Core.Logic.{◌⊎◌, inl, inr, ∥∥₁_elim}
use mathlib.Core.Bool.{Bool, true, false}
use mathlib.Core.List.{List, [], ◌∷◌, Perm, Permᴰ}
use native.Mathlib.Omega.{arith}
use text.Mathlib.TextEquality.{Char-path, IsScalar-prop}
use airshipctl.Base.Tests.{ltb, if◌then◌else◌}

unfoldable pub str_leb : String → String → Bool
str_leb String.[] t = true
str_leb (String.◌∷◌ c s) String.[] = false
str_leb (String.◌∷◌ c s) (String.◌∷◌ d t) =
    let rest = str_leb s t in
    if ltb (code c) (code d) then true else if ltb (code d) (code c) then false else rest

str_leb_total : (s t : String) → (str_leb s t ≡ true) ⊎ (str_leb t s ≡ true)
unfolding str_leb
str_leb_total String.[] t = inl refl
str_leb_total (String.◌∷◌ c s) String.[] = inr refl
str_leb_total (String.◌∷◌ c s) (String.◌∷◌ d t) = ground (arith, str_leb_total s t)

str_leb_antisymm : (s t : String) → str_leb s t ≡ true → str_leb t s ≡ true → s ≡ t
unfolding str_leb
str_leb_antisymm String.[] String.[] h k = refl
str_leb_antisymm String.[] (String.◌∷◌ d t) h k = cc
str_leb_antisymm (String.◌∷◌ c s) String.[] h k = cc
str_leb_antisymm (String.◌∷◌ c s) (String.◌∷◌ d t) h k =
    ap₂ String.◌∷◌ (Char-path c d (ground arith))
      (str_leb_antisymm s t (ground arith) (ground arith))

str_leb_trans : (s t u : String) → str_leb s t ≡ true → str_leb t u ≡ true → str_leb s u ≡ true
unfolding str_leb
str_leb_trans String.[] t u h k = refl
str_leb_trans (String.◌∷◌ c s) String.[] u h k = cc
str_leb_trans (String.◌∷◌ c s) (String.◌∷◌ d t) String.[] h k = cc
str_leb_trans (String.◌∷◌ c s) (String.◌∷◌ d t) (String.◌∷◌ e u) h k =
    ground (arith, str_leb_trans s t u)

insert : String → List String → List String
insert a [] = a ∷ []
insert a (b ∷ l) = if str_leb a b then a ∷ b ∷ l else b ∷ insert a l

unfoldable pub sort_strings : List String → List String
unfolding insert str_leb
sort_strings [] = []
sort_strings (a ∷ l) = insert a (sort_strings l)

insert_comm : (a b : String) (l : List String) → insert a (insert b l) ≡ insert b (insert a l)
unfolding insert
insert_comm a b [] = ground (arith, str_leb_total a b, str_leb_antisymm a b)
insert_comm a b (x ∷ l) = ground (
  arith,
  str_leb_total a b,
  str_leb_antisymm a b,
  str_leb_trans a b x,
  str_leb_trans b a x,
  str_leb_total a x,
  str_leb_total b x,
  insert_comm a b l,
)

sort-Permᴰ : {xs ys : List String} → Permᴰ xs ys → sort_strings xs ≡ sort_strings ys
unfolding sort_strings
sort-Permᴰ Permᴰ.nil = refl
sort-Permᴰ (Permᴰ.cons e p) = ap₂ insert e (sort-Permᴰ p)
sort-Permᴰ (Permᴰ.swap {a} {b} {a' = c} {b' = d} {l} e f) =
    rw (e, f) (insert_comm d c (sort_strings l))
sort-Permᴰ (Permᴰ.trans p q) = sort-Permᴰ p ∙ sort-Permᴰ q

strings_set : IsSet (List String)
strings_set = hlevel IsScalar-prop

-- Two lists with the same members, as often, are sorted to the same list.
pub sort_strings-perm : {xs ys : List String} → Perm xs ys → sort_strings xs ≡ sort_strings ys
sort_strings-perm p = ∥∥₁_elim p (strings_set _ _) sort-Permᴰ
