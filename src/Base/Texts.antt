-- ===== src/Base/Texts.antt =====
-- What the code uses of Go's `strings` on top of paths: HasPrefix, Contains, and the index of a text.
use Prim.Native.Nat.{ℕ, zero, suc}
use Prim.Native.String.{String}
use mathlib.Core.Bool.{Bool, true, false, ◌&&◌, ◌||◌}
use mathlib.Core.Path.{◌≡◌, refl}
use airshipctl.Base.Tests.{◌==◌}
use airshipctl.Base.Paths.{text_of}

-- `strings.HasPrefix(s, prefix)`
unfoldable pub has_prefix : String → String → Bool
has_prefix s String.[] = true
has_prefix String.[] (String.◌∷◌ d prefix) = false
has_prefix (String.◌∷◌ c s) (String.◌∷◌ d prefix) = (text_of c == text_of d) && has_prefix s prefix

-- `strings.Contains(s, part)`
unfoldable pub contains : String → String → Bool
unfolding has_prefix
contains String.[] part = has_prefix "" part
contains (String.◌∷◌ c s) part = has_prefix (String.◌∷◌ c s) part || contains s part

-- `s[n:]`, of a text of ASCII characters that has so many
unfoldable pub drop_chars : ℕ → String → String
drop_chars zero s = s
drop_chars (suc n) String.[] = ""
drop_chars (suc n) (String.◌∷◌ c s) = drop_chars n s

contains_example : contains "no field named 'a'" "field" ≡ true
unfolding contains
contains_example = refl

contains_other : contains "no such field" "no field" ≡ false
unfolding contains
contains_other = refl
