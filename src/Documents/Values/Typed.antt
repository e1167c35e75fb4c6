-- ===== src/Documents/Values/Typed.antt =====
-- The getters of a document give what is there, of the wanted type, and labels and annotations keep
-- what is not given anew.
use airshipctl.Base.{
  String, Option, none, some, List, [], ◌∷◌, ok, Outcome-cases, All, ◌≡◌, ◌≢◌, ◌↔◌, inl, inr, refl,
  subst, arith, eq_iff,
}
use airshipctl.Base.GoMap.{GoMap, made, unmade, get, put, entries, value_at, get-put}
use airshipctl.Documents.Library.{
  nil, text, truth, int, int64, float64, slice, mapping, Fields, done, field, Kustomize,
  IsResourceMap,
}
use airshipctl.Documents.Values.{
  or_made, get_field_value, get_string_map, get_map, string_map_of, annotate, overridden,
}

-- The texts under the keys of a mapping, later ones over earlier ones, on top of a map; every value is
-- a text.
pub data Texts : Fields → GoMap String → GoMap String → Type 0 where
  none_left : {m : GoMap String} → Texts done m m
  one_more :
      {k s : String} {fs : Fields} {m m' : GoMap String}
      → Texts fs (put k s m) m'
      → Texts (field k (text s) fs) m m'

string_map_of-Texts :
    (path : String) (fs : Fields) (m m' : GoMap String)
    → string_map_of path fs m ≡ ok m'
    → Texts fs m m'
unfolding string_map_of
string_map_of-Texts path done m m' h =
    let e : m ≡ m' = cc in subst (λ n. Texts done m n) e none_left
string_map_of-Texts path (field k (text s) fs) m m' h =
    one_more (string_map_of-Texts path fs (put k s m) m' h)
string_map_of-Texts path (field k _ fs) m m' h = cc

Texts-string_map_of :
    (path : String) (fs : Fields) (m m' : GoMap String)
    → Texts fs m m'
    → string_map_of path fs m ≡ ok m'
unfolding string_map_of
Texts-string_map_of path _ m _ none_left = refl
Texts-string_map_of path _ m m' (one_more t) = Texts-string_map_of path _ _ m' t

module _ (K : Kustomize) where
  open K use {Resource}

  -- GetStringMap succeeds exactly on a mapping of texts, and gives the text under each of its keys.
  pub get_string_map-eq-ok :
      (path : String) (d : Resource) (m : GoMap String)
      → (get_string_map K path d ≡ ok m)
        ↔ ((fs : Fields) × (K.get_field_value path d ≡ ok (mapping fs)) × Texts fs (made []) m)
  unfolding get_string_map get_map get_field_value
  get_string_map-eq-ok path d m = (
    λ h. elim (Outcome-cases (K.get_field_value path d)) [
      | inl (mapping fs, e) ↦ (fs, e, string_map_of-Texts path fs (made []) m (rw e at h))
      | inl (nil, e) ↦ absurd (ground arith)
      | inl (text _, e) ↦ absurd (ground arith)
      | inl (truth _, e) ↦ absurd (ground arith)
      | inl (int _, e) ↦ absurd (ground arith)
      | inl (int64 _, e) ↦ absurd (ground arith)
      | inl (float64 _, e) ↦ absurd (ground arith)
      | inl (slice _, e) ↦ absurd (ground arith)
      | inr (inl (x, e)) ↦ absurd (ground arith)
      | inr (inr (k, e)) ↦ absurd (ground arith)
    ],
    λ (fs, e, t). rw e (Texts-string_map_of path fs (made []) m t),
  )

  -- The first of two that is there.
  abbrev pub first_of : Option String → Option String → Option String
  first_of (some v) other = some v
  first_of none other = other

  -- No key stands twice.
  abbrev pub KeysDiffer : List (String × String) → Type 0
  KeysDiffer [] = Unit {0}
  KeysDiffer ((k, v) ∷ es) = All (λ (e : String × String). e.0 ≢ k) es × KeysDiffer es

  value_at_absent :
      (k : String) (es : List (String × String))
      → All (λ (e : String × String). e.0 ≢ k) es
      → value_at es k ≡ none
  unfolding value_at
  value_at_absent k [] h = refl
  value_at_absent k (e ∷ es) (h, hs) = ground (arith, eq_iff e.0 k, value_at_absent k es hs)

  get-overridden :
      (es : List (String × String)) (m : GoMap String) (j : String)
      → KeysDiffer es
      → get j (overridden K es m) ≡ first_of (value_at es j) (get j m)
  unfolding overridden value_at
  get-overridden [] m j h = refl
  get-overridden ((k, v) ∷ es) m j (h, hs) = ground (
    arith,
    get-overridden es (put k v m) j hs,
    get-put k j v m,
    eq_iff k j,
    value_at_absent k es h,
  )

  get-or_made : (m : GoMap String) (j : String) → get j (or_made K m) ≡ get j m
  unfolding get
  get-or_made unmade j = refl
  get-or_made (made es) j = refl

  -- Annotate sets each new annotation and keeps each other one that the document had; the walk over
  -- the new ones may take any order.
  pub annotate_lem :
      (laws : IsResourceMap K) (new : GoMap String) (d d' : Resource) (j : String)
      → KeysDiffer (entries new)
      → annotate K new d ≡ ok d'
      → get j (K.annotations d') ≡ first_of (get j new) (get j (K.annotations d))
  unfolding annotate get
  annotate_lem laws new d d' j distinct h =
      let m = overridden K (entries new) (or_made K (K.annotations d)) in
      elim (Outcome-cases (K.set_annotations m d)) [
        | inl (r, e) ↦ ground (
          arith,
          laws.annotations-set m d r e,
          get-overridden (entries new) (or_made K (K.annotations d)) j distinct,
          get-or_made (K.annotations d) j,
        )
        | inr (inl (x, e)) ↦ absurd (ground arith)
        | inr (inr (k, e)) ↦ absurd (ground arith)
      ]
