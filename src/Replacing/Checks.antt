-- ===== src/Replacing/Checks.antt =====
-- What New accepts, and what it leaves to Filter.
use airshipctl.Base.{
  String, Option, none, some, List, [], ◌∷◌, All, Outcome-cases, Option-cases, ok, crash,
  nil_pointer, ◌≡◌, ◌↔◌, inl, inr, refl, arith,
}
use airshipctl.Replacing.{
  Target, ReplSource, ReplTarget, Replacement, Documents, Node, check_source, check_replacement,
  new_plugin, get_value, apply_replacement,
}

-- One of two pointers is given, and the other is nil.
pub data OneGiven {A B : Type 0} : Option A → Option B → Type 0 where
  the_first : {a : A} → OneGiven (some a) none
  the_second : {b : B} → OneGiven none (some b)

-- There is a source, with an object or a value, and there is a target or a list of them.
abbrev pub WellFormed : Replacement → Type 0
WellFormed r =
    (s : ReplSource) × (r.source ≡ some s)
    × OneGiven r.target r.targets
    × OneGiven s.obj_ref s.value

check_parts :
    (r : Replacement) (s : ReplSource) (t : Option ReplTarget) (ts : Option (List ReplTarget))
    (o : Option Target) (v : Option String)
    → (check_source (record r { target = t; targets = ts }) (record s { obj_ref = o; value = v })
        ≡ ok tt)
      ↔ (OneGiven t ts × OneGiven o v)
check_parts r s none none o v = (λ h. cc, λ (g, _). elim g [ ])
check_parts r s (some t) (some ts) o v = (λ h. cc, λ (g, _). elim g [ ])
check_parts r s (some t) none (some o) (some v) = (λ h. cc, λ (_, g). elim g [ ])
check_parts r s (some t) none none none = (λ h. cc, λ (_, g). elim g [ ])
check_parts r s (some t) none (some o) none = (λ h. (the_first, the_first), λ h. refl)
check_parts r s (some t) none none (some v) = (λ h. (the_first, the_second), λ h. refl)
check_parts r s none (some ts) (some o) (some v) = (λ h. cc, λ (_, g). elim g [ ])
check_parts r s none (some ts) none none = (λ h. cc, λ (_, g). elim g [ ])
check_parts r s none (some ts) (some o) none = (λ h. (the_second, the_first), λ h. refl)
check_parts r s none (some ts) none (some v) = (λ h. (the_second, the_second), λ h. refl)

check_replacement-WellFormed : (r : Replacement) → (check_replacement r ≡ ok tt) ↔ WellFormed r
unfolding check_replacement
check_replacement-WellFormed r = elim (Option-cases r.source) [
  | inl e ↦ (λ h. absurd (ground arith), λ (s, f, _, _). absurd (ground arith))
  | inr (s, e) ↦
      let (there, back) = check_parts r s r.target r.targets s.obj_ref s.value in
      (
        λ h. let (t, o) = there (rw e at h) in (s, e, t, o),
        λ (s', f, t, o). let same : s' ≡ s = ground arith in rw e (back (t, rw same at o)),
      )
]

-- New accepts a list of replacements exactly if each of them has a source, with an object or a value and
-- not both, and a target or a list of targets and not both; and it gives them back as they are.
pub new_plugin-eq-ok :
    (rs rs' : List Replacement) → (new_plugin rs ≡ ok rs') ↔ (All WellFormed rs × (rs' ≡ rs))
unfolding new_plugin
new_plugin-eq-ok [] rs' = (λ h. (tt, ground arith), λ (_, e). ground arith)
new_plugin-eq-ok (r ∷ rs) rs' =
    let (there, back) = check_replacement-WellFormed r in
    elim (Outcome-cases (check_replacement r)) [
      | inr (inl (x, e)) ↦
          (λ h. absurd (ground arith), λ ((w, _), _). absurd (let f = back w in ground arith))
      | inr (inr (k, e)) ↦
          (λ h. absurd (ground arith), λ ((w, _), _). absurd (let f = back w in ground arith))
      | inl (u, e) ↦ (
        λ h. elim (Outcome-cases (new_plugin rs)) [
          | inl (more, f) ↦
              let (ws, same) = (new_plugin-eq-ok rs more).0 f in ((there e, ws), ground arith)
          | inr (inl (x, f)) ↦ absurd (ground arith)
          | inr (inr (k, f)) ↦ absurd (ground arith)
        ],
        λ ((w, ws), same). let f = (new_plugin-eq-ok rs rs).1 (ws, refl) in ground arith,
      )
    ]

-- New does not look into the targets: one that names no object makes Filter panic, once the value is found.
pub apply_replacement_panics :
    (D : Documents) (r : Replacement) (s : ReplSource) (t : ReplTarget) (v : Option (Node D.Other))
    (items : D.Items)
    → r.source ≡ some s
    → r.target ≡ some t
    → r.targets ≡ none
    → t.obj_ref ≡ none
    → get_value D s items ≡ ok v
    → apply_replacement D r items ≡ crash nil_pointer
unfolding apply_replacement
apply_replacement_panics D r s t v items e f g h i = ground arith
