-- ===== src/Bootstrap/Inputs.antt =====
-- VerifyInputs: what it accepts, and that the help command finds its path then.
use Prim.Native.String.append
use airshipctl.Base.{
  String, ◌<>◌, ◌==◌, length, List, [], ◌∷◌, Bool-cases, Outcome-cases, ok, crash,
  index_out_of_range, ◌≡◌, ◌≢◌, ◌↔◌, ◌⊎◌, inl, inr, refl, arith, eq_iff, ap,
}
use airshipctl.Base.Paths.{split, split_from, text_of}
use airshipctl.Bootstrap.{BootConfiguration, verify_inputs, volume_of, before_colon}

-- A text without a colon is one part.
colon_found :
    (e s : String) → before_colon s ≡ crash index_out_of_range → length (split_from ":" e s) ≡ 1
unfolding before_colon split_from
colon_found e String.[] h = refl
colon_found e (String.◌∷◌ c s) h = elim (Bool-cases (text_of c == ":")) [
  | inl q ↦ absurd (ground arith)
  | inr q ↦ elim (Outcome-cases (before_colon s)) [
    | inl (t, f) ↦ absurd (ground arith)
    | inr (inl (x, f)) ↦ absurd (ground arith)
    | inr (inr (k, f)) ↦
        let more = colon_found (e <> text_of c) s (ground arith) in ground (arith, more)
  ]
]

-- The panic is the only way in which the path can be missing.
before_colon-cases :
    (s : String)
    → ((t : String) × (before_colon s ≡ ok t)) ⊎ (before_colon s ≡ crash index_out_of_range)
unfolding before_colon
before_colon-cases String.[] = inr refl
before_colon-cases (String.◌∷◌ c s) = elim (Bool-cases (text_of c == ":")) [
  | inl q ↦ inl ("", ground arith)
  | inr q ↦ elim (before_colon-cases s) [
    | inl (t, f) ↦ inl (text_of c <> t, ground arith)
    | inr f ↦ inr (ground arith)
  ]
]

colon_first : (b : String) → before_colon (":" <> b) ≡ ok ""
unfolding before_colon
colon_first b = rw (append.cons ":" "" b) refl

colon_between : (a b : String) → before_colon (a <> (":" <> b)) ≢ crash index_out_of_range
unfolding before_colon
colon_between String.[] b = rw (append.nil (":" <> b)) (λ h. ground (arith, colon_first b))
colon_between (String.◌∷◌ c s) b =
    rw (append.cons c s (":" <> b)) (elim (before_colon-cases (s <> (":" <> b))) [
      | inl (t, f) ↦
          λ h. elim (Bool-cases (text_of c == ":")) [ inl q ↦ ground arith | inr q ↦ ground arith ]
      | inr f ↦ absurd (colon_between s b f)
    ])

split_from-cons :
    (e s : String) → (first : String) × (rest : List String) × (split_from ":" e s ≡ first ∷ rest)
unfolding split_from
split_from-cons e String.[] = (e, [], refl)
split_from-cons e (String.◌∷◌ c s) = elim (Bool-cases (text_of c == ":")) [
  | inl q ↦ (e, split_from ":" "" s, ground arith)
  | inr q ↦ let (first, rest, f) = split_from-cons (e <> text_of c) s in (first, rest, ground arith)
]

split-cons : (s : String) → (first : String) × (rest : List String) × (split ":" s ≡ first ∷ rest)
unfolding split
split-cons s = split_from-cons "" s

colon_missing : (s : String) → before_colon s ≡ crash index_out_of_range → length (split ":" s) ≡ 1
unfolding split
colon_missing s h = colon_found "" s h

-- The parts of a configuration that must not be empty, and what becomes of its volume.
abbrev pub Accepts : BootConfiguration → BootConfiguration → Type 0
Accepts cfg cfg' =
    (cfg.volume ≢ "")
    × (cfg.image ≢ "")
    × (cfg.container_runtime ≢ "")
    × (cfg.config_filename ≢ "")
    × (((length (split ":" cfg.volume) ≡ 2) × (cfg' ≡ cfg))
        ⊎ ((path : String) × (split ":" cfg.volume ≡ path ∷ [])
            × (cfg' ≡ record cfg { volume = path <> (":" <> path) })))

-- What the switch on the number of parts makes of the volume.
volume_of-eq-ok :
    (parts : List String) (volume volume' : String)
    → ((first : String) × (rest : List String) × (parts ≡ first ∷ rest))
    → (volume_of parts volume ≡ ok volume') ↔ (
        ((length parts ≡ 2) × (volume' ≡ volume))
        ⊎ ((path : String) × (parts ≡ path ∷ []) × (volume' ≡ path <> (":" <> path))))
volume_of-eq-ok [] volume volume' (first, rest, h) = ground arith
volume_of-eq-ok (path ∷ []) volume volume' p = (
  λ h. inr (path, refl, ground arith),
  λ q. elim q [ inl (l, _) ↦ absurd (omega arith) | inr (path', e, f) ↦ ground arith ],
)
volume_of-eq-ok (path ∷ inside ∷ []) volume volume' p = (
  λ h. inl (refl, ground arith),
  λ q. elim q [ inl (_, e) ↦ ground arith | inr (path', e, f) ↦ absurd (ground arith) ],
)
volume_of-eq-ok (path ∷ inside ∷ other ∷ rest) volume volume' p = (
  λ h. absurd (ground arith),
  λ q. elim q [ inl (l, _) ↦ absurd (omega arith) | inr (path', e, f) ↦ absurd (ground arith) ],
)

-- VerifyInputs accepts exactly a configuration that has a volume of at most two parts, an image, a
-- runtime and a configuration file. It changes the volume alone: one part is mounted under its own path.
pub verify_inputs-eq-ok :
    (cfg cfg' : BootConfiguration) → (verify_inputs cfg ≡ (ok tt, cfg')) ↔ Accepts cfg cfg'
unfolding verify_inputs
verify_inputs-eq-ok cfg cfg' =
    let parts = split ":" cfg.volume in
    let some_parts = split-cons cfg.volume in
    (
      λ h. elim (Outcome-cases (volume_of parts cfg.volume)) [
        | inr (inl (x, e)) ↦ absurd (ground arith)
        | inr (inr (k, e)) ↦ absurd (ground arith)
        | inl (v, e) ↦
            let q = (volume_of-eq-ok parts cfg.volume v some_parts).0 e in
            (
              ground (arith, eq_iff cfg.volume ""),
              ground (arith, eq_iff cfg.image ""),
              ground (arith, eq_iff cfg.container_runtime ""),
              ground (arith, eq_iff cfg.config_filename ""),
              elim q [
                | inl (l, f) ↦ inl (l, ground arith)
                | inr (path, p, f) ↦ inr (path, p, ground arith)
              ],
            )
      ],
      λ (a, b, c, d, q). elim q [
        | inl (l, f) ↦
            let v = (volume_of-eq-ok parts cfg.volume cfg.volume some_parts).1 (inl (l, refl)) in
            ground (
              arith,
              eq_iff cfg.volume "",
              eq_iff cfg.image "",
              eq_iff cfg.container_runtime "",
              eq_iff cfg.config_filename "",
            )
        | inr (path, p, f) ↦
            let v =
              (volume_of-eq-ok parts cfg.volume (path <> (":" <> path)) some_parts).1
                (inr (path, p, refl)) in
            ground (
              arith,
              eq_iff cfg.volume "",
              eq_iff cfg.image "",
              eq_iff cfg.container_runtime "",
              eq_iff cfg.config_filename "",
            )
      ],
    )

-- After VerifyInputs returned no error, the path of the help file is there: the slice of the volume up
-- to its colon cannot panic.
pub verify_inputs-before_colon :
    (cfg cfg' : BootConfiguration)
    → verify_inputs cfg ≡ (ok tt, cfg')
    → (path : String) × (before_colon cfg'.volume ≡ ok path)
verify_inputs-before_colon cfg cfg' h = elim (before_colon-cases cfg'.volume) [
  | inl found ↦ found
  | inr missing ↦ elim (((verify_inputs-eq-ok cfg cfg').0 h).4) [
    | inl (two, same) ↦
        let e : cfg'.volume ≡ cfg.volume = ap (λ c. c.volume) same in
        let one = colon_missing cfg'.volume missing in absurd (omega (arith, rw e at one))
    | inr (path, p, e) ↦ absurd (colon_between path path (rw e at missing))
  ]
]
