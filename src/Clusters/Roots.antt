-- ===== src/Clusters/Roots.antt =====
-- What ValidateClusterMap accepts: the maps in which every chain of parents reaches a cluster without
-- a parent.
use airshipctl.Base.{
  ℕ, zero, suc, ◌≤◌, ◌==◌, String, All, true, false, Bool-cases, Option-cases, none, some, List, [],
  ◌∷◌, ◌++◌, ok, err, crash, nil_pointer, ◌≡◌, ◌≢◌, ◌↔◌, refl, sym, ap, subst, ◌∙◌, inl, inr, arith,
  eq_iff,
}
use airshipctl.Base.GoMap.{get, entries}
use airshipctl.Clusters.{
  Cluster, ClusterError, circular_dependency, ClusterMap, is_among, follow_chain, rounds_for,
  validate_clusters, validate_cluster_map, all_clusters,
}
use airshipctl.Clusters.Chains.{is_among_append, follow_chain_ends, unvisited_none}

module _ (m : ClusterMap) where
  -- So many steps from a cluster to its parent lead to one without a parent, all in the map.
  pub data Rooted : ℕ → String → Type 0 where
    top : {name : String} (c : Cluster) → get name m ≡ some (some c) → c.parent ≡ "" → Rooted 0 name
    below :
        {d : ℕ} {name : String} (c : Cluster)
        → get name m ≡ some (some c)
        → c.parent ≢ ""
        → Rooted d c.parent
        → Rooted (suc d) name

  abbrev pub IsRooted : String → Type 0
  IsRooted name = (d : ℕ) × Rooted d name

  same_cluster :
      (name : String) (c c' : Cluster)
      → get name m ≡ some (some c)
      → get name m ≡ some (some c')
      → c.parent ≡ c'.parent
  same_cluster name c c' g g' = ground arith

  Rooted-unique : {d d' : ℕ} {name : String} → Rooted d name → Rooted d' name → d ≡ d'
  Rooted-unique (top c g e) (top c' g' e') = refl
  Rooted-unique (top c g e) (below c' g' n r) = ground (arith, same_cluster _ c c' g g')
  Rooted-unique (below c g n r) (top c' g' e') = ground (arith, same_cluster _ c c' g g')
  Rooted-unique (below c g n r) (below {d = d'} c' g' n' r') =
      ap suc (Rooted-unique r (subst (Rooted d') (sym (same_cluster _ c c' g g')) r'))

  follow-IsRooted :
      (child current : String) (n : ℕ) (ps : List String)
      → follow_chain m child n ps current ≡ some (ok tt)
      → IsRooted current
  unfolding follow_chain
  follow-IsRooted child current zero ps h = cc
  follow-IsRooted child current (suc n) ps h = elim (Option-cases (get current m)) [
    | inl e ↦ absurd (ground arith)
    | inr (none, e) ↦ absurd (ground arith)
    | inr (some c, e) ↦ elim (Bool-cases (c.parent == "")) [
      | inl k ↦ (0, top c e (ground (arith, eq_iff c.parent "")))
      | inr k ↦
          let rest = follow_chain m child n (ps ++ (c.parent ∷ [])) c.parent in
          let go : rest ≡ some (ok tt) = ground arith in
          let (d, r) = follow-IsRooted child c.parent n (ps ++ (c.parent ∷ [])) go in
          (suc d, below c e (ground (arith, eq_iff c.parent "")) r)
    ]
  ]

  -- What was visited is named, and stands no nearer to its root.
  abbrev Above : ℕ → List String → Type 0
  Above d ps = (p : String) → is_among p ps ≡ true → (p ≢ "") × ((e : ℕ) × (d ≤ e) × Rooted e p)

  Above-append :
      (d : ℕ) (ps : List String) (p : String)
      → Above (suc d) ps
      → p ≢ ""
      → Rooted d p
      → Above d (ps ++ (p ∷ []))
  Above-append d ps p above n r q h = elim (Bool-cases (p == q)) [
    | inl k ↦
        let same : p ≡ q = ground (arith, eq_iff p q) in
        (λ e. n (same ∙ e), (d, omega arith, subst (Rooted d) same r))
    | inr k ↦
        let (n', (e, l, r')) = above q (ground (arith, is_among_append q p ps)) in
        (n', (e, omega arith, r'))
  ]

  top_is_new : (d : ℕ) (ps : List String) → Above d ps → is_among "" ps ≡ false
  top_is_new d ps above = elim (Bool-cases (is_among "" ps)) [
    | inl h ↦ absurd ((above "" h).0 refl)
    | inr h ↦ h
  ]

  nearer_is_new :
      (d : ℕ) (p : String) (ps : List String)
      → Above (suc d) ps
      → Rooted d p
      → is_among p ps ≡ false
  nearer_is_new d p ps above r = elim (Bool-cases (is_among p ps)) [
    | inl h ↦
        let (n, (e, l, r')) = above p h in let same = Rooted-unique r r' in absurd (omega arith)
    | inr h ↦ h
  ]

  Rooted-follow :
      (d n : ℕ) (child current : String) (ps : List String)
      → Rooted d current
      → Above d ps
      → follow_chain m child n ps current ≢ none
      → follow_chain m child n ps current ≡ some (ok tt)
  unfolding follow_chain
  Rooted-follow d zero child current ps r above h = absurd (h refl)
  Rooted-follow zero (suc n) child current ps (top c g e) above h =
      let new = top_is_new 0 ps above in
      let at = rw (← e) at new in ground (arith, at, eq_iff c.parent "")
  Rooted-follow (suc d) (suc n) child current ps (below c g k r) above h =
      let new = nearer_is_new d c.parent ps above r in
      let ps' = ps ++ (c.parent ∷ []) in
      let later = Rooted-follow d n child c.parent ps' r (Above-append d ps c.parent above k r) in
      ground (arith, later, eq_iff c.parent "")

  validate-All :
      (names : List String) → validate_clusters m names ≡ some (ok tt) → All IsRooted names
  unfolding validate_clusters
  validate-All [] h = tt
  validate-All (name ∷ names) h = (
    follow-IsRooted name name (rounds_for m) [] (ground arith),
    validate-All names (ground arith),
  )

  nothing-Above : (d : ℕ) → Above d []
  unfolding is_among
  nothing-Above d p h = absurd (ground arith)

  first_follow :
      (d : ℕ) (name : String)
      → Rooted d name
      → follow_chain m name (rounds_for m) [] name ≡ some (ok tt)
  first_follow d name r =
      let ends =
        follow_chain_ends m name name (rounds_for m) []
          (rw (unvisited_none (entries m)) (omega arith)) in
      Rooted-follow d (rounds_for m) name name [] r (nothing-Above d) ends

  All-validate :
      (names : List String) → All IsRooted names → validate_clusters m names ≡ some (ok tt)
  unfolding validate_clusters
  All-validate [] a = refl
  All-validate (name ∷ names) ((d, r), more) =
      ground (arith, first_follow d name r, All-validate names more)

  -- ValidateClusterMap accepts a map exactly if from every cluster of it the parents lead, through
  -- clusters that are all in the map, to one without a parent.
  pub validate_cluster_map-eq-ok :
      (validate_cluster_map m ≡ some (ok tt)) ↔ All IsRooted (all_clusters m)
  unfolding validate_cluster_map
  validate_cluster_map-eq-ok = (validate-All (all_clusters m), All-validate (all_clusters m))

  follow-err :
      (child current : String) (n : ℕ) (ps : List String) (e : ClusterError)
      → follow_chain m child n ps current ≡ some (err e)
      → e ≡ circular_dependency child
  unfolding follow_chain
  follow-err child current zero ps e h = cc
  follow-err child current (suc n) ps e h = elim (Option-cases (get current m)) [
    | inl g ↦ absurd (ground arith)
    | inr (none, g) ↦ absurd (ground arith)
    | inr (some c, g) ↦
        let later = follow-err child c.parent n (ps ++ (c.parent ∷ [])) e in ground (arith, later)
  ]

  validate_clusters-err :
      (names : List String) (e : ClusterError)
      → validate_clusters m names ≡ some (err e)
      → (child : String) × (e ≡ circular_dependency child) × ¬ IsRooted child
  unfolding validate_clusters
  validate_clusters-err [] e h = absurd (ground arith)
  validate_clusters-err (name ∷ names) e h =
      let first = follow_chain m name (rounds_for m) [] name in
      elim (Option-cases first) [
        | inl g ↦ absurd (ground arith)
        | inr (ok u, g) ↦ validate_clusters-err names e (ground arith)
        | inr (crash k, g) ↦ absurd (ground arith)
        | inr (err e', g) ↦
            let same : e' ≡ e = ground arith in
            (
              name,
              sym same ∙ follow-err name name (rounds_for m) [] e' g,
              λ (d, r). absurd (ground (arith, first_follow d name r)),
            )
      ]

  -- The only error of ValidateClusterMap is that of a circular dependency, and it names a cluster
  -- whose parents lead to no root.
  pub validate_cluster_map-eq-err :
      (e : ClusterError)
      → validate_cluster_map m ≡ some (err e)
      → (child : String) × (e ≡ circular_dependency child) × ¬ IsRooted child
  unfolding validate_cluster_map
  validate_cluster_map-eq-err e h = validate_clusters-err (all_clusters m) e h

  -- A parent that is no key of the map makes the validation panic, where it comes to that cluster
  -- first.
  pub validate_clusters_panics :
      (name : String) (names : List String) (c : Cluster)
      → get name m ≡ some (some c)
      → c.parent ≢ ""
      → get c.parent m ≡ none
      → validate_clusters m (name ∷ names) ≡ some (crash nil_pointer)
  unfolding validate_clusters is_among
  validate_clusters_panics name names c g n h = ground (arith, eq_iff c.parent "")
