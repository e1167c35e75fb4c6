-- ===== src/Clusters/Chains.antt =====
-- The inner loop of ValidateClusterMap ends: its rounds visit new clusters until there is none left.
use airshipctl.Base.{
  ℕ, zero, suc, ◌≤◌, ◌<◌, ◌==◌, String, length, true, false, Outcome-cases, Option-cases, Option,
  none, some, List, [], ◌∷◌, ◌++◌, if◌then◌else◌, ◌≡◌, ◌≢◌, refl, inl, inr, arith, eq_iff,
}
use airshipctl.Base.GoMap.{get, entries, value_at}
use airshipctl.Clusters.{
  Cluster, ClusterMap, is_among, parent_of, follow_chain, rounds_for, validate_clusters,
  validate_cluster_map, all_clusters,
}

-- The number of entries whose names are not among the parents.
unfoldable pub unvisited : List String → List (String × Option Cluster) → ℕ
unvisited parents [] = 0
unvisited parents (e ∷ es) =
    let rest = unvisited parents es in if is_among e.0 parents then rest else suc rest

pub is_among_append :
    (name p : String) (ps : List String)
    → is_among name (ps ++ (p ∷ [])) ≡ (if p == name then true else is_among name ps)
unfolding is_among
is_among_append name p [] = refl
is_among_append name p (q ∷ ps) = ground (arith, is_among_append name p ps)

unvisited_le :
    (p : String) (ps : List String) (es : List (String × Option Cluster))
    → unvisited (ps ++ (p ∷ [])) es ≤ unvisited ps es
unfolding unvisited
unvisited_le p ps [] = omega arith
unvisited_le p ps (e ∷ es) = ground (arith, unvisited_le p ps es, is_among_append e.0 p ps)

-- To visit a cluster that is in the map and was not visited leaves fewer.
unvisited_lt :
    (p : String) (ps : List String) (es : List (String × Option Cluster)) (ptr : Option Cluster)
    → value_at es p ≡ some ptr
    → is_among p ps ≡ false
    → unvisited (ps ++ (p ∷ [])) es < unvisited ps es
unfolding unvisited value_at
unvisited_lt p ps [] ptr h k = cc
unvisited_lt p ps (e ∷ es) ptr h k = ground (
  arith,
  unvisited_le p ps es,
  unvisited_lt p ps es ptr,
  is_among_append e.0 p ps,
  eq_iff e.0 p,
  eq_iff p e.0,
)

pub unvisited_none : (es : List (String × Option Cluster)) → unvisited [] es ≡ length es
unfolding unvisited is_among
unvisited_none [] = refl
unvisited_none (e ∷ es) = ground (arith, unvisited_none es)

missing_ends :
    (m : ClusterMap) (child current : String) (n : ℕ) (ps : List String)
    → get current m ≡ none
    → 0 < n
    → follow_chain m child n ps current ≢ none
unfolding follow_chain
missing_ends m child current zero ps h l = absurd (omega arith)
missing_ends m child current (suc n) ps h l = ground arith

pub follow_chain_ends :
    (m : ClusterMap) (child current : String) (n : ℕ) (ps : List String)
    → suc (unvisited ps (entries m)) < n
    → follow_chain m child n ps current ≢ none
unfolding follow_chain
follow_chain_ends m child current zero ps l = absurd (omega arith)
follow_chain_ends m child current (suc n) ps l = elim (Outcome-cases (parent_of current m)) [
  | inr (inl (x, e)) ↦ ground arith
  | inr (inr (k, e)) ↦ ground arith
  | inl (parent, e) ↦
      let ps' = ps ++ (parent ∷ []) in
      elim (Option-cases (get parent m)) [
        | inl g ↦ ground (arith, missing_ends m child parent n ps' g)
        | inr (ptr, g) ↦
            let less = unvisited_lt parent ps (entries m) ptr (unfold get in g) in
            ground (arith, less, follow_chain_ends m child parent n ps')
      ]
]

validate_clusters_ends : (m : ClusterMap) (names : List String) → validate_clusters m names ≢ none
unfolding validate_clusters
validate_clusters_ends m [] = λ h. cc
validate_clusters_ends m (name ∷ names) = ground (
  arith,
  follow_chain_ends m name name (rounds_for m) [],
  unvisited_none (entries m),
  validate_clusters_ends m names,
)

-- ValidateClusterMap ends on every map, however its parents are linked: no chain takes more rounds
-- than there are clusters, and two.
pub validate_cluster_map_ends : (m : ClusterMap) → validate_cluster_map m ≢ none
unfolding validate_cluster_map
validate_cluster_map_ends m = validate_clusters_ends m (all_clusters m)
