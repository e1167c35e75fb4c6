-- ===== src/Clusters.antt =====
-- pkg/cluster/clustermap: the map of the clusters of a site and of the parent of each.
pub mod Chains
pub mod Roots
pub mod Listing
use airshipctl.Base.{
  ℕ, zero, suc, ◌+◌, String, ◌<>◌, ◌==◌, length, Bool, true, false, Option, none, some, List, [],
  ◌∷◌, ◌++◌, if◌then◌else◌, Outcome, ok, err, crash, Proc, deref, found_or, reject_if, ◌>>=◌, ◌>>◌,
}
use airshipctl.Base.GoMap.{GoMap, get, keys, entries}

pub record KubeconfigSource : Type 0 where
  pub type : String
  pub path : String
  pub filesystem_context : String
  pub bundle_context : String
  pub name : String
  pub namespace : String
  pub timeout : String

pub record Cluster : Type 0 where
  pub parent : String
  pub sources : List KubeconfigSource

abbrev pub ClusterMap : Type 0
ClusterMap = GoMap (Option Cluster)

pub data ClusterError : Type 0 where
  parent_not_found : String → ClusterError
  cluster_not_in_map : String → ClusterError
  circular_dependency : String → ClusterError
  -- an error of the writer
  write_failed : String → ClusterError

abbrev pub Reply : Type 0 → Type 0
Reply A = Outcome ClusterError A

-- `m[name]` where the name must be there, and the cluster that the pointer leads to
unfoldable pub cluster_at : String → ClusterMap → Reply Cluster
cluster_at name m = do ptr ← found_or (get name m) (cluster_not_in_map name); deref ptr

unfoldable pub parent_cluster : String → ClusterMap → Reply String
unfolding cluster_at
parent_cluster child m = do
  cluster ← cluster_at child m
  reject_if (cluster.parent == "") (parent_not_found child)
  ok cluster.parent

-- `cm.apiMap.Map[name].Parent`, which panics for a name that is missing as for a nil pointer.
unfoldable pub parent_of : String → ClusterMap → Reply String
parent_of name m = elim (get name m) [
  | none ↦ deref none
  | some ptr ↦ deref ptr >>= λ cluster. ok cluster.parent
]

unfoldable pub is_among : String → List String → Bool
is_among name [] = false
is_among name (c ∷ cs) = let later = is_among name cs in if c == name then true else later

-- The inner loop of ValidateClusterMap for one cluster, for so many rounds; `none` where it has not
-- ended by then.
unfoldable pub follow_chain : ClusterMap → String → ℕ → List String → String → Option (Reply Unit)
unfolding parent_of is_among
follow_chain m child zero parents current = none
follow_chain m child (suc rounds) parents current = elim (parent_of current m) [
  | err e ↦ some (err e)
  | crash k ↦ some (crash k)
  | ok parent ↦
      let rest = follow_chain m child rounds (parents ++ (parent ∷ [])) parent in
      if is_among parent parents
      then some (err (circular_dependency child))
      else if parent == ""
      then some (ok tt)
      else rest
]

-- Enough rounds for every chain: one for each cluster, one that panics or ends, and the first.
abbrev pub rounds_for : ClusterMap → ℕ
rounds_for m = suc (suc (length (entries m)))

-- What follows a check: the next one if it found nothing.
and_then : Option (Reply Unit) → Option (Reply Unit) → Option (Reply Unit)
and_then (some (ok _)) next = next
and_then r next = r

unfoldable pub validate_clusters : ClusterMap → List String → Option (Reply Unit)
unfolding and_then follow_chain
validate_clusters m [] = some (ok tt)
validate_clusters m (child ∷ children) =
    and_then (follow_chain m child (rounds_for m) [] child) (validate_clusters m children)

abbrev pub all_clusters : ClusterMap → List String
all_clusters m = keys m

unfoldable pub validate_cluster_map : ClusterMap → Option (Reply Unit)
unfolding validate_clusters
validate_cluster_map m = validate_clusters m (all_clusters m)

unfoldable pub cluster_kubeconfig_context : String → ClusterMap → Reply String
cluster_kubeconfig_context cluster_name m = do
  found_or (get cluster_name m) (cluster_not_in_map cluster_name)
  ok cluster_name

unfoldable pub cluster_sources : String → ClusterMap → Reply (List KubeconfigSource)
unfolding cluster_at
cluster_sources cluster_name m = do cluster ← cluster_at cluster_name m; ok cluster.sources
