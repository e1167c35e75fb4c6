-- ===== src/Tests/Chains.antt =====
-- ValidateClusterMap on a chain of three clusters and on a cycle.
use airshipctl.Base.{String, Option, none, some, [], ◌∷◌, All, ◌≢◌, refl}
use airshipctl.Base.GoMap.{made, get}
use airshipctl.Clusters.{Cluster, ClusterMap, validate_cluster_map, all_clusters}
use airshipctl.Clusters.Chains.{validate_cluster_map_ends}
use airshipctl.Clusters.Roots.{IsRooted, validate_cluster_map-eq-ok}

abbrev under : String → Option Cluster
under parent = some (record { parent = parent; sources = [] })

abbrev chain : ClusterMap
chain =
    made
      (("workload", under "target") ∷ ("target", under "ephemeral") ∷ ("ephemeral", under "") ∷ [])

abbrev cycle : ClusterMap
cycle = made (("workload", under "target") ∷ ("target", under "workload") ∷ [])

validate_cluster_map_ends_example : validate_cluster_map cycle ≢ none
validate_cluster_map_ends_example = validate_cluster_map_ends cycle

validate_cluster_map-eq-ok_example : All (IsRooted chain) (all_clusters chain)
unfolding validate_cluster_map get
validate_cluster_map-eq-ok_example = (validate_cluster_map-eq-ok chain).0 refl
