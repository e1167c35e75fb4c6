-- ===== src/Clusters/Listing.antt =====
-- Write of pkg/cluster/clustermap/map.go. `stdout` writes to os.Stdout, `out` to the writer that is
-- given, and `align` is what text/tabwriter makes of the lines before it hands them on at the end.
use airshipctl.Base.{
  String, ◌<>◌, ◌==◌, Option, List, [], ◌∷◌, if◌then◌else◌, ok, err, crash, Proc, deref,
  ◌>>=◌ as bind_outcome,
}
use airshipctl.Base.Procs.{◌>>◌, pure}
use airshipctl.Base.GoMap.{entries}
use airshipctl.Clusters.{
  Cluster, ClusterMap, ClusterError, Reply, cluster_kubeconfig_context, all_clusters,
}

abbrev table_header : String
table_header = "NAME\tKUBECONFIG CONTEXT\tPARENT CLUSTER\n"

-- The row of one entry of the map.
unfoldable table_row : ClusterMap → String → Option Cluster → Reply String
unfolding cluster_kubeconfig_context
table_row m name ptr = bind_outcome (cluster_kubeconfig_context name m) (λ kubeconfig.
    bind_outcome (deref ptr)
      (λ cluster. ok (name <> ("\t" <> (kubeconfig <> ("\t" <> (cluster.parent <> "\n")))))))

unfoldable table_rows : ClusterMap → List (String × Option Cluster) → String → Reply String
unfolding table_row
table_rows m [] text = ok text
table_rows m (e ∷ es) text = elim (table_row m e.0 e.1) [
  | ok row ↦ table_rows m es (text <> row)
  | err x ↦ err x
  | crash k ↦ crash k
]

module _ {W : Type 0} (stdout out : String → Proc W ClusterError Unit)
    (align : String → String) where
  unfoldable write_names : List String → Proc W ClusterError Unit
  write_names [] = pure tt
  write_names (name ∷ names) = out (name <> "\n") >> write_names names

  -- An error of os.Stdout is not looked at.
  unfoldable write_table : ClusterMap → Proc W ClusterError Unit
  unfolding table_rows
  write_table m w = elim (table_rows m (entries m) table_header) [
    | ok text ↦ (ok tt, (stdout (align text) w).1)
    | err x ↦ (err x, w)
    | crash k ↦ (crash k, w)
  ]

  unfoldable pub write_clusters : String → ClusterMap → Proc W ClusterError Unit
  unfolding write_names write_table
  write_clusters format m =
      if format == "table"
      then write_table m
      else if format == "name"
      then write_names (all_clusters m)
      else pure tt
