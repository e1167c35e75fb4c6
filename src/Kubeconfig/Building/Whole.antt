-- ===== src/Kubeconfig/Building/Whole.antt =====
-- The kubeconfig that is built for all the clusters that are wanted.
use airshipctl.Base.{ℕ, String, Bool, some, err, ◌≡◌}
use airshipctl.Clusters.{ClusterMap}
use airshipctl.Kubeconfig.Merging.{all_sources_failed, ClientCmd, Reply}
use airshipctl.Kubeconfig.Files.{Access}
use airshipctl.Kubeconfig.Building.{Builder, Build, build_one, built_one}

module _ (C : ClientCmd) (A : Access C) (m : ClusterMap) (from_bundle : Reply String) where
  -- What a turn of the loop makes of the call for one cluster.
  abbrev turn : ℕ → Bool → String → Build C A m from_bundle Unit
  turn n only_one id b = built_one C A m from_bundle only_one (build_one C A m from_bundle n id b)

  -- All the sources of the cluster failed in its turn.
  abbrev pub Failed : ℕ → String → Type 0
  Failed n id =
      (b : Builder C A m from_bundle) × (b' : Builder C A m from_bundle) × (name : String)
      × (build_one C A m from_bundle n id b ≡ some (err (all_sources_failed name), b'))
