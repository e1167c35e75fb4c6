-- ===== src/Executors/Providers.antt =====
-- clusterctl.go, initRepoData: the components of the providers that are directories of the site.
use airshipctl.Base.{
  String, ◌<>◌, ◌==◌, is_set, ◌||◌, List, [], ◌∷◌, if◌then◌else◌, ok, ◌>>=◌ as bind_outcome,
}
use airshipctl.Base.GoMap.{GoMap, put}
use airshipctl.Base.Paths.{join, base, is_rooted}
use airshipctl.Documents.Selectors.{new_clusterctl_metadata_selector, new_deploy_to_k8s_selector}
use airshipctl.Documents.Library.{Kustomize, library}
use airshipctl.Documents.Bundles.{new_bundle_by_path, select_one, select_bundle, write_bundle}
use airshipctl.Executors.{document_error, library_error, Reply, of, Provider, Surroundings}

-- typeMap, which has "" for any other type
abbrev pub type_map : String → String
type_map type =
    if type == "BootstrapProvider"
    then "bootstrap"
    else if type == "ControlPlaneProvider"
    then "control-plane"
    else if type == "InfrastructureProvider"
    then "infrastructure"
    else if type == "CoreProvider"
    then "core"
    else ""

abbrev cluster_api_overrides : String
cluster_api_overrides = "/workdir/.cluster-api/overrides"

-- The directory of the components of a provider.
unfoldable pub component_dir : Provider → String
unfolding join base
component_dir prv =
    if prv.type == "CoreProvider"
    then join (cluster_api_overrides ∷ prv.name ∷ base prv.url ∷ [])
    else join (cluster_api_overrides ∷ (type_map prv.type <> ("-" <> prv.name)) ∷ base prv.url ∷ [])

abbrev pub components_path : Provider → String
components_path prv = join (component_dir prv ∷ (type_map prv.type <> "-components.yaml") ∷ [])

module _ (K : Kustomize) (X : Surroundings K) where
  -- The components of a provider that is a directory below the target path.
  unfoldable pub local_components :
      String → Provider → GoMap String → Reply (Provider × GoMap String)
  unfolding join
  local_components target_path prv components =
      bind_outcome
        (of document_error (new_bundle_by_path K X.disk (join (target_path ∷ prv.url ∷ []))))
        (λ bundle.
          bind_outcome (of document_error (select_one K new_clusterctl_metadata_selector bundle))
            (λ doc. bind_outcome (of document_error (library (K.as_yaml doc))) (λ metadata.
              bind_outcome (of document_error (select_bundle K new_deploy_to_k8s_selector bundle))
                (λ filtered. bind_outcome (of document_error (write_bundle K filtered)) (λ text.
                  ok (
                    record prv { url = components_path prv },
                    put (components_path prv) text
                        (put (join (component_dir prv ∷ "metadata.yaml" ∷ [])) metadata components),
                  ))))))

  -- A provider with a scheme, or an absolute path, is left as it is.
  unfoldable pub init_provider : String → Provider → GoMap String → Reply (Provider × GoMap String)
  unfolding local_components
  init_provider target_path prv components =
      bind_outcome (of library_error (X.scheme_of prv.url)) (λ scheme.
        if is_set scheme || is_rooted prv.url
        then ok (prv, components)
        else local_components target_path prv components)

  -- initRepoData
  unfoldable pub init_repo_data :
      String → List Provider → GoMap String → Reply (List Provider × GoMap String)
  unfolding init_provider
  init_repo_data target_path [] components = ok ([], components)
  init_repo_data target_path (prv ∷ prvs) components =
      bind_outcome (init_provider target_path prv components) (λ (prv', components').
        bind_outcome (init_repo_data target_path prvs components')
          (λ (prvs', components''). ok (prv' ∷ prvs', components'')))
