-- ===== src/Documents/Selectors.antt =====
-- selectors.go, errors.go and constants.go: the selectors and the errors of pkg/document.
use airshipctl.Base.{
  String, ◌<>◌, is_set, List, [], ◌∷◌, ◌++◌, if◌then◌else◌, Outcome, ok, err, ◌>>=◌, ◌≡◌, refl,
}
use airshipctl.Base.Paths.{join_with}
use airshipctl.Phases.Types.{Gvk, ObjectReference}

pub record Selector : Type 0 where
  pub group : String
  pub version : String
  pub kind : String
  pub name : String
  pub namespace : String
  pub annotation_selector : String
  pub label_selector : String

pub data DocumentError : Type 0 where
  doc_not_found multi_docs_found : Selector → DocumentError
  document_data_key_not_found document_malformed : String → String → DocumentError
  runtime_object_kind : DocumentError
  bad_value_format : String → String → String → DocumentError
  -- an error of kustomize, of a file system, of YAML or of base64
  library_failed : String → DocumentError

abbrev pub Reply : Type 0 → Type 0
Reply A = Outcome DocumentError A

abbrev pub secret_kind : String
secret_kind = "Secret"

abbrev pub bare_metal_host_kind : String
bare_metal_host_kind = "BareMetalHost"

abbrev pub ephemeral_host_selector : String
ephemeral_host_selector = "airshipit.org/ephemeral-node in (True, true)"

abbrev pub ephemeral_user_data_selector : String
ephemeral_user_data_selector = "airshipit.org/ephemeral-user-data in (True, true)"

abbrev pub deploy_to_k8s_selector : String
deploy_to_k8s_selector = "airshipit.org/deploy-k8s notin (False, false)"

abbrev pub kustomization_file : String
kustomization_file = "kustomization.yaml"

abbrev pub new_selector : Selector
new_selector = record {
  group = "";
  version = "";
  kind = "";
  name = "";
  namespace = "";
  annotation_selector = "";
  label_selector = "";
}

abbrev pub by_name : String → Selector → Selector
by_name name s = record s { name = name }

abbrev pub by_namespace : String → Selector → Selector
by_namespace namespace s = record s { namespace = namespace }

abbrev pub by_gvk : String → String → String → Selector → Selector
by_gvk group version kind s = record s { group = group; version = version; kind = kind }

-- ByKind, which forgets the group and the version
abbrev pub by_kind : String → Selector → Selector
by_kind kind s = record s { group = ""; version = ""; kind = kind }

-- How a condition is added to those that a selector has.
abbrev pub with_condition : String → String → String
with_condition old condition =
    if is_set old then join_with "," (old ∷ condition ∷ []) else condition

abbrev pub by_label : String → Selector → Selector
by_label label_selector s = record s {
  label_selector = with_condition s.label_selector label_selector;
}

abbrev pub by_annotation : String → Selector → Selector
by_annotation annotation_selector s = record s {
  annotation_selector = with_condition s.annotation_selector annotation_selector;
}

-- The kinds that a scheme knows an object under, and the name in its metadata.
pub record ApiObject : Type 0 where
  pub object_kinds : Reply (List Gvk)
  pub object_name : Reply String

-- `len(gvks) != 1`
abbrev single_kind : List Gvk → Reply Gvk
single_kind (gvk ∷ []) = ok gvk
single_kind gvks = err runtime_object_kind

unfoldable pub by_object : ApiObject → Reply Selector
by_object obj = obj.object_kinds >>= single_kind >>= λ gvk.
    let result = by_gvk gvk.group gvk.version gvk.kind new_selector in
    obj.object_name >>= λ name. ok (if is_set name then by_name name result else result)

-- ByObjectReference; the parser is that of an apiVersion and a kind.
abbrev pub by_object_reference : (String → String → Gvk) → ObjectReference → Selector
by_object_reference to_gvk ref =
    let gvk = to_gvk ref.api_version ref.kind in
    by_namespace ref.namespace
      (by_name ref.name (by_gvk gvk.group gvk.version gvk.kind new_selector))

-- NewSelectorFromV1Alpha1, whose argument has the same fields
abbrev pub new_selector_from_v1alpha1 : Selector → Selector
new_selector_from_v1alpha1 selector = record {
  group = selector.group;
  version = selector.version;
  kind = selector.kind;
  name = selector.name;
  namespace = selector.namespace;
  annotation_selector = selector.annotation_selector;
  label_selector = selector.label_selector;
}

abbrev component : (String → String) → String → String → List String
component quote key val = if is_set val then (key <> quote val) ∷ [] else []

abbrev components_of : (String → String) → Selector → List String
components_of quote s =
    component quote "Group=" s.group
    ++ (component quote "Version=" s.version
        ++ (component quote "Kind=" s.kind
            ++ (component quote "Namespace=" s.namespace
                ++ (component quote "Name=" s.name
                    ++ (component quote "Annotations=" s.annotation_selector
                        ++ component quote "Labels=" s.label_selector)))))

abbrev bracketed : List String → String
bracketed [] = "No selection conditions specified"
bracketed components = "[" <> (join_with ", " components <> "]")

-- Selector.String; `quote` is the verb %q.
unfoldable pub selector_text : (String → String) → Selector → String
selector_text quote s = bracketed (components_of quote s)

abbrev pub new_ephemeral_cloud_data_selector : Selector
new_ephemeral_cloud_data_selector =
    by_label ephemeral_user_data_selector (by_kind secret_kind new_selector)

abbrev pub new_ephemeral_bmh_selector : Selector
new_ephemeral_bmh_selector =
    by_label ephemeral_host_selector (by_kind bare_metal_host_kind new_selector)

abbrev pub new_bmc_credentials_selector : String → Selector
new_bmc_credentials_selector name = by_name name (by_kind secret_kind new_selector)

abbrev pub new_deploy_to_k8s_selector : Selector
new_deploy_to_k8s_selector = by_label deploy_to_k8s_selector new_selector

abbrev pub new_clusterctl_metadata_selector : Selector
new_clusterctl_metadata_selector =
    by_gvk "clusterctl.cluster.x-k8s.io" "v1alpha3" "Metadata" new_selector

abbrev pub generic_container_named : String → Selector
generic_container_named name =
    by_name name (by_gvk "airshipit.org" "v1alpha1" "GenericContainer" new_selector)

abbrev pub new_validator_executor_selector : Selector
new_validator_executor_selector = generic_container_named "document-validation"

abbrev pub new_crd_selector : Selector
new_crd_selector = by_kind "CustomResourceDefinition" new_selector

abbrev pub new_clusterctl_container_executor_selector : Selector
new_clusterctl_container_executor_selector = generic_container_named "clusterctl"

abbrev pub new_applier_container_executor_selector : Selector
new_applier_container_executor_selector = generic_container_named "applier"

selector_text_example :
    selector_text
      (λ (s : String). "'" <> (s <> "'"))
      (by_label "b in (c)" (by_label "a" (by_kind "Secret" new_selector)))
    ≡ "[Kind='Secret', Labels='a,b in (c)']"
unfolding selector_text join_with
selector_text_example = refl
