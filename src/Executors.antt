-- ===== src/Executors.antt =====
-- pkg/phase/executors: what runs a phase. Here is what the executors share; each has a file of its own.
pub mod Registry
pub mod Deferring
pub mod Applying
pub mod Providers
pub mod Clusterctl
pub mod Generic
pub mod Ephemeral
pub mod Baremetal
use airshipctl.Base.{
  ℤ, String, Bool, true, false, Option, List, Outcome, ok, err, crash, Crash, fatal, Proc, then_do,
  if◌then◌else◌,
}
use airshipctl.Base.GoMap.{GoMap}
use airshipctl.Clusters.{ClusterMap, ClusterError}
use airshipctl.Documents.Selectors.{DocumentError}
use airshipctl.Documents.Library.{Kustomize}
use airshipctl.Documents.Bundles.{Bundle}
use airshipctl.Kubeconfig.Merging.{KubeError}
use airshipctl.Kubeconfig.Files.{Cleanup}
use airshipctl.Containers.Types.{ContainerError, GenericContainer}
use airshipctl.Bootstrap.{BootConfiguration, BootError}
use airshipctl.Phases.Types.{Gvk}
use airshipctl.Inventory.{InventoryError}

pub data ExecutorError : Type 0 where
  unknown_executor_action : String → String → ExecutorError
  unknown_executor_name invalid_phase not_implemented : String → ExecutorError
  document_entrypoint_not_defined : ExecutorError
  document_error : DocumentError → ExecutorError
  cluster_error : ClusterError → ExecutorError
  kube_error : KubeError → ExecutorError
  container_error : ContainerError → ExecutorError
  boot_error : BootError → ExecutorError
  inventory_error : InventoryError → ExecutorError
  -- an error of YAML, of a URL or of the scheme of the API
  library_error : String → ExecutorError

abbrev pub Reply : Type 0 → Type 0
Reply A = Outcome ExecutorError A

-- The result of another part, with its error wrapped.
abbrev pub of : {E A : Type 0} → (E → ExecutorError) → Outcome E A → Reply A
of wrap (ok a) = ok a
of wrap (err e) = err (wrap e)
of wrap (crash k) = crash k

-- KubernetesApply: ApplyConfig, with the timeout of its WaitOptions
pub record ApplyConfig : Type 0 where
  pub wait_timeout : ℤ
  pub poll_interval : ℤ
  pub prune : Bool
  pub kubeconfig : String
  pub context : String
  pub dry_run : Bool
  pub debug : Bool
  pub phase_name : String
  pub inventory_policy : String

-- v1alpha1.Provider
pub record Provider : Type 0 where
  pub name : String
  pub type : String
  pub url : String

-- v1alpha1.Clusterctl, with the fields of its options; `images` is the YAML of its images
pub record ClusterctlDocument : Type 0 where
  pub providers : List Provider
  pub action : String
  pub core_provider : String
  pub bootstrap_providers : String
  pub infrastructure_providers : String
  pub control_plane_providers : String
  pub move_namespace : String
  pub additional_component_variables : GoMap String
  pub images : String

-- v1alpha1.ClusterctlOptions
pub record ClusterctlOptions : Type 0 where
  pub cmd_options : List String
  pub config : String
  pub components : GoMap String

-- v1alpha1.BaremetalManagerSpec
pub record BaremetalManagerSpec : Type 0 where
  pub operation : String
  pub label_selector : String
  pub name : String
  pub namespace : String
  pub iso_url : String
  pub timeout : ℤ

-- What the executors take from other packages and from libraries.
pub record Surroundings (K : Kustomize) : Type 1 where
  pub World : Type 0
  -- GetFile of the kubeconfig of the phase, and the call of a cleanup
  pub get_file : Proc World KubeError (String × Cleanup)
  pub clean_up : Cleanup → Proc World KubeError Unit
  -- the container client, on results directory, input, whether the output is written, and target path
  pub run_client :
      String → String → Bool → String → GenericContainer → Proc World ContainerError Unit
  pub debug_enabled : Bool
  -- ToAPIObject for the objects of the executors
  pub to_container : K.Resource → Outcome String GenericContainer
  pub to_apply : K.Resource → Outcome String ApplyConfig
  pub to_clusterctl : K.Resource → Outcome String ClusterctlDocument
  pub to_boot : K.Resource → Outcome String BootConfiguration
  pub to_baremetal : K.Resource → Outcome String BaremetalManagerSpec
  -- the YAML library
  pub marshal_apply : ApplyConfig → Outcome String String
  pub marshal_clusterctl : List Provider → String → GoMap String → Outcome String String
  pub marshal_options : ClusterctlOptions → Outcome String String
  -- url.Parse, with the scheme that it finds
  pub scheme_of : String → Outcome String String
  -- schema.FromAPIVersionAndKind
  pub gvk_of : String → String → Gvk
  -- the order that a walk over the entries of a map takes
  pub walk : GoMap String → List (String × String)
  pub disk : K.Files

-- ifc.ExecutorConfig, as far as these executors read it
pub record ExecutorConfig (K : Kustomize) : Type 0 where
  pub phase_name : String
  pub cluster_name : String
  pub sink_base_path : String
  pub target_path : String
  pub cluster_map : ClusterMap
  pub executor_document : K.Resource
  pub bundle_factory : Reply (Bundle K)
  pub phase_config_bundle : Bundle K

-- `defer cleanup()`: it runs however the call ends, but for the end of the process.
unfoldable pub ends_process : Crash → Bool
ends_process fatal = true
ends_process k = false

module _ {S : Type 0} where
  abbrev pub after_cleanup :
      {B : Type 0}
      → Outcome ExecutorError B
      → Outcome ExecutorError Unit × S
      → Outcome ExecutorError B × S
  after_cleanup r (ok u, s) = (r, s)
  after_cleanup r (err e, s) = (err e, s)
  after_cleanup r (crash k, s) = (crash k, s)

  unfoldable pub deferred :
      {B : Type 0}
      → (S → Outcome ExecutorError Unit × S)
      → Outcome ExecutorError B × S
      → Outcome ExecutorError B × S
  unfolding ends_process
  deferred clean (ok b, s) = after_cleanup (ok b) (clean s)
  deferred clean (err e, s) = after_cleanup (err e) (clean s)
  deferred clean (crash k, s) =
      if ends_process k then (crash k, s) else after_cleanup (crash k) (clean s)

  -- The state in place of which another is put, and the state itself.
  abbrev pub modify : (S → S) → Proc S ExecutorError Unit
  modify f s = (ok tt, f s)

  abbrev pub current : Proc S ExecutorError S
  current s = (ok s, s)
