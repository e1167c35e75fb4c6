-- ===== src/Phases/Types.antt =====
-- The phases and plans of pkg/api/v1alpha1, and the errors of pkg/phase.
use airshipctl.Clusters.{ClusterError}
use airshipctl.Base.{ℤ, String, Bool, Option, List, Outcome, Proc}

-- ifc.ID
pub record PhaseId : Type 0 where
  pub name : String
  pub namespace : String

-- corev1.ObjectReference, as far as it selects a document
pub record ObjectReference : Type 0 where
  pub kind : String
  pub api_version : String
  pub name : String
  pub namespace : String

pub record ValidationConfig : Type 0 where
  pub strict : Option Bool
  pub ignore_missing_schemas : Option Bool
  pub kubernetes_version : String
  pub schema_location : String
  pub kinds_to_skip : List String
  pub crd_list : List String

-- Phase, with the fields of its metadata and its configuration
pub record Phase : Type 0 where
  pub name : String
  pub namespace : String
  pub cluster_name : String
  pub executor_ref : Option ObjectReference
  pub site_wide_kubeconfig : Bool
  pub validation_cfg : ValidationConfig
  pub document_entry_point : String

pub record PhaseStep : Type 0 where
  pub name : String
  pub namespace : String

pub record PhasePlan : Type 0 where
  pub name : String
  pub namespace : String
  pub phases : List PhaseStep
  pub validation_cfg : ValidationConfig

-- ifc.RunOptions; the timeout is in nanoseconds
pub record RunOptions : Type 0 where
  pub dry_run : Bool
  pub timeout : Option ℤ

-- schema.GroupVersionKind
pub record Gvk : Type 0 where
  pub group : String
  pub version : String
  pub kind : String

pub data PhaseError : Type 0 where
  executor_ref_not_defined : String → String → PhaseError
  document_entrypoint_not_defined : String → String → PhaseError
  executor_not_found : Gvk → PhaseError
  doc_not_found : PhaseError
  unknown_render_source : String → List String → PhaseError
  render_phase_name_not_specified : List String → PhaseError
  invalid_format invalid_output_format : String → PhaseError
  cluster_map_error : ClusterError → PhaseError
  -- any other error of documents, executors and containers
  external : String → PhaseError

abbrev pub Reply : Type 0 → Type 0
Reply A = Outcome PhaseError A

abbrev pub Method : Type 0 → Type 0 → Type 0
Method W A = Proc W PhaseError A
