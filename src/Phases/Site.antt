-- ===== src/Phases/Site.antt =====
-- What pkg/phase runs on: the documents of the site, the executors, the validator's container and the
-- environment variable of the validator.
use airshipctl.Base.{String, Bool, Option}
use airshipctl.Phases.Types.{
  RunOptions, ObjectReference, ValidationConfig, Phase, PhasePlan, Gvk, Reply, Method,
}

-- ifc.Executor
pub record Executor (W Status Filter : Type 0) : Type 0 where
  pub run : RunOptions → Method W Unit
  pub validate : Method W Unit
  pub render : Filter → Method W String
  pub status : Method W Status

-- The selectors that the code builds. Those of a phase and of a plan hold its name alone, and no name
-- where it is empty: ByObject does not look at the namespace.
pub data Selector : Type 0 where
  phase_named : String → Selector
  plan_named : String → Selector
  referred : ObjectReference → Selector
  validator_executor : Selector

-- ifc.ExecutorConfig, without what does not depend on the phase
pub record ExecutorConfig (D : Type 0) : Type 0 where
  pub phase_name : String
  pub cluster_name : String
  pub site_wide : Bool
  pub executor_document : D
  pub document_root : Reply String

pub record Site : Type 1 where
  pub World : Type 0
  pub Status : Type 0
  pub Document : Type 0
  pub Bundle : Type 0
  pub Container : Type 0
  pub Filter : Type 0
  -- PhaseConfigBundle().SelectOne, and what the document says
  pub select_one : Selector → Reply Document
  pub document_gvk : Document → Gvk
  pub to_phase : Document → Reply Phase
  pub to_plan : Document → Reply PhasePlan
  pub to_container : Document → Reply Container
  -- helper.ClusterMap, TargetPath and PhaseEntryPointBasePath
  pub cluster_map : Reply Unit
  pub target_path : String
  pub phase_entry_point_base_path : String
  -- the registry of executor factories
  pub factory_of :
      Gvk → Option (ExecutorConfig Document → Method World (Executor World Status Filter))
  -- bundles from a path, and the selected documents of one as text
  pub bundle_by_path : String → World → Reply Bundle
  pub select_crds : Bundle → Reply Bundle
  pub select_bundle : Filter → Bundle → Reply Bundle
  -- the selector that selects everything, and the one of a render command
  pub every_document : Filter
  pub filter_of : String → String → String → String → String → Filter
  pub config_bundle : Bundle
  pub write_bundle : Bundle → Reply String
  pub marshal_validation : ValidationConfig → Reply String
  -- the container with its configuration, on its input
  pub run_container : Container → String → String → Method World Unit
  -- VALIDATOR_PREVENT_CLEANUP
  pub set_prevent_cleanup : World → World
  pub unset_prevent_cleanup : World → World
