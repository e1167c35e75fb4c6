-- ===== src/Tests/Plans.antt =====
-- A plan of three phases on a site that records which of them ran.
use airshipctl.Base.{
  String, ◌==◌, false, none, some, List, [], ◌∷◌, ◌++◌, if◌then◌else◌, ok, err, ◌≡◌, refl,
}
use airshipctl.Phases.Types.{
  RunOptions, Phase, PhaseStep, PhasePlan, ValidationConfig, doc_not_found, Reply,
}
use airshipctl.Phases.Site.{
  Site, Executor, Selector, phase_named, plan_named, referred, validator_executor,
}
use airshipctl.Phases.Plan.{run_steps, run_plan}
use airshipctl.Phases.Plan.Order.{run_plan_resumed}

abbrev no_checks : ValidationConfig
no_checks = record {
  strict = none;
  ignore_missing_schemas = none;
  kubernetes_version = "";
  schema_location = "";
  kinds_to_skip = [];
  crd_list = [];
}

abbrev found : Selector → Reply String
found (phase_named name) = if name == "missing" then err doc_not_found else ok name
found (plan_named name) = ok name
found (referred ref) = ok ref.name
found validator_executor = ok "validator"

abbrev phase_of : String → Phase
phase_of name = record {
  name = name;
  namespace = "";
  cluster_name = "target";
  executor_ref =
      some (record { kind = "Applier"; api_version = "v1"; name = name; namespace = "" });
  site_wide_kubeconfig = false;
  validation_cfg = no_checks;
  document_entry_point = "entry";
}

abbrev step : String → PhaseStep
step name = record { name = name; namespace = "" }

abbrev plan : PhasePlan
plan = record {
  name = "deploy";
  namespace = "";
  phases = step "init" ∷ step "control" ∷ step "workers" ∷ [];
  validation_cfg = no_checks;
}

abbrev recorder : String → Executor (List String) Unit Unit
recorder name = record {
  run = λ ro w. (ok tt, w ++ (name ∷ []));
  validate = λ w. (ok tt, w);
  render = λ filter w. (ok "", w);
  status = λ w. (ok tt, w);
}

abbrev for_real : RunOptions
for_real = record { dry_run = false; timeout = none }

abbrev site : Site
site = record {
  World = List String;
  Status = Unit;
  Document = String;
  Bundle = Unit;
  Container = Unit;
  Filter = Unit;
  select_one = found;
  document_gvk = λ doc. record { group = ""; version = "v1"; kind = "Applier" };
  to_phase = λ doc. ok (phase_of doc);
  to_plan = λ doc. ok plan;
  to_container = λ doc. ok tt;
  cluster_map = ok tt;
  target_path = "/site";
  phase_entry_point_base_path = "/site/phases";
  factory_of = λ gvk. some (λ config w. (ok (recorder config.phase_name), w));
  bundle_by_path = λ path w. ok tt;
  select_crds = λ b. ok tt;
  select_bundle = λ filter b. ok tt;
  every_document = tt;
  filter_of = λ label annotation group version kind. tt;
  config_bundle = tt;
  write_bundle = λ b. ok "";
  marshal_validation = λ cfg. ok "";
  run_container = λ c config input w. (ok tt, w);
  set_prevent_cleanup = λ w. w;
  unset_prevent_cleanup = λ w. w ++ ("cleared" ∷ []);
}

abbrev control : String
control = "control"

run_plan_resumed_example :
    run_plan site (record { run_options = for_real; resume_from_phase = control }) plan [] ≡ (
      record plan { phases = step control ∷ step "workers" ∷ [] },
      run_steps site for_real (step control ∷ step "workers" ∷ []) [],
    )
run_plan_resumed_example =
    run_plan_resumed site for_real plan (step "init" ∷ []) (step "workers" ∷ []) (step control) []
      refl (λ e. cc) (λ e. cc, tt)
