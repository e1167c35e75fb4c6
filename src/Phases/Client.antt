-- ===== src/Phases/Client.antt =====
-- pkg/phase/client.go for one phase, and Phase and Plan of pkg/phase/helper.go.
use airshipctl.Base.{
  Bool, String, ◌<>◌, ◌==◌, none, some, List, [], ◌∷◌, if◌then◌else◌, ok, err, deref, found_or,
  ◌>>=◌ as bind_outcome,
}
use airshipctl.Base.Procs.{◌>>=◌, ◌>>◌, pure, lift}
use airshipctl.Base.Paths.{join}
use airshipctl.Phases.Types.{
  RunOptions, PhaseId, ValidationConfig, Phase, PhasePlan, executor_ref_not_defined,
  document_entrypoint_not_defined, executor_not_found, Reply, Method,
}
use airshipctl.Phases.Site.{Site, Executor, phase_named, plan_named, referred, validator_executor}

module _ (S : Site) where
  open S use {World, Status, Document, Container, Filter}

  -- A phase must name an executor.
  unfoldable with_executor : Phase → Reply Phase
  with_executor p = elim p.executor_ref [
    | none ↦ err (executor_ref_not_defined p.name p.namespace)
    | some ref ↦ ok p
  ]

  -- Helper.Phase
  unfoldable pub helper_phase : PhaseId → Reply Phase
  unfolding with_executor
  helper_phase id =
      bind_outcome (S.select_one (phase_named id.name))
        (λ doc. bind_outcome (S.to_phase doc) with_executor)

  -- Helper.Plan
  unfoldable pub helper_plan : PhaseId → Reply PhasePlan
  helper_plan id = bind_outcome (S.select_one (plan_named id.name)) S.to_plan

  -- phase.DocumentRoot
  unfoldable pub document_root : Phase → Reply String
  unfolding join
  document_root p =
      if p.document_entry_point == ""
      then err (document_entrypoint_not_defined p.name p.namespace)
      else ok (join (S.phase_entry_point_base_path ∷ p.document_entry_point ∷ []))

  -- phase.Executor
  unfoldable pub executor : Phase → Method World (Executor World Status Filter)
  unfolding document_root
  executor p = do
    ref ← lift (deref p.executor_ref)
    doc ← lift (S.select_one (referred ref))
    factory ←
        lift
          (found_or (S.factory_of (S.document_gvk doc)) (executor_not_found (S.document_gvk doc)))
    lift S.cluster_map
    factory (record {
      phase_name = p.name;
      cluster_name = p.cluster_name;
      site_wide = p.site_wide_kubeconfig;
      executor_document = doc;
      document_root = document_root p;
    })

  -- phase.Run
  unfoldable pub run_phase : RunOptions → Phase → Method World Unit
  unfolding executor
  run_phase ro p = do e ← executor p; e.run ro

  -- phase.Status
  unfoldable pub phase_status : Phase → Method World Status
  unfolding executor
  phase_status p = do e ← executor p; e.status

  -- The CRDs of each path of the list, after the text so far.
  unfoldable crd_texts : List String → String → Method World String
  unfolding join
  crd_texts [] text = pure text
  crd_texts (path ∷ paths) text = do
    bundle ← λ w. (S.bundle_by_path (join (S.target_path ∷ path ∷ [])) w, w)
    crds ← lift (S.select_crds bundle)
    more ← lift (S.write_bundle crds)
    crd_texts paths (text <> more)

  -- validate
  unfoldable pub validate_executor :
      Executor World Status Filter → ValidationConfig → Method World Unit
  unfolding crd_texts
  validate_executor e cfg = do
    e.validate
    rendered ← e.render S.every_document
    doc ← lift (S.select_one validator_executor)
    container ← lift (S.to_container doc)
    config ← lift (S.marshal_validation cfg)
    input ← crd_texts cfg.crd_list rendered
    S.run_container container config input

  -- phase.Validate
  unfoldable pub validate_phase : Phase → Method World Unit
  unfolding executor validate_executor
  validate_phase p = do e ← executor p; validate_executor e p.validation_cfg

  -- The documents at the entry point of a phase that the filter selects, as text.
  unfoldable render_documents : Filter → Phase → Method World String
  unfolding document_root
  render_documents filter p = do
    root ← lift (document_root p)
    bundle ← λ w. (S.bundle_by_path root w, w)
    rendered ← lift (S.select_bundle filter bundle)
    lift (S.write_bundle rendered)

  -- phase.Render, with what it writes
  unfoldable pub render_phase : Bool → Filter → Phase → Method World String
  unfolding executor render_documents
  render_phase executor_render filter p =
      let by_executor : Method World String = executor p >>= (λ e. e.render filter) in
      if executor_render then by_executor else render_documents filter p
