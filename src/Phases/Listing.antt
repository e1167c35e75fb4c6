-- ===== src/Phases/Listing.antt =====
-- The listings of pkg/phase/helper.go: ListPhases, getDocsByPhasePlan and ListPlans.
use airshipctl.Base.{
  String, ◌==◌, Bool, true, false, List, [], ◌∷◌, if◌then◌else◌, ok, err, crash, ◌>>=◌,
  Outcome-cases, ◌≡◌, ◌↔◌, refl, ap, subst, ◌∙◌, inl, inr, arith,
}
use airshipctl.Phases.Types.{PhaseId, Phase, PhaseStep, PhasePlan, PhaseError, doc_not_found, Reply}
use airshipctl.Phases.Site.{Site}
use airshipctl.Phases.Client.{helper_plan}

-- What the listings read of the bundle of phase documents.
pub record Listings (S : Site) : Type 0 where
  -- SelectBundle of all phases, and Select of all plans
  pub phase_bundle : Reply S.Bundle
  pub plan_documents : Reply (List S.Document)
  -- SelectByFieldValue on `metadata.clusterName`
  pub with_cluster : String → S.Bundle → Reply S.Bundle
  pub all_documents : S.Bundle → Reply (List S.Document)
  -- SelectOne of the phase of this name
  pub select_in : String → S.Bundle → Reply S.Document

-- ifc.ListPhaseOptions
pub record ListPhaseOptions : Type 0 where
  pub cluster_name : String
  pub plan_id : PhaseId

-- `goerrors.As(err, &document.ErrDocNotFound{})`
unfoldable pub is_not_found : PhaseError → Bool
is_not_found doc_not_found = true
is_not_found _ = false

module _ (S : Site) (L : Listings S) where
  open S use {Document, Bundle}

  -- The loop of getDocsByPhasePlan: a step whose document is not found is passed over.
  unfoldable pub docs_of_steps : Bundle → List PhaseStep → Reply (List Document)
  unfolding is_not_found
  docs_of_steps bundle [] = ok []
  docs_of_steps bundle (s ∷ ss) =
      let rest = docs_of_steps bundle ss in
      elim (L.select_in s.name bundle) [
        | ok doc ↦ rest >>= λ docs. ok (doc ∷ docs)
        | err e ↦ if is_not_found e then rest else err e
        | crash k ↦ crash k
      ]

  unfoldable pub docs_by_phase_plan : PhaseId → Bundle → Reply (List Document)
  unfolding helper_plan docs_of_steps
  docs_by_phase_plan id bundle = helper_plan S id >>= λ plan. docs_of_steps bundle plan.phases

  unfoldable to_all : {A : Type 0} → (Document → Reply A) → List Document → Reply (List A)
  to_all read [] = ok []
  to_all read (doc ∷ docs) = read doc >>= λ a. to_all read docs >>= λ more. ok (a ∷ more)

  unfoldable pub list_phases : ListPhaseOptions → Reply (List Phase)
  unfolding docs_by_phase_plan to_all
  list_phases o = L.phase_bundle >>= λ all.
      (if o.cluster_name == "" then ok all else L.with_cluster o.cluster_name all) >>= λ bundle.
      (if o.plan_id.name == "" then L.all_documents bundle else docs_by_phase_plan o.plan_id bundle)
      >>= λ docs. to_all S.to_phase docs

  unfoldable pub list_plans : Reply (List PhasePlan)
  unfolding to_all
  list_plans = L.plan_documents >>= to_all S.to_plan

  -- The documents of the steps in their order, without those that the bundle does not have.
  pub data Listed (bundle : Bundle) : List PhaseStep → List Document → Type 0 where
    no_step : Listed bundle [] []
    found :
        {s : PhaseStep} {ss : List PhaseStep} {doc : Document} {docs : List Document}
        → L.select_in s.name bundle ≡ ok doc
        → Listed bundle ss docs
        → Listed bundle (s ∷ ss) (doc ∷ docs)
    passed_over :
        {s : PhaseStep} {ss : List PhaseStep} {docs : List Document}
        → L.select_in s.name bundle ≡ err doc_not_found
        → Listed bundle ss docs
        → Listed bundle (s ∷ ss) docs

  not_found_only : (e : PhaseError) → is_not_found e ≡ true → e ≡ doc_not_found
  unfolding is_not_found
  not_found_only e h = ground arith

  docs_of_steps-Listed :
      (bundle : Bundle) (ss : List PhaseStep) (docs : List Document)
      → docs_of_steps bundle ss ≡ ok docs
      → Listed bundle ss docs
  unfolding docs_of_steps
  docs_of_steps-Listed bundle [] docs h = subst (Listed bundle []) (ground arith) no_step
  docs_of_steps-Listed bundle (s ∷ ss) docs h = elim (Outcome-cases (L.select_in s.name bundle)) [
    | inl (doc, e) ↦ elim (Outcome-cases (docs_of_steps bundle ss)) [
      | inl (more, r) ↦
          let same : doc ∷ more ≡ docs = ground arith in
          subst (Listed bundle (s ∷ ss)) same (found e (docs_of_steps-Listed bundle ss more r))
      | inr (inl (x, r)) ↦ absurd (ground arith)
      | inr (inr (k, r)) ↦ absurd (ground arith)
    ]
    | inr (inl (x, e)) ↦
        let missing = not_found_only x (ground arith) in
        passed_over (e ∙ ap err missing) (docs_of_steps-Listed bundle ss docs (ground arith))
    | inr (inr (k, e)) ↦ absurd (ground arith)
  ]

  Listed-docs_of_steps :
      (bundle : Bundle) (ss : List PhaseStep) (docs : List Document)
      → Listed bundle ss docs
      → docs_of_steps bundle ss ≡ ok docs
  unfolding docs_of_steps
  Listed-docs_of_steps bundle [] docs no_step = refl
  Listed-docs_of_steps bundle (s ∷ ss) docs (found {docs = more} e l) =
      ground (arith, Listed-docs_of_steps bundle ss more l)
  Listed-docs_of_steps bundle (s ∷ ss) docs (passed_over e l) =
      ground (arith, Listed-docs_of_steps bundle ss docs l)

  -- The phases of a plan are listed without an error exactly as the documents of its steps, in the
  -- order of the plan, where a step whose document is not found is passed over and any other error of
  -- the lookup ends the listing.
  pub docs_of_steps-eq-ok :
      (bundle : Bundle) (ss : List PhaseStep) (docs : List Document)
      → (docs_of_steps bundle ss ≡ ok docs) ↔ Listed bundle ss docs
  docs_of_steps-eq-ok bundle ss docs =
      (docs_of_steps-Listed bundle ss docs, Listed-docs_of_steps bundle ss docs)
