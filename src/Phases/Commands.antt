-- ===== src/Phases/Commands.antt =====
-- pkg/phase/command.go: the commands on phases, plans and clusters. `open_helper` reads the configuration
-- and makes the helper; the commands run on what the site has then.
use airshipctl.Base.{
  ℕ, String, ◌<>◌, ◌==◌, Bool, not, ◌&&◌, Option, none, some, List, [], ◌∷◌, if◌then◌else◌, ok, err,
  crash, reject_if, ◌>>=◌ as bind_outcome, ◌≡◌, ◌≢◌, arith, eq_iff,
}
use airshipctl.Base.Procs.{◌>>=◌, ◌>>◌, pure, lift}
use airshipctl.Base.Paths.{join, text_of}
use airshipctl.Base.Texts.{has_prefix}
use airshipctl.Clusters.{ClusterMap}
use airshipctl.Clusters.{Reply as ClusterReply}
use airshipctl.Clusters.Listing.{write_clusters}
use airshipctl.Documents.Selectors.{kustomization_file}
use airshipctl.Documents.Library.{Call}
use airshipctl.Documents.Tree.{TreeFiles, KustomNode, Screen, build_kustom_tree, print_tree}
use airshipctl.Phases.Types.{
  RunOptions, PhaseId, Phase, PhasePlan, invalid_format, invalid_output_format, cluster_map_error,
  external, Reply, Method,
}
use airshipctl.Phases.Site.{Site}
use airshipctl.Phases.Client.{
  helper_phase, helper_plan, document_root, run_phase, phase_status, validate_phase,
}
use airshipctl.Phases.Plan.{PlanRunOptions, run_plan, validate_plan}
use airshipctl.Phases.Listing.{Listings, ListPhaseOptions, list_phases, list_plans}

-- A text up to the end of the first place where a part stands: strings.SplitAfter(s, part)[0].
unfoldable pub up_to : String → String → String
unfolding has_prefix
up_to part String.[] = ""
up_to part (String.◌∷◌ c s) =
    let rest = up_to part s in if has_prefix (String.◌∷◌ c s) part then part else text_of c <> rest

-- What the commands print to, and what they find beside the site.
pub record Terminal (S : Site) : Type 0 where
  pub print_phases : List Phase → Method S.World Unit
  pub print_plans : List PhasePlan → Method S.World Unit
  pub write_phases : List Phase → Method S.World Unit
  pub write_plans : List PhasePlan → Method S.World Unit
  pub write : String → S.World → ClusterReply Unit × S.World
  pub stdout : String → S.World → ClusterReply Unit × S.World
  pub align : String → String
  -- os.Stat, and PhaseRepoDir of the helper
  pub stat : String → S.World → Call Unit
  pub phase_repo_dir : String
  -- the cluster map of the bundle of phase documents
  pub cluster_map_document : Reply S.Document
  pub to_cluster_map : S.Document → Reply ClusterMap

module _ (S : Site) (L : Listings S) (T : Terminal S) (open_helper : Method S.World Unit) where
  open S use {World, Status}

  -- PhaseByID and PlanByID of the client, on a helper that is made first.
  unfoldable pub phase_by_id : PhaseId → Method World Phase
  unfolding helper_phase
  phase_by_id id = do open_helper; lift (helper_phase S id)

  unfoldable pub plan_by_id : PhaseId → Method World PhasePlan
  unfolding helper_plan
  plan_by_id id = do open_helper; lift (helper_plan S id)

  -- RunCommand.RunE
  unfoldable pub run_command : PhaseId → RunOptions → Method World Unit
  unfolding phase_by_id run_phase
  run_command id o = do phase ← phase_by_id id; run_phase S o phase

  -- ValidateCommand.RunE
  unfoldable pub validate_command : PhaseId → Method World Unit
  unfolding phase_by_id validate_phase
  validate_command id = do phase ← phase_by_id id; validate_phase S phase

  -- StatusCommand.RunE
  unfoldable pub status_command : PhaseId → Method World Unit
  unfolding phase_by_id phase_status
  status_command id = do phase ← phase_by_id id; phase_status S phase; pure tt

  -- PlanRunCommand.RunE
  unfoldable pub plan_run_command : PhaseId → PlanRunOptions → Method World Unit
  unfolding plan_by_id run_plan
  plan_run_command id o = do plan ← plan_by_id id; λ w. (run_plan S o plan w).1

  -- PlanValidateCommand.RunE
  unfoldable pub plan_validate_command : PhaseId → Method World Unit
  unfolding plan_by_id validate_plan
  plan_validate_command id = do plan ← plan_by_id id; validate_plan S plan

  -- Neither a table nor YAML.
  abbrev pub is_no_format : String → Bool
  is_no_format format = not (format == "table") && not (format == "yaml")

  unfoldable show_phases : String → List Phase → Method World Unit
  show_phases format phases =
      if format == "table" then T.print_phases phases else T.write_phases phases

  -- ListCommand.RunE
  unfoldable pub list_command : String → ListPhaseOptions → Method World Unit
  unfolding show_phases list_phases
  list_command format o = do
    lift (reject_if (is_no_format format) (invalid_format format))
    open_helper
    phases ← lift (list_phases S L o)
    show_phases format phases

  unfoldable show_plans : String → List PhasePlan → Method World Unit
  show_plans format plans = if format == "yaml" then T.write_plans plans else T.print_plans plans

  -- PlanListCommand.RunE
  unfoldable pub plan_list_command : String → Method World Unit
  unfolding show_plans list_plans
  plan_list_command format = do
    lift (reject_if (is_no_format format) (invalid_format format))
    open_helper
    plans ← lift (list_plans S L)
    show_plans format plans

  -- ClusterMap of the helper
  unfoldable pub helper_cluster_map : Reply ClusterMap
  helper_cluster_map = bind_outcome T.cluster_map_document T.to_cluster_map

  abbrev of_clusters : ClusterReply Unit × World → Reply Unit × World
  of_clusters (ok u, w) = (ok u, w)
  of_clusters (err e, w) = (err (cluster_map_error e), w)
  of_clusters (crash k, w) = (crash k, w)

  -- ClusterListCommand.RunE
  unfoldable pub cluster_list_command : String → Method World Unit
  unfolding helper_cluster_map write_clusters
  cluster_list_command format = do
    lift (
        reject_if (not (format == "table") && not (format == "name"))
          (invalid_output_format format))
    open_helper
    m ← lift helper_cluster_map
    λ w. of_clusters (write_clusters T.stdout T.write T.align format m w)

  -- The directory of manifests and the entry point: of a directory that is there, or of a phase.
  unfoldable pub tree_roots : String → String → Method World (String × String)
  unfolding up_to join document_root helper_phase
  tree_roots namespace argument w = elim (T.stat argument w) [
    | ok u ↦ (ok (up_to "/manifests" argument, join (argument ∷ kustomization_file ∷ [])), w)
    | crash k ↦ (crash k, w)
    | err missing ↦ (
      bind_outcome (helper_phase S (record { name = argument; namespace = namespace })) (λ phase.
          bind_outcome (document_root S phase) (λ root.
            ok (
              join (S.target_path ∷ T.phase_repo_dir ∷ []),
              join (root ∷ kustomization_file ∷ []),
            ))),
      w,
    )
  ]

  abbrev tree_printed : Call KustomNode → Reply Screen
  tree_printed (ok tree) = ok (print_tree tree (record { written = ""; printed = "" }))
  tree_printed (err text) = err (external text)
  tree_printed (crash k) = crash k

  -- TreeCommand.RunE, to a depth of so many kustomizations, with what it prints
  abbrev tree_of : TreeFiles → ℕ → Reply (String × String) × World → Option (Reply Screen × World)
  tree_of F depth (err e, w) = some (err e, w)
  tree_of F depth (crash k, w) = some (crash k, w)
  tree_of F depth (ok (manifests_dir, entrypoint), w) =
      elim (build_kustom_tree F depth entrypoint manifests_dir) [
        | none ↦ none
        | some built ↦ some (tree_printed built, w)
      ]

  unfoldable pub tree_command :
      TreeFiles → ℕ → String → String → World → Option (Reply Screen × World)
  unfolding tree_roots build_kustom_tree print_tree
  tree_command F depth namespace argument w =
      tree_of F depth ((open_helper >> tree_roots namespace argument) w)

  -- A listing in a format that is none is refused before anything is read, whatever is asked for.
  pub formats_refused :
      (format : String) (o : ListPhaseOptions) (w : World)
      → format ≢ "table"
      → ((format ≢ "yaml")
          → (list_command format o w ≡ (err (invalid_format format), w))
            × (plan_list_command format w ≡ (err (invalid_format format), w)))
        × ((format ≢ "name")
            → cluster_list_command format w ≡ (err (invalid_output_format format), w))
  unfolding list_command plan_list_command cluster_list_command
  formats_refused format o w n = (
    λ m. (
      ground (arith, eq_iff format "table", eq_iff format "yaml"),
      ground (arith, eq_iff format "table", eq_iff format "yaml"),
    ),
    λ m. ground (arith, eq_iff format "table", eq_iff format "name"),
  )
