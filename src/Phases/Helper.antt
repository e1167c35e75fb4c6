-- ===== src/Phases/Helper.antt =====
-- NewHelper of pkg/phase/helper.go and BaremetalInventory of pkg/inventory/inventory.go: the paths of a
-- site and the bundles that stand there, found through the configuration.
use airshipctl.Base.{String, Option, [], ◌∷◌, ok, ◌>>◌ as then_outcome}
use airshipctl.Base.Procs.{◌>>=◌, pure, lift}
use airshipctl.Base.Paths.{join}
use airshipctl.Config.Types.{Config, ManagementConfiguration, Reply, Method}
use airshipctl.Config.Host.{Host}
use airshipctl.Config.Lookup.{
  current_context_target_path, current_context_phase_repository_dir, current_context_metadata_path,
  current_context_inventory_repository_name, current_context_management_config,
}
use airshipctl.Config.Persist.{work_dir}

-- metadata.Metadata
pub record Metadata : Type 0 where
  pub metadata_phase_path : String
  pub doc_entry_point_prefix : String
  pub inventory_path : String

-- What pkg/document finds at a path: the metadata of a site, and a bundle.
pub record SiteFiles (H : Host) : Type 1 where
  pub Bundle : Type 0
  pub metadata_at : String → H.World → Reply Metadata
  pub bundle_by_path : String → H.World → Reply Bundle

-- Helper, without its inventory
pub record Helper (Bundle : Type 0) : Type 0 where
  pub phase_bundle_root : String
  pub inventory_root : String
  pub target_path : String
  pub metadata_path : String
  pub phase_repo_dir : String
  pub phase_entry_point_base_path : String
  pub work_dir : String
  pub doc_entry_point_prefix : String
  pub phase_config_bundle : Bundle

module _ (H : Host) (F : SiteFiles H) where
  open H use {World}
  open F use {Bundle}

  -- WorkDir, whose directory is used where it returns no error.
  unfoldable work_folder : Method World String
  unfolding work_dir
  work_folder w = let (folder, res, w') = work_dir H w in (then_outcome res (ok folder), w')

  unfoldable pub new_helper : Config → Method World (Helper Bundle)
  unfolding current_context_target_path current_context_phase_repository_dir
      current_context_metadata_path work_folder join
  new_helper cfg = do
    target_path ← lift (current_context_target_path cfg)
    phase_repo_dir ← lift (current_context_phase_repository_dir cfg)
    metadata_path ← lift (current_context_metadata_path cfg)
    meta ← λ w. (F.metadata_at (join (target_path ∷ phase_repo_dir ∷ metadata_path ∷ [])) w, w)
    folder ← work_folder
    let root = join (target_path ∷ phase_repo_dir ∷ meta.metadata_phase_path ∷ [])
    bundle ← λ w. (F.bundle_by_path root w, w)
    pure (record {
      phase_bundle_root = root;
      inventory_root = join (target_path ∷ phase_repo_dir ∷ meta.inventory_path ∷ []);
      target_path = target_path;
      metadata_path = metadata_path;
      phase_repo_dir = phase_repo_dir;
      phase_entry_point_base_path =
          join (target_path ∷ phase_repo_dir ∷ meta.doc_entry_point_prefix ∷ []);
      work_dir = folder;
      doc_entry_point_prefix = meta.doc_entry_point_prefix;
      phase_config_bundle = bundle;
    })

  -- Inventory.BaremetalInventory: what the inventory of the hosts is made of.
  unfoldable pub baremetal_inventory :
      Method World Config → Method World (Option ManagementConfiguration × Bundle)
  unfolding current_context_management_config current_context_target_path
      current_context_inventory_repository_name current_context_metadata_path join
  baremetal_inventory cfg_factory = do
    cfg ← cfg_factory
    mgmt ← lift (current_context_management_config cfg)
    target_path ← lift (current_context_target_path cfg)
    phase_dir ← lift (current_context_inventory_repository_name cfg)
    metadata_path ← lift (current_context_metadata_path cfg)
    meta ← λ w. (F.metadata_at (join (target_path ∷ phase_dir ∷ metadata_path ∷ [])) w, w)
    bundle ←
        λ w. (F.bundle_by_path (join (target_path ∷ phase_dir ∷ meta.inventory_path ∷ [])) w, w)
    pure (mgmt, bundle)
