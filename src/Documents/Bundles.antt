-- ===== src/Documents/Bundles.antt =====
-- bundle.go: a bundle of documents over a kustomize resource map.
pub mod Selecting
use airshipctl.Base.{
  ℕ, String, ◌<>◌, ◌==◌, Bool, true, false, Option, none, some, List, [], ◌∷◌, ◌++◌, if◌then◌else◌,
  Outcome, ok, err, crash, ◌>>=◌, ◌>>◌, Proc, Outcome-cases, All, ◌≡◌, ◌≢◌, ◌↔◌, ◌⊎◌, inl, inr,
  refl, arith, eq_iff,
}
use airshipctl.Base.Texts.{contains}
use airshipctl.Documents.Selectors.{
  Selector, doc_not_found, multi_docs_found, new_selector, by_name, by_annotation, by_label, by_gvk,
  Reply, library_failed,
}
use airshipctl.Documents.Library.{
  Value, LoadRestrictions, unknown_restrictions, root_only, KrustyOptions, Call, Kustomize, library,
}

pub record KustomizeBuildOptions : Type 0 where
  pub kustomization_path : String
  pub load_restrictions : LoadRestrictions

module _ (K : Kustomize) where
  open K use {Files, Resource, ResMap}

  -- BundleFactory
  pub record Bundle : Type 0 where
    pub build_options : KustomizeBuildOptions
    pub res_map : ResMap
    pub files : Files

  -- NewDocument, which never fails: a document is a resource.
  abbrev pub new_document : Resource → Reply Resource
  new_document r = ok r

  -- The loop that makes documents of resources.
  unfoldable pub to_documents : List Resource → Reply (List Resource)
  to_documents [] = ok []
  to_documents (res ∷ rest) = do doc ← new_document res; docs ← to_documents rest; ok (doc ∷ docs)

  unfoldable pub new_bundle : Files → String → Reply Bundle
  new_bundle files kustomize_path = do
    let options : KustomizeBuildOptions = record {
      kustomization_path = kustomize_path;
      load_restrictions = root_only;
    }
    m ← library (
        K.run
          (record {
            do_legacy_resource_sort = true;
            load_restrictions = options.load_restrictions;
            do_prune = false;
            plugin_restrictions = false;
            network = true;
          })
          files kustomize_path)
    ok (record { build_options = options; res_map = m; files = files })

  -- NewBundleByPath; the files are those of the disk.
  unfoldable pub new_bundle_by_path : Files → String → Reply Bundle
  unfolding new_bundle
  new_bundle_by_path disk root_path = new_bundle disk root_path

  unfoldable pub new_bundle_from_bytes : String → Reply Bundle
  unfolding new_bundle
  new_bundle_from_bytes bytes = do
    f ← library (K.write_file "/kustomization.yaml" "resources:\n- data.yaml" K.memory_files)
    f' ← library (K.write_file "/data.yaml" bytes f)
    new_bundle f' "/"

  -- BundleFactoryFromBytes and BundleFactoryFromDocRoot
  abbrev pub bundle_factory_from_bytes : String → Reply Bundle
  bundle_factory_from_bytes = new_bundle_from_bytes

  unfoldable pub bundle_factory_from_doc_root : Files → Reply String → Reply Bundle
  unfolding new_bundle_by_path
  bundle_factory_from_doc_root disk doc_root = doc_root >>= new_bundle_by_path disk

  unfoldable pub get_all_documents : Bundle → Reply (List Resource)
  unfolding to_documents
  get_all_documents b = to_documents (K.resources b.res_map)

  unfoldable pub select : Selector → Bundle → Reply (List Resource)
  unfolding to_documents
  select selector b = library (K.select selector b.res_map) >>= to_documents

  -- The switch on the number of documents.
  unfoldable pub only_one : Selector → List Resource → Reply Resource
  only_one selector [] = err (doc_not_found selector)
  only_one selector (doc ∷ []) = ok doc
  only_one selector (doc ∷ other ∷ rest) = err (multi_docs_found selector)

  unfoldable pub select_one : Selector → Bundle → Reply Resource
  unfolding select only_one
  select_one selector b = select selector b >>= only_one selector

  abbrev pub get_by_name : String → Bundle → Reply Resource
  get_by_name name = select_one (by_name name new_selector)

  abbrev pub get_by_annotation : String → Bundle → Reply (List Resource)
  get_by_annotation annotation = select (by_annotation annotation new_selector)

  abbrev pub get_by_label : String → Bundle → Reply (List Resource)
  get_by_label label = select (by_label label new_selector)

  abbrev pub get_by_gvk : String → String → String → Bundle → Reply (List Resource)
  get_by_gvk group version kind = select (by_gvk group version kind new_selector)

  -- The loop that appends resources to a map.
  unfoldable pub append_all : List Resource → ResMap → Call ResMap
  append_all [] m = ok m
  append_all (res ∷ rest) m = K.append res m >>= append_all rest

  unfoldable pub select_bundle : Selector → Bundle → Reply Bundle
  unfolding append_all
  select_bundle selector b = do
    resources ← library (K.select selector b.res_map)
    m ← library (append_all resources K.no_resources)
    ok (record b { res_map = m })

  -- The loop of SelectByFieldValue. A resource that lacks the field is passed over.
  unfoldable pub append_matching : String → (Value → Bool) → List Resource → ResMap → Call ResMap
  append_matching path condition [] m = ok m
  append_matching path condition (res ∷ rest) m = elim (K.get_field_value path res) [
    | ok v ↦ (if condition v then K.append res m else ok m) >>= append_matching path condition rest
    | err text ↦
        let later = append_matching path condition rest m in
        if contains text "no field named" then later else err text
    | crash k ↦ crash k
  ]

  unfoldable pub select_by_field_value : String → (Value → Bool) → Bundle → Reply Bundle
  unfolding append_matching
  select_by_field_value path condition b = do
    m ← library (append_matching path condition (K.resources b.res_map) K.no_resources)
    ok (record b { res_map = m })

  -- What Append does with what it makes of the text of the document.
  abbrev appended : Bundle → Call Resource → Reply Bundle
  appended b (ok res) = library (K.append res b.res_map) >>= λ m. ok (record b { res_map = m })
  appended b (err e) = ok b
  appended b (crash k) = crash k

  -- Append; the bundle after it, where it returns no error
  unfoldable pub append_document : Resource → Bundle → Reply Bundle
  append_document doc b = do yaml ← library (K.as_yaml doc); appended b (K.from_bytes yaml)

  -- WriteOut of pkg/util/yaml, onto the text so far; a buffer takes everything.
  abbrev write_out : Resource → String → Call String
  write_out res out = K.marshal res >>= λ yaml_out. ok (out <> ("---\n" <> (yaml_out <> "...\n")))

  unfoldable pub write_all : List Resource → String → Call String
  write_all [] out = ok out
  write_all (res ∷ rest) out = write_out res out >>= write_all rest

  unfoldable pub write_bundle : Bundle → Reply String
  unfolding write_all
  write_bundle b = library (write_all (K.resources b.res_map) "")
