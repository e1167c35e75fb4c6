-- ===== src/Config/Options.antt =====
-- options.go: the checks of the options of `config set-context` and `config set-manifest`.
use airshipctl.Base.{◌==◌, is_set, ltb, not, ◌&&◌, [], ◌∷◌, ok, ◌>>◌, reject_if}
use airshipctl.Config.Types.{
  ContextOptions, ManifestOptions, Reply, empty_context_name, conflicting_context_options,
  missing_manifest_name, missing_repository_name, mutually_exclusive_checkout,
}
use airshipctl.Config.Repo.{count_set}

-- ContextOptions.Validate
unfoldable pub validate_context_options : ContextOptions → Reply Unit
validate_context_options o = do
  reject_if (not o.current && (o.name == "")) empty_context_name
  reject_if (o.current && is_set o.name) conflicting_context_options
  ok tt

-- ManifestOptions.Validate
unfoldable pub validate_manifest_options : ManifestOptions → Reply Unit
unfolding count_set
validate_manifest_options o = do
  reject_if (o.name == "") missing_manifest_name
  reject_if (o.is_phase && (o.repo_name == "")) (missing_repository_name "")
  reject_if (ltb 1 (count_set (o.commit_hash ∷ o.branch ∷ o.tag ∷ []))) mutually_exclusive_checkout
