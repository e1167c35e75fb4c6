-- ===== src/Tests/Settings.antt =====
-- The checks and the edits of settings on examples.
use airshipctl.Base.{String, false, none, some, ok, ◌≡◌, refl, ◌↔◌}
use airshipctl.Base.GoMap.{get}
use airshipctl.Config.Types.{RepoAuth, RepoCheckout, Repository, ManifestOptions}
use airshipctl.Config.Defaults.{new_config, new_checkout}
use airshipctl.Config.Lookup.{ensure_complete}
use airshipctl.Config.Lookup.Complete.{IsComplete, ensure_complete-eq-ok}
use airshipctl.Config.Repo.{Git, validate_checkout, ssh_pass}
use airshipctl.Config.Edit.{modify_repository, set_checkout}
use airshipctl.Config.Edit.Repositories.{modify_repository-validate}
use airshipctl.Tests.Disk.{two_contexts}

ensure_complete-eq-ok_example : IsComplete two_contexts
unfolding ensure_complete new_config get
ensure_complete-eq-ok_example = (ensure_complete-eq-ok two_contexts).0 refl

abbrev ssh_pass_auth : RepoAuth
ssh_pass_auth = record {
  type = ssh_pass;
  key_password = "";
  key_path = "";
  http_password = "";
  ssh_password = "secret";
  username = "user";
}

-- References and hashes are their texts.
abbrev pub git : Git
git = record {
  PublicKeys = String;
  ReferenceName = String;
  Hash = String;
  no_reference = "";
  zero_hash = "0";
  default_remote_name = "origin";
  new_public_keys_from_file = λ user path password. ok path;
  new_branch_reference_name = λ b. b;
  new_remote_reference_name = λ r b. b;
  new_tag_reference_name = λ t. t;
  reference_name = λ r. r;
  new_hash = λ h. h;
  validate_ref_spec = λ r. ok tt;
}

abbrev pub by_ref : RepoCheckout
by_ref = record new_checkout { ref = "refs/changes/1" }

abbrev repo_by_ref : Repository
repo_by_ref = record {
  url_string = "https://example.com/repo";
  auth = some ssh_pass_auth;
  checkout_options = some by_ref;
  fetch_options = none;
}

abbrev no_manifest_options : ManifestOptions
no_manifest_options = record {
  name = "site";
  repo_name = "primary";
  url = "";
  branch = "";
  commit_hash = "";
  tag = "";
  force = false;
  is_phase = false;
  target_path = "";
  metadata_path = "";
}

abbrev to_tag : ManifestOptions
to_tag = record no_manifest_options { tag = "v1" }

-- The tag is taken beside the ref, and the merged checkout is then refused.
modify_repository-validate_example :
    (validate_checkout (set_checkout to_tag by_ref) ≡ ok tt) ↔ (by_ref.ref ≡ "")
unfolding modify_repository
modify_repository-validate_example = modify_repository-validate to_tag repo_by_ref by_ref refl refl
