-- ===== src/Config/Repo.antt =====
-- repo.go: the checks of a repository's settings and their translation for go-git. go-git itself is
-- the parameter `Git`.
pub mod Checks
use airshipctl.Base.{
  ℕ, suc, String, ◌<>◌, ◌==◌, is_set, ltb, Bool, true, false, ◌||◌, Option, none, some, List, [],
  ◌∷◌, if◌then◌else◌, ok, err, ◌>>=◌, ◌>>◌, reject_if,
}
use airshipctl.Config.Types.{
  RepoAuth, RepoCheckout, RepoFetch, Repository, Reply, auth_type_not_supported,
  incompatible_auth_options, mutually_exclusive_checkout, repo_spec_requires_url, not_implemented,
}

abbrev pub ssh_auth : String
ssh_auth = "ssh-key"

abbrev pub ssh_pass : String
ssh_pass = "ssh-pass"

abbrev pub http_basic : String
http_basic = "http-basic"

abbrev pub no_auth : String
no_auth = "none"

abbrev pub allowed_auth_types : List String
allowed_auth_types = ssh_auth ∷ ssh_pass ∷ http_basic ∷ no_auth ∷ []

-- How many of the values are not empty: the counting loop of every check of checkout options.
unfoldable pub count_set : List String → ℕ
count_set [] = 0
count_set (val ∷ rest) = let more = count_set rest in if is_set val then suc more else more

unfoldable pub string_in_slice : String → List String → Bool
string_in_slice a [] = false
string_in_slice a (b ∷ list) = let later = string_in_slice a list in if b == a then true else later

-- RepoCheckout.Validate
unfoldable pub validate_checkout : RepoCheckout → Reply Unit
unfolding count_set
validate_checkout c =
    reject_if (ltb 1 (count_set (c.commit_hash ∷ c.branch ∷ c.tag ∷ c.ref ∷ [])))
      mutually_exclusive_checkout

-- RepoAuth.Validate
unfoldable pub validate_auth : RepoAuth → Reply Unit
unfolding string_in_slice
validate_auth auth =
    if string_in_slice auth.type allowed_auth_types
    then if auth.type == ssh_auth
      then reject_if (is_set auth.http_password || is_set auth.ssh_password)
          (incompatible_auth_options ("http-pass, ssh-pass" ∷ []) auth.type)
      else if auth.type == http_basic
      then reject_if (is_set auth.ssh_password || is_set auth.key_path || is_set auth.key_password)
          (incompatible_auth_options ("ssh-pass, ssh-key, key-pass" ∷ []) auth.type)
      else if auth.type == ssh_pass
      then reject_if (is_set auth.key_path || is_set auth.key_password || is_set auth.http_password)
          (incompatible_auth_options ("ssh-key, key-pass, http-pass" ∷ []) auth.type)
      else ok tt
    else err auth_type_not_supported

validate_auth_field : Option RepoAuth → Reply Unit
unfolding validate_auth
validate_auth_field none = ok tt
validate_auth_field (some auth) = validate_auth auth

validate_checkout_field : Option RepoCheckout → Reply Unit
unfolding validate_checkout
validate_checkout_field none = ok tt
validate_checkout_field (some c) = validate_checkout c

-- Repository.Validate
unfoldable pub validate_repository : Repository → Reply Unit
unfolding validate_auth_field validate_checkout_field
validate_repository repo = do
  reject_if (repo.url_string == "") repo_spec_requires_url
  validate_auth_field repo.auth
  validate_checkout_field repo.checkout_options

-- What repo.go takes from go-git.
pub record Git : Type 1 where
  pub PublicKeys : Type 0
  pub ReferenceName : Type 0
  pub Hash : Type 0
  pub no_reference : ReferenceName
  pub zero_hash : Hash
  pub default_remote_name : String
  pub new_public_keys_from_file : String → String → String → Reply PublicKeys
  pub new_branch_reference_name : String → ReferenceName
  pub new_remote_reference_name : String → String → ReferenceName
  pub new_tag_reference_name : String → ReferenceName
  pub reference_name : String → ReferenceName
  pub new_hash : String → Hash
  pub validate_ref_spec : String → Reply Unit

module _ (G : Git) where
  open G use {ReferenceName, Hash, PublicKeys}

  -- transport.AuthMethod, with its nil value
  pub data AuthMethod : Type 0 where
    nil_method : AuthMethod
    public_keys : PublicKeys → AuthMethod
    password basic_auth : String → String → AuthMethod

  pub record CheckoutOptions : Type 0 where
    pub hash : Hash
    pub branch : ReferenceName
    pub force : Bool

  pub record CloneOptions : Type 0 where
    pub auth : AuthMethod
    pub url : String
    pub remote_name : String

  pub record FetchOptions : Type 0 where
    pub auth : AuthMethod
    pub ref_specs : List String

  -- RepoFetch.Validate
  unfoldable pub validate_fetch : RepoFetch → Reply Unit
  validate_fetch rf =
      if is_set rf.remote_ref_spec then G.validate_ref_spec rf.remote_ref_spec else ok tt

  auth_method : RepoAuth → Reply AuthMethod
  auth_method auth =
      if auth.type == no_auth
      then ok nil_method
      else if auth.type == ssh_auth
      then (G.new_public_keys_from_file auth.username auth.key_path auth.key_password >>= λ keys.
          ok (public_keys keys))
      else if auth.type == ssh_pass
      then ok (password auth.username auth.http_password)
      else if auth.type == http_basic
      then ok (basic_auth auth.username auth.http_password)
      else err (not_implemented ("authtype " <> auth.type))

  auth_method_field : Option RepoAuth → Reply AuthMethod
  unfolding auth_method
  auth_method_field none = ok nil_method
  auth_method_field (some auth) = auth_method auth

  -- Repository.ToAuth
  unfoldable pub to_auth : Repository → Reply AuthMethod
  unfolding auth_method_field
  to_auth repo = auth_method_field repo.auth

  checkout_options_of : RepoCheckout → CheckoutOptions
  checkout_options_of c =
      let co = λ (h : Hash) (b : ReferenceName).
        let o : CheckoutOptions = record { hash = h; branch = b; force = c.force_checkout } in o in
      if is_set c.branch
      then co G.zero_hash (
          if c.local_branch
          then G.new_branch_reference_name c.branch
          else G.new_remote_reference_name G.default_remote_name c.branch)
      else if is_set c.tag
      then co G.zero_hash (G.new_tag_reference_name c.tag)
      else if is_set c.commit_hash
      then co (G.new_hash c.commit_hash) G.no_reference
      else if is_set c.ref
      then co G.zero_hash (G.reference_name c.ref)
      else co G.zero_hash G.no_reference

  checkout_options_field : Option RepoCheckout → CheckoutOptions
  unfolding checkout_options_of
  checkout_options_field none = record {
    hash = G.zero_hash;
    branch = G.no_reference;
    force = false;
  }
  checkout_options_field (some c) = checkout_options_of c

  -- Repository.ToCheckoutOptions
  unfoldable pub to_checkout_options : Repository → CheckoutOptions
  unfolding checkout_options_field
  to_checkout_options repo = checkout_options_field repo.checkout_options

  -- Repository.ToCloneOptions
  unfoldable pub to_clone_options : AuthMethod → Repository → CloneOptions
  to_clone_options auth repo = record {
    auth = auth;
    url = repo.url_string;
    remote_name = G.default_remote_name;
  }

  ref_specs_of : Option RepoFetch → List String
  ref_specs_of none = []
  ref_specs_of (some rf) = if is_set rf.remote_ref_spec then rf.remote_ref_spec ∷ [] else []

  -- Repository.ToFetchOptions
  unfoldable pub to_fetch_options : AuthMethod → Repository → FetchOptions
  unfolding ref_specs_of
  to_fetch_options auth repo = record { auth = auth; ref_specs = ref_specs_of repo.fetch_options }
