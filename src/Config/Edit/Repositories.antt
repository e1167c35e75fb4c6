-- ===== src/Config/Edit/Repositories.antt =====
-- ModifyRepository and ModifyManifest of config.go: when they succeed and what they leave.
use airshipctl.Base.{◌||◌, some, ok, err, ◌≡◌, ◌≢◌, ◌↔◌, ◌⊎◌, arith, eq_iff}
use airshipctl.Config.Types.{
  RepoCheckout, Repository, ManifestOptions, missing_repo_checkout_options,
}
use airshipctl.Config.Repo.{validate_checkout}
use airshipctl.Config.Edit.{modify_repository, set_checkout, overwrite}

-- Exactly one of commit, branch and tag is given.
abbrev pub NamesOne : RepoCheckout → Type 0
NamesOne c =
    ((c.commit_hash ≢ "") × (c.branch ≡ "") × (c.tag ≡ ""))
    ⊎ ((c.commit_hash ≡ "") × (c.branch ≢ "") × (c.tag ≡ ""))
    ⊎ ((c.commit_hash ≡ "") × (c.branch ≡ "") × (c.tag ≢ ""))

module _ (o : ManifestOptions) (r : Repository) (c : RepoCheckout)
    (has : r.checkout_options ≡ some c) where
  -- What ModifyRepository leaves, also where it returns an error: every option that is given
  -- replaces its field, force can only be switched on, and authentication, fetch options, ref and
  -- local branch stay.
  pub modify_repository_after :
      let r' = (modify_repository o r).1 in
      (r'.url_string ≡ overwrite o.url r.url_string)
      × (r'.auth ≡ r.auth)
      × (r'.fetch_options ≡ r.fetch_options)
      × (r'.checkout_options
          ≡ some (record {
            commit_hash = overwrite o.commit_hash c.commit_hash;
            branch = overwrite o.branch c.branch;
            tag = overwrite o.tag c.tag;
            ref = c.ref;
            force_checkout = o.force || c.force_checkout;
            local_branch = c.local_branch;
          }))
  unfolding modify_repository
  modify_repository_after = ground arith

  -- It succeeds exactly when the merged checkout names one of commit, branch and tag.
  pub modify_repository-eq-ok : ((modify_repository o r).0 ≡ ok tt) ↔ NamesOne (set_checkout o c)
  unfolding modify_repository
  modify_repository-eq-ok = ground (
    arith,
    eq_iff (set_checkout o c).commit_hash "",
    eq_iff (set_checkout o c).branch "",
    eq_iff (set_checkout o c).tag "",
  )

  -- What it accepts passes RepoCheckout.Validate exactly when no ref was set before: ModifyRepository
  -- leaves the ref out of its count, and no option clears it.
  pub modify_repository-validate :
      (modify_repository o r).0 ≡ ok tt
      → (validate_checkout (set_checkout o c) ≡ ok tt) ↔ (c.ref ≡ "")
  unfolding modify_repository validate_checkout
  modify_repository-validate h = ground (
    arith,
    eq_iff (set_checkout o c).commit_hash "",
    eq_iff (set_checkout o c).branch "",
    eq_iff (set_checkout o c).tag "",
    eq_iff c.ref "",
  )

  -- A repository that is checked out by a ref alone cannot be changed without naming another way.
  pub modify_repository_of_ref :
      c.commit_hash ≡ ""
      → c.branch ≡ ""
      → c.tag ≡ ""
      → o.commit_hash ≡ ""
      → o.branch ≡ ""
      → o.tag ≡ ""
      → (modify_repository o r).0 ≡ err missing_repo_checkout_options
  unfolding modify_repository
  modify_repository_of_ref p₁ p₂ p₃ q₁ q₂ q₃ = ground (
    arith,
    eq_iff o.commit_hash "",
    eq_iff o.branch "",
    eq_iff o.tag "",
    eq_iff c.commit_hash "",
    eq_iff c.branch "",
    eq_iff c.tag "",
  )
