-- ===== src/Config/Repo/Checks.antt =====
-- The checks of repo.go against what they promise, and what go-git is handed after them.
use airshipctl.Base.{
  String, some, if◌then◌else◌, ok, ◌>>=◌, ◌≡◌, refl, subst, ap, ◌∙◌, ◌≢◌, ◌⊎◌, inl, inr, arith,
  eq_iff,
}
use airshipctl.Config.Types.{RepoAuth, RepoCheckout, Repository}
use airshipctl.Config.Repo.{
  ssh_auth, ssh_pass, http_basic, no_auth, validate_auth, validate_checkout, Git, password,
  basic_auth, nil_method, public_keys, to_auth, to_checkout_options,
}

-- Only the credentials of the type are given.
abbrev pub HoldsOnlyItsOwn : RepoAuth → Type 0
HoldsOnlyItsOwn auth =
    ((auth.type ≡ ssh_auth) × (auth.http_password ≡ "") × (auth.ssh_password ≡ ""))
    ⊎ ((auth.type ≡ http_basic)
        × (auth.ssh_password ≡ "")
        × (auth.key_path ≡ "")
        × (auth.key_password ≡ ""))
    ⊎ ((auth.type ≡ ssh_pass)
        × (auth.key_path ≡ "")
        × (auth.key_password ≡ "")
        × (auth.http_password ≡ ""))
    ⊎ (auth.type ≡ no_auth)

validate-HoldsOnlyItsOwn : (auth : RepoAuth) → validate_auth auth ≡ ok tt → HoldsOnlyItsOwn auth
unfolding validate_auth
validate-HoldsOnlyItsOwn auth h = ground (
  arith,
  eq_iff auth.type ssh_auth,
  eq_iff auth.type http_basic,
  eq_iff auth.type ssh_pass,
  eq_iff auth.type no_auth,
  eq_iff ssh_auth auth.type,
  eq_iff http_basic auth.type,
  eq_iff ssh_pass auth.type,
  eq_iff no_auth auth.type,
  eq_iff auth.http_password "",
  eq_iff auth.ssh_password "",
  eq_iff auth.key_path "",
  eq_iff auth.key_password "",
)

module _ (G : Git) where
  method_at_type :
      (repo : Repository) (auth : RepoAuth) (t : String)
      → repo.auth ≡ some auth
      → auth.type ≡ t
      → to_auth G repo ≡ to_auth G (record repo { auth = some (record auth { type = t }) })
  method_at_type repo auth t e e' =
      subst
        (λ t. to_auth G repo ≡ to_auth G (record repo { auth = some (record auth { type = t }) }))
        e' (subst (λ a. to_auth G repo ≡ to_auth G (record repo { auth = a })) e refl)

  -- What ToAuth makes of a validated authentication, type by type: ssh-key calls the key loader,
  -- http-basic uses its password, none uses no method, and ssh-pass always has the empty password,
  -- for it reads HTTPPassword, which the check wants empty, in place of SSHPassword.
  pub to_auth-valid :
      (repo : Repository) (auth : RepoAuth)
      → repo.auth ≡ some auth
      → validate_auth auth ≡ ok tt
      → ((auth.type ≡ ssh_auth)
          × (to_auth G repo ≡ (
              G.new_public_keys_from_file auth.username auth.key_path auth.key_password >>= λ keys.
              ok (public_keys keys))))
        ⊎ ((auth.type ≡ http_basic)
            × (to_auth G repo ≡ ok (basic_auth auth.username auth.http_password)))
        ⊎ ((auth.type ≡ ssh_pass) × (to_auth G repo ≡ ok (password auth.username "")))
        ⊎ ((auth.type ≡ no_auth) × (to_auth G repo ≡ ok nil_method))
  unfolding to_auth
  to_auth-valid repo auth e h = elim (validate-HoldsOnlyItsOwn auth h) [
    | inl (t, p, q) ↦ inl (t, method_at_type repo auth ssh_auth e t)
    | inr (inl (t, p, q, r)) ↦ inr (inl (t, method_at_type repo auth http_basic e t))
    | inr (inr (inl (t, p, q, r))) ↦ inr (
        inr (
          inl
            (t, method_at_type repo auth ssh_pass e t ∙ ap (λ w. ok (password auth.username w)) r)))
    | inr (inr (inr t)) ↦ inr (inr (inr (t, method_at_type repo auth no_auth e t)))
  ]

  -- A validated checkout selects what it names: its branch (local or of the default remote), its tag,
  -- its commit or its ref, whichever of these is set, with its force flag; so none hides another.
  pub to_checkout_options-valid :
      (repo : Repository) (c : RepoCheckout)
      → repo.checkout_options ≡ some c
      → validate_checkout c ≡ ok tt
      → let co = to_checkout_options G repo in
        (co.force ≡ c.force_checkout)
        × (c.branch ≢ ""
            → (co.hash ≡ G.zero_hash)
              × (co.branch ≡ (
                  if c.local_branch
                  then G.new_branch_reference_name c.branch
                  else G.new_remote_reference_name G.default_remote_name c.branch)))
        × (c.tag ≢ "" → (co.hash ≡ G.zero_hash) × (co.branch ≡ G.new_tag_reference_name c.tag))
        × (c.commit_hash ≢ "" → (co.hash ≡ G.new_hash c.commit_hash) × (co.branch ≡ G.no_reference))
        × (c.ref ≢ "" → (co.hash ≡ G.zero_hash) × (co.branch ≡ G.reference_name c.ref))
  unfolding to_checkout_options validate_checkout
  to_checkout_options-valid repo c e h =
      ground (arith, eq_iff c.branch "", eq_iff c.tag "", eq_iff c.commit_hash "", eq_iff c.ref "")
