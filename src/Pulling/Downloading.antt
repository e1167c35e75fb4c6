-- ===== src/Pulling/Downloading.antt =====
-- Download: when it succeeds, and that the repository is open then.
use airshipctl.Base.{
  String, Bool, true, false, if◌then◌else◌, Outcome-cases, Bool-cases, ok, err, crash, ◌≡◌, ◌≢◌,
  ◌↔◌, ◌⊎◌, inl, inr, refl, ap, sym, ◌∙◌, arith,
}
use airshipctl.Base.Procs.{pure, >>=-inv, >>=-intro}
use airshipctl.Config.Repo.{Git}
use airshipctl.Pulling.{
  repository_already_exists, already_up_to_date, git_failed, parse_url, no_open_repo, git_error,
  fetch_failed, auth_failed, worktree_failed, config_error, Reply, GoGit, unless_current, Driver,
  Method, Repo, is_open, driver_open, checkout, fetch, clone, opened_instead, clone_or_open,
  fetch_and_checkout, download,
}

-- The fetch of an up-to-date repository is no failure.
unless_current-eq-ok :
    (name : String) (r : Reply Unit)
    → (unless_current name r ≡ ok tt) ↔ ((r ≡ ok tt) ⊎ (r ≡ err (git_error already_up_to_date)))
unless_current-eq-ok name (ok u) = (λ h. inl refl, λ h. refl)
unless_current-eq-ok name (crash k) = ground arith
unless_current-eq-ok name (err (git_error already_up_to_date)) = (λ h. inr refl, λ h. refl)
unless_current-eq-ok name (err (git_error repository_already_exists)) = ground arith
unless_current-eq-ok name (err (git_error (git_failed t))) = ground arith
unless_current-eq-ok name (err (parse_url t)) = ground arith
unless_current-eq-ok name (err no_open_repo) = ground arith
unless_current-eq-ok name (err (fetch_failed t e)) = ground arith
unless_current-eq-ok name (err (auth_failed t e)) = ground arith
unless_current-eq-ok name (err (worktree_failed e)) = ground arith
unless_current-eq-ok name (err (config_error e)) = ground arith

module _ (G : Git) (X : GoGit G) where
  -- The driver was open, or the repository was cloned, or it exists already and was opened.
  abbrev pub Opened : Repo G X → Driver G X → Driver G X → Type 0
  Opened r s s' =
      ((is_open G X s ≡ true) × (s' ≡ s))
      ⊎ ((is_open G X s ≡ false) × (clone G X r s ≡ (ok tt, s')))
      ⊎ ((is_open G X s ≡ false)
          × ((s₁ : Driver G X) × (clone G X r s ≡ (err (git_error repository_already_exists), s₁))
              × (driver_open G X r.path s₁ ≡ (ok tt, s'))))

  -- The refs were fetched, or there was nothing to fetch.
  abbrev pub Fetched : Repo G X → Driver G X → Driver G X → Type 0
  Fetched r s s' =
      ((fetch G X r s).1 ≡ s')
      × (((fetch G X r s).0 ≡ ok tt) ⊎ ((fetch G X r s).0 ≡ err (git_error already_up_to_date)))

  abbrev EndsOk : Repo G X → Reply Unit × Driver G X → Driver G X → Type 0
  EndsOk r p s' = (opened_instead G X r p ≡ (ok tt, s')) ↔ (
      (p ≡ (ok tt, s'))
      ⊎ ((s₁ : Driver G X) × (p ≡ (err (git_error repository_already_exists), s₁))
          × (driver_open G X r.path s₁ ≡ (ok tt, s'))))

  passed_on :
      (r : Repo G X) (p : Reply Unit × Driver G X) (s' : Driver G X)
      → opened_instead G X r p ≡ p
      → p.0 ≢ err (git_error repository_already_exists)
      → EndsOk r p s'
  passed_on r p s' same other = (
    λ h. inl (sym same ∙ h),
    λ q. elim q [ inl h ↦ same ∙ h | inr (s₁, e, f) ↦ absurd (other (ap (λ x. x.0) e)) ],
  )

  opened-EndsOk :
      (r : Repo G X) (s s' : Driver G X)
      → EndsOk r (err (git_error repository_already_exists), s) s'
  opened-EndsOk r s s' = elim (Outcome-cases (driver_open G X r.path s).0) [
    | inl (u, e) ↦ (
      λ h. inr (s, refl, ground arith),
      λ q. elim q [ inl h ↦ absurd (ground arith) | inr (s₁, d, f) ↦ ground arith ],
    )
    | inr (inl (x, e)) ↦ (
      λ h. absurd (ground arith),
      λ q. elim q [ inl h ↦ absurd (ground arith) | inr (s₁, d, f) ↦ ground arith ],
    )
    | inr (inr (k, e)) ↦ (
      λ h. absurd (ground arith),
      λ q. elim q [ inl h ↦ absurd (ground arith) | inr (s₁, d, f) ↦ ground arith ],
    )
  ]

  opened_instead-EndsOk :
      (r : Repo G X) (p : Reply Unit × Driver G X) (s' : Driver G X) → EndsOk r p s'
  opened_instead-EndsOk r (err (git_error repository_already_exists), s) s' = opened-EndsOk r s s'
  opened_instead-EndsOk r (ok u, s) s' = passed_on r _ s' refl (λ e. cc)
  opened_instead-EndsOk r (crash k, s) s' = passed_on r _ s' refl (λ e. cc)
  opened_instead-EndsOk r (err (git_error already_up_to_date), s) s' =
      passed_on r _ s' refl (λ e. cc)
  opened_instead-EndsOk r (err (git_error (git_failed t)), s) s' = passed_on r _ s' refl (λ e. cc)
  opened_instead-EndsOk r (err (parse_url t), s) s' = passed_on r _ s' refl (λ e. cc)
  opened_instead-EndsOk r (err no_open_repo, s) s' = passed_on r _ s' refl (λ e. cc)
  opened_instead-EndsOk r (err (fetch_failed t e), s) s' = passed_on r _ s' refl (λ e. cc)
  opened_instead-EndsOk r (err (auth_failed t e), s) s' = passed_on r _ s' refl (λ e. cc)
  opened_instead-EndsOk r (err (worktree_failed e), s) s' = passed_on r _ s' refl (λ e. cc)
  opened_instead-EndsOk r (err (config_error e), s) s' = passed_on r _ s' refl (λ e. cc)

  clone_or_open-Opened :
      (r : Repo G X) (s s' : Driver G X) → (clone_or_open G X r s ≡ (ok tt, s')) ↔ Opened r s s'
  unfolding clone_or_open
  clone_or_open-Opened r s s' = elim (Bool-cases (is_open G X s)) [
    | inl o ↦ (
      λ h. inl (o, ground arith),
      λ q. elim q [
        | inl (_, e) ↦ ground arith
        | inr (inl (c, _)) ↦ absurd (ground arith)
        | inr (inr (c, _)) ↦ absurd (ground arith)
      ],
    )
    | inr c ↦
        let (there, back) = opened_instead-EndsOk r (clone G X r s) s' in
        (
          λ h. elim (there (rw c at h)) [
            | inl e ↦ inr (inl (c, e))
            | inr found ↦ inr (inr (c, found))
          ],
          λ q. elim q [
            | inl (o, _) ↦ absurd (ground arith)
            | inr (inl (_, e)) ↦ rw c (back (inl e))
            | inr (inr (_, found)) ↦ rw c (back (inr found))
          ],
        )
  ]

  fetch_and_checkout-Fetched :
      (r : Repo G X) (s s' : Driver G X)
      → (fetch_and_checkout G X r s ≡ (ok tt, s'))
        ↔ ((s₂ : Driver G X) × Fetched r s s₂ × (checkout G X r s₂ ≡ (ok tt, s')))
  unfolding fetch_and_checkout
  fetch_and_checkout-Fetched r s s' =
      let (there, back) = unless_current-eq-ok r.name (fetch G X r s).0 in
      let m : Method G X Unit =
        λ s. let (res, s') = fetch G X r s in (unless_current r.name res, s') in
      (
        λ h.
            let (u, e, f) = >>=-inv m (λ _. checkout G X r) s h in
            ((fetch G X r s).1, (refl, there e), f),
        λ (s₂, (e, q), f). >>=-intro m (λ _. checkout G X r) s tt (back q) ∙ rw e f,
      )

  -- Download succeeds exactly if the repository is open, or is cloned, or exists and is opened, and
  -- then, unless no checkout is wanted, the refs are fetched or current and the checkout succeeds.
  pub download-eq-ok :
      (r : Repo G X) (no_checkout : Bool) (s s' : Driver G X)
      → (download G X r no_checkout s ≡ (ok tt, s')) ↔ (
          (s₁ : Driver G X) × Opened r s s₁
          × (((no_checkout ≡ true) × (s' ≡ s₁))
              ⊎ ((no_checkout ≡ false)
                  × ((s₂ : Driver G X) × Fetched r s₁ s₂ × (checkout G X r s₂ ≡ (ok tt, s'))))))
  unfolding download
  download-eq-ok r no_checkout s s' = (
    λ h.
        let (u, e, f) =
          >>=-inv (clone_or_open G X r)
            (λ _. if no_checkout then pure tt else fetch_and_checkout G X r) s h in
        let s₁ = (clone_or_open G X r s).1 in
        let opened = (clone_or_open-Opened r s s₁).0 (ground arith) in
        elim (Bool-cases no_checkout) [
          | inl n ↦ (s₁, opened, inl (n, ground arith))
          | inr n ↦ (s₁, opened, inr (n, (fetch_and_checkout-Fetched r s₁ s').0 (rw n at f)))
        ],
    λ (s₁, opened, q).
        let e = (clone_or_open-Opened r s s₁).1 opened in
        elim q [
          | inl (n, same) ↦ ground arith
          | inr (n, found) ↦ let f = (fetch_and_checkout-Fetched r s₁ s').1 found in ground arith
        ],
  )
