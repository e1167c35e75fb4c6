-- ===== src/Pulling/Pulls.antt =====
-- Pull downloads every repository of the manifest, and a download leaves its repository open.
use airshipctl.Base.{
  String, Bool, true, false, Option, none, some, List, [], ◌∷◌, Outcome-cases, Bool-cases,
  Option-cases, ok, err, ◌==◌, ◌≡◌, ◌≢◌, ◌↔◌, inl, inr, refl, subst, arith, eq_iff, eqb_false→ne,
}
use airshipctl.Base.Paths.{join, git_dir_name_from_url}
use airshipctl.Base.Procs.{lift, >>=-inv}
use airshipctl.Config.Types.{Repository, Manifest}
use airshipctl.Config.Repo.{Git, CloneOptions, to_auth, to_clone_options, validate_repository}
use airshipctl.Pulling.{
  no_open_repo, GoGit, settings, auth_failed, Driver, Repo, is_open, driver_open, driver_clone,
  driver_fetch, driver_worktree, checkout, fetch, clone, update, download, new_repository, pull_one,
  pull_all,
}
use airshipctl.Pulling.Downloading.{Opened, download-eq-ok}

module _ (G : Git) (X : GoGit G) where
  open X use {World}

  fetch_keeps : (r : Repo G X) (s : Driver G X) → (fetch G X r s).1.repository ≡ s.repository
  unfolding fetch driver_fetch
  fetch_keeps r s = elim (Option-cases s.repository) [
    | inl e ↦ ground arith
    | inr (h, e) ↦ elim (Outcome-cases (settings (auth_failed r.name) (to_auth G r.builder))) [
      | inl (auth, f) ↦ ground arith
      | inr (inl (x, f)) ↦ ground arith
      | inr (inr (k, f)) ↦ ground arith
    ]
  ]

  checkout_keeps : (r : Repo G X) (s : Driver G X) → (checkout G X r s).1.repository ≡ s.repository
  unfolding checkout driver_worktree
  checkout_keeps r s = elim (Option-cases s.repository) [
    | inl e ↦ ground arith
    | inr (h, e) ↦ elim (Outcome-cases (X.worktree h s.world).0) [
      | inl (tree, f) ↦ ground arith
      | inr (inl (x, f)) ↦ ground arith
      | inr (inr (k, f)) ↦ ground arith
    ]
  ]

  driver_open-open :
      (path : String) (s s' : Driver G X)
      → driver_open G X path s ≡ (ok tt, s')
      → is_open G X s' ≡ true
  unfolding driver_open
  driver_open-open path s s' h = elim (Outcome-cases (X.open_repository path s.world).0) [
    | inl (r, e) ↦ ground arith
    | inr (inl (x, e)) ↦ absurd (ground arith)
    | inr (inr (k, e)) ↦ absurd (ground arith)
  ]

  driver_clone-open :
      (path : String) (co : CloneOptions G) (s s' : Driver G X)
      → driver_clone G X path co s ≡ (ok tt, s')
      → is_open G X s' ≡ true
  unfolding driver_clone
  driver_clone-open path co s s' h = elim (Outcome-cases (X.clone path co s.world).0) [
    | inl (r, e) ↦ ground arith
    | inr (inl (x, e)) ↦ absurd (ground arith)
    | inr (inr (k, e)) ↦ absurd (ground arith)
  ]

  clone-open :
      (r : Repo G X) (s s' : Driver G X) → clone G X r s ≡ (ok tt, s') → is_open G X s' ≡ true
  unfolding clone
  clone-open r s s' h =
      let (auth, e, f) =
        >>=-inv (lift (settings (auth_failed r.name) (to_auth G r.builder)))
          (λ auth. driver_clone G X r.path (to_clone_options G auth r.builder)) s h in
      driver_clone-open r.path (to_clone_options G auth r.builder) s s' f

  Opened-open : (r : Repo G X) (s s' : Driver G X) → Opened G X r s s' → is_open G X s' ≡ true
  Opened-open r s s' (inl (o, e)) = ground arith
  Opened-open r s s' (inr (inl (_, c))) = clone-open r s s' c
  Opened-open r s s' (inr (inr (_, (s₁, _, o)))) = driver_open-open r.path s₁ s' o

  -- After a Download that succeeded the repository is open.
  pub download_opens :
      (r : Repo G X) (no_checkout : Bool) (s s' : Driver G X)
      → download G X r no_checkout s ≡ (ok tt, s')
      → is_open G X s' ≡ true
  download_opens r no_checkout s s' h =
      let (s₁, opened, q) = (download-eq-ok G X r no_checkout s s').0 h in
      elim q [
        | inl (n, e) ↦ rw e (Opened-open r s s₁ opened)
        | inr (n, (s₂, (f, _), c)) ↦
            ground (arith, Opened-open r s s₁ opened, fetch_keeps r s₁, checkout_keeps r s₂)
      ]

  -- On a driver that is not open, Fetch, Update and Checkout report that, and do nothing at all.
  pub closed_refused :
      (r : Repo G X) (s : Driver G X)
      → is_open G X s ≡ false
      → (fetch G X r s ≡ (err no_open_repo, s))
        × (update G X r s ≡ (err no_open_repo, s))
        × (checkout G X r s ≡ (err no_open_repo, s))
  unfolding fetch update checkout
  closed_refused r s h = (ground arith, ground arith, ground arith)

  module _ (manifest : Manifest) (no_checkout : Bool) where
    -- The settings of the repository hold, its address has a name, and it was downloaded to the
    -- directory of this name.
    pub data Pulled : Option Repository → World → World → Type 0 where
      pulled :
          {repo : Repository} {w : World} {s : Driver G X}
          → validate_repository repo ≡ ok tt
          → git_dir_name_from_url repo.url_string ≢ ""
          → X.storage_at (join (manifest.target_path ∷ git_dir_name_from_url repo.url_string ∷ []))
            ≡ ok tt
          → download G X
              (record {
                name = git_dir_name_from_url repo.url_string;
                path = join (manifest.target_path ∷ git_dir_name_from_url repo.url_string ∷ []);
                builder = repo;
              })
              no_checkout
              (record { repository = none; world = w })
            ≡ (ok tt, s)
          → Pulled (some repo) w s.world

    pub data AllPulled : List (String × Option Repository) → World → World → Type 0 where
      none_left : {w : World} → AllPulled [] w w
      one_more :
          {name : String} {repo : Option Repository} {rest : List (String × Option Repository)}
          {w w₁ w' : World}
          → Pulled repo w w₁
          → AllPulled rest w₁ w'
          → AllPulled ((name, repo) ∷ rest) w w'

    pull_one-Pulled :
        (repo : Option Repository) (w w' : World)
        → pull_one G X manifest no_checkout repo w ≡ (ok tt, w')
        → Pulled repo w w'
    unfolding pull_one new_repository
    pull_one-Pulled none w w' h = cc
    pull_one-Pulled (some repo) w w' h =
        let name = git_dir_name_from_url repo.url_string in
        let path = join (manifest.target_path ∷ name ∷ []) in
        let d =
          download G X (record { name = name; path = path; builder = repo }) no_checkout
            (record { repository = none; world = w }) in
        elim (Outcome-cases (validate_repository repo)) [
          | inr (inl (x, v)) ↦ absurd (ground arith)
          | inr (inr (k, v)) ↦ absurd (ground arith)
          | inl (u, v) ↦ elim (Bool-cases (name == "")) [
            | inl n ↦ absurd (ground arith)
            | inr n ↦ elim (Outcome-cases (X.storage_at path)) [
              | inr (inl (x, st)) ↦ absurd (ground arith)
              | inr (inr (k, st)) ↦ absurd (ground arith)
              | inl (u', st) ↦
                  let e : d.0 ≡ ok tt = ground arith in
                  let f : d.1.world ≡ w' = ground arith in
                  subst (λ v. Pulled (some repo) w v) f
                    (pulled {s = d.1} v (eqb_false→ne name "" n) st (ground arith))
            ]
          ]
        ]

    Pulled-pull_one :
        (repo : Option Repository) (w w' : World)
        → Pulled repo w w'
        → pull_one G X manifest no_checkout repo w ≡ (ok tt, w')
    unfolding pull_one new_repository
    Pulled-pull_one _ w _ (pulled {repo = repo} v n st d) =
        ground (arith, eq_iff (git_dir_name_from_url repo.url_string) "")

    pull_all-AllPulled :
        (repos : List (String × Option Repository)) (w w' : World)
        → pull_all G X manifest no_checkout repos w ≡ (ok tt, w')
        → AllPulled repos w w'
    unfolding pull_all
    pull_all-AllPulled [] w w' h =
        let e : w ≡ w' = ground arith in subst (λ v. AllPulled [] w v) e none_left
    pull_all-AllPulled ((name, repo) ∷ rest) w w' h =
        let (u, e, f) =
          >>=-inv (pull_one G X manifest no_checkout repo)
            (λ _. pull_all G X manifest no_checkout rest) w h in
        one_more (pull_one-Pulled repo w _ (ground arith)) (pull_all-AllPulled rest _ w' f)

    AllPulled-pull_all :
        (repos : List (String × Option Repository)) (w w' : World)
        → AllPulled repos w w'
        → pull_all G X manifest no_checkout repos w ≡ (ok tt, w')
    unfolding pull_all
    AllPulled-pull_all _ w _ none_left = refl
    AllPulled-pull_all _ w w' (one_more {repo = repo} p ps) =
        let e = Pulled-pull_one repo w _ p in let f = AllPulled-pull_all _ _ w' ps in ground arith

    -- The loop of Pull succeeds exactly if the repositories of the manifest, one after the other, have
    -- valid settings and are downloaded, each by a driver of its own.
    pub pull_all-eq-ok :
        (repos : List (String × Option Repository)) (w w' : World)
        → (pull_all G X manifest no_checkout repos w ≡ (ok tt, w')) ↔ AllPulled repos w w'
    pull_all-eq-ok repos w w' = (pull_all-AllPulled repos w w', AllPulled-pull_all repos w w')
