-- ===== src/Pulling.antt =====
-- pkg/document/repo and pkg/document/pull: how the repositories of a manifest are cloned, opened,
-- fetched and checked out. go-git is the parameter `GoGit`.
pub mod Downloading
pub mod Pulls
use airshipctl.Base.{
  String, ◌==◌, Bool, true, false, Option, none, some, List, [], ◌∷◌, if◌then◌else◌, Outcome, Proc,
  ok, err, crash, nil_pointer, reject_if, deref, ◌≡◌,
}
use airshipctl.Base.Procs.{◌>>=◌, ◌>>◌, pure, lift}
use airshipctl.Base.GoMap.{entries}
use airshipctl.Base.Paths.{join, git_dir_name_from_url}
use airshipctl.Config.Types.{Config, ConfigError, Repository, Manifest}
use airshipctl.Config.Types.{Reply as ConfigReply}
use airshipctl.Config.Lookup.{current_context_manifest}
use airshipctl.Config.Repo.{
  Git, AuthMethod, CloneOptions, FetchOptions, CheckoutOptions, validate_repository, to_auth,
  to_clone_options, to_checkout_options, to_fetch_options,
}

-- The errors that the code tells apart, and any other.
pub data GitError : Type 0 where
  repository_already_exists already_up_to_date : GitError
  git_failed : String → GitError

pub data RepoError : Type 0 where
  parse_url : String → RepoError
  no_open_repo : RepoError
  git_error : GitError → RepoError
  fetch_failed : String → RepoError → RepoError
  auth_failed : String → ConfigError → RepoError
  worktree_failed : RepoError → RepoError
  config_error : ConfigError → RepoError

abbrev pub Reply : Type 0 → Type 0
Reply A = Outcome RepoError A

pub record GoGit (G : Git) : Type 1 where
  pub World : Type 0
  pub Handle : Type 0
  pub Worktree : Type 0
  -- the storage below a directory
  pub storage_at : String → Outcome GitError Unit
  pub open_repository : String → Proc World GitError Handle
  pub clone : String → CloneOptions G → Proc World GitError Handle
  pub fetch : Handle → FetchOptions G → Proc World GitError Unit
  pub worktree : Handle → Proc World GitError Worktree
  pub checkout : Worktree → CheckoutOptions G → Proc World GitError Unit

-- An error of the settings, passed on as what `wrap` makes of it.
abbrev pub settings : {A : Type 0} → (ConfigError → RepoError) → ConfigReply A → Reply A
settings wrap (ok a) = ok a
settings wrap (err e) = err (wrap e)
settings wrap (crash k) = crash k

abbrev pub git_reply : {A : Type 0} → Outcome GitError A → Reply A
git_reply (ok a) = ok a
git_reply (err e) = err (git_error e)
git_reply (crash k) = crash k

-- `if err != nil && err != git.NoErrAlreadyUpToDate`
abbrev pub unless_current : String → Reply Unit → Reply Unit
unless_current name (err (git_error already_up_to_date)) = ok tt
unless_current name (err e) = err (fetch_failed name e)
unless_current name r = r

module _ (G : Git) (X : GoGit G) where
  open X use {World, Handle, Worktree}

  -- GitDriver, with what is outside of it
  pub record Driver : Type 0 where
    pub repository : Option Handle
    pub world : World

  abbrev pub Method : Type 0 → Type 0
  Method A = Proc Driver RepoError A

  -- Repository, but for its driver: its name, the directory that the driver works in, and its settings
  pub record Repo : Type 0 where
    pub name : String
    pub path : String
    pub builder : Repository

  abbrev pub is_open : Driver → Bool
  is_open s = elim s.repository [ none ↦ false | some h ↦ true ]

  -- A call that leaves the handle of the driver as it is.
  abbrev pub on_world : {A : Type 0} → Proc World GitError A → Method A
  on_world m s = let (r, w) = m s.world in (git_reply r, record s { world = w })

  -- The handle that a call gives is kept, where it gives one.
  abbrev kept : Option Handle → Outcome GitError Handle × World → Outcome RepoError Unit × Driver
  kept old (ok h, w) = (ok tt, record { repository = some h; world = w })
  kept old (err e, w) = (err (git_error e), record { repository = old; world = w })
  kept old (crash k, w) = (crash k, record { repository = old; world = w })

  -- GitDriver.Open, Clone and Close, and Fetch and Worktree of the handle that is embedded in it
  unfoldable pub driver_open : String → Method Unit
  driver_open path s = kept s.repository (X.open_repository path s.world)

  unfoldable pub driver_clone : String → CloneOptions G → Method Unit
  driver_clone path co s = kept s.repository (X.clone path co s.world)

  abbrev pub driver_close : Method Unit
  driver_close s = (ok tt, record s { repository = none })

  abbrev handle : Method Handle
  handle s = elim s.repository [ none ↦ (crash nil_pointer, s) | some h ↦ (ok h, s) ]

  unfoldable pub driver_fetch : FetchOptions G → Method Unit
  driver_fetch fo = do h ← handle; on_world (X.fetch h fo)

  unfoldable pub driver_worktree : Method Worktree
  driver_worktree = do h ← handle; on_world (X.worktree h)

  unfoldable pub new_repository : String → Repository → Reply Repo
  new_repository base_path builder =
      let dir_name = git_dir_name_from_url builder.url_string in
      let path = join (base_path ∷ dir_name ∷ []) in
      if dir_name == ""
      then err (parse_url builder.url_string)
      else elim (git_reply (X.storage_at path)) [
        | ok _ ↦ ok (record { name = dir_name; path = path; builder = builder })
        | err e ↦ err e
        | crash k ↦ crash k
      ]

  abbrev pub reject_closed : Method Unit
  reject_closed s = (if is_open s then ok tt else err no_open_repo, s)

  -- A worktree that cannot be had
  abbrev worktree_reply : {A : Type 0} → Reply A → Reply A
  worktree_reply (err e) = err (worktree_failed e)
  worktree_reply r = r

  -- Repository.Checkout
  unfoldable pub checkout : Repo → Method Unit
  unfolding driver_worktree
  checkout r = do
    reject_closed
    let co = to_checkout_options G r.builder
    tree ← λ s. let (res, s') = driver_worktree s in (worktree_reply res, s')
    on_world (X.checkout tree co)

  -- Repository.Fetch
  unfoldable pub fetch : Repo → Method Unit
  unfolding driver_fetch
  fetch r = do
    reject_closed
    auth ← lift (settings (auth_failed r.name) (to_auth G r.builder))
    driver_fetch (to_fetch_options G auth r.builder)

  -- Repository.Update
  unfoldable pub update : Repo → Method Unit
  unfolding driver_fetch checkout
  update r = do
    reject_closed
    auth ← lift (settings config_error (to_auth G r.builder))
    λ s.
        let (res, s') = driver_fetch (to_fetch_options G auth r.builder) s in
        (unless_current r.name res, s')
    checkout r

  -- Repository.Clone
  unfoldable pub clone : Repo → Method Unit
  unfolding driver_clone
  clone r = do
    auth ← lift (settings (auth_failed r.name) (to_auth G r.builder))
    driver_clone r.path (to_clone_options G auth r.builder)

  -- The error of the clone is returned where the repository cannot be opened either.
  abbrev or_already_exists : Reply Unit → Reply Unit
  or_already_exists (err e) = err (git_error repository_already_exists)
  or_already_exists r = r

  -- What follows the clone of Download.
  abbrev opened_instead : Repo → Reply Unit × Driver → Reply Unit × Driver
  opened_instead r (err (git_error repository_already_exists), s) =
      let (res, s') = driver_open r.path s in (or_already_exists res, s')
  opened_instead r (res, s) = (res, s)

  unfoldable pub clone_or_open : Repo → Method Unit
  unfolding clone driver_open
  clone_or_open r s = if is_open s then (ok tt, s) else opened_instead r (clone r s)

  unfoldable pub fetch_and_checkout : Repo → Method Unit
  unfolding fetch checkout
  fetch_and_checkout r = do
    λ s. let (res, s') = fetch r s in (unless_current r.name res, s')
    checkout r

  -- Repository.Download
  unfoldable pub download : Repo → Bool → Method Unit
  unfolding clone_or_open fetch_and_checkout
  download r no_checkout = do clone_or_open r; if no_checkout then pure tt else fetch_and_checkout r

  -- The loop over the repositories of a manifest, in the order of the walk. The driver of each starts
  -- closed, and is closed again where the repository was downloaded.
  unfoldable pub pull_one : Manifest → Bool → Option Repository → Proc World RepoError Unit
  unfolding new_repository download
  pull_one manifest no_checkout none w = (crash nil_pointer, w)
  pull_one manifest no_checkout (some repo) w =
      elim (settings config_error (validate_repository repo)) [
        | err e ↦ (err e, w)
        | crash k ↦ (crash k, w)
        | ok _ ↦ elim (new_repository manifest.target_path repo) [
          | err e ↦ (err e, w)
          | crash k ↦ (crash k, w)
          | ok r ↦
              let (res, s) = download r no_checkout (record { repository = none; world = w }) in
              (res, s.world)
        ]
      ]

  unfoldable pub pull_all :
      Manifest → Bool → List (String × Option Repository) → Proc World RepoError Unit
  unfolding pull_one
  pull_all manifest no_checkout [] = pure tt
  pull_all manifest no_checkout ((name, repo) ∷ rest) = do
    pull_one manifest no_checkout repo
    pull_all manifest no_checkout rest

  unfoldable pub clone_repositories : Config → Bool → Proc World RepoError Unit
  unfolding pull_all
  clone_repositories cfg no_checkout = do
    pointer ← lift (settings config_error (current_context_manifest cfg))
    manifest ← lift (deref pointer)
    pull_all manifest no_checkout (entries manifest.repositories)

  -- Pull
  unfoldable pub pull : ConfigReply Config → Bool → Proc World RepoError Unit
  unfolding clone_repositories
  pull cfg_factory no_checkout = do
    cfg ← lift (settings config_error cfg_factory)
    clone_repositories cfg no_checkout
