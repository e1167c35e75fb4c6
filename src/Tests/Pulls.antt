-- ===== src/Tests/Pulls.antt =====
-- A pull of one repository, whose directory holds a clone already.
use airshipctl.Base.{
  String, Bool, true, false, Option, none, some, List, [], ◌∷◌, if◌then◌else◌, ok, err, ◌≡◌, ◌⊎◌,
  refl,
}
use airshipctl.Base.Paths.{join, git_dir_name_from_url}
use airshipctl.Config.Types.{Repository, Manifest}
use airshipctl.Config.Defaults.{new_manifest}
use airshipctl.Config.Repo.{validate_checkout, validate_repository, to_auth}
use airshipctl.Pulling.{
  repository_already_exists, already_up_to_date, git_failed, GoGit, Driver, Repo, checkout,
  download, pull_all,
}
use airshipctl.Pulling.Downloading.{Opened, Fetched, download-eq-ok}
use airshipctl.Pulling.Pulls.{AllPulled, pull_all-eq-ok}
use airshipctl.Tests.Settings.{git, by_ref}

-- The world says whether the directory holds a clone; there is nothing new to fetch.
abbrev disk : GoGit git
disk = record {
  World = Bool;
  Handle = Unit;
  Worktree = Unit;
  storage_at = λ path. ok tt;
  open_repository = λ path w. (if w then ok tt else err (git_failed "no repository"), w);
  clone = λ path co w. (if w then err repository_already_exists else ok tt, true);
  fetch = λ h fo w. (err already_up_to_date, w);
  worktree = λ h w. (ok tt, w);
  checkout = λ tree co w. (ok tt, w);
}

abbrev site : Repository
site = record {
  url_string = "https://example.com/site";
  auth = none;
  checkout_options = some by_ref;
  fetch_options = none;
}

abbrev repo : Repo git disk
repo = record { name = "site"; path = "/target/site"; builder = site }

abbrev closed : Driver git disk
closed = record { repository = none; world = true }

abbrev opened : Driver git disk
opened = record { repository = some tt; world = true }

download-eq-ok_example :
    (s₁ : Driver git disk) × Opened git disk repo closed s₁
    × (((false ≡ true) × (opened ≡ s₁))
        ⊎ ((false ≡ false)
            × ((s₂ : Driver git disk) × Fetched git disk repo s₁ s₂
                × (checkout git disk repo s₂ ≡ (ok tt, opened)))))
unfolding download to_auth
download-eq-ok_example = (download-eq-ok git disk repo false closed opened).0 refl

abbrev manifest : Manifest
manifest = record (new_manifest "/home/airship") { target_path = "/target" }

abbrev repositories : List (String × Option Repository)
repositories = ("primary", some site) ∷ ("twin", some site) ∷ []

pull_all-eq-ok_example : AllPulled git disk manifest false repositories false true
unfolding pull_all download git_dir_name_from_url join validate_checkout validate_repository to_auth
pull_all-eq-ok_example = (pull_all-eq-ok git disk manifest false repositories false true).0 refl
