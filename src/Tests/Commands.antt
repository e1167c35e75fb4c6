-- ===== src/Tests/Commands.antt =====
-- The commands that change the configuration, on examples.
use airshipctl.Base.{String, true, false, List, [], ◌∷◌, ok, err, ◌≡◌, ◌≢◌}
use airshipctl.Base.GoMap.{GoMap, made, get}
use airshipctl.Config.Types.{Config, ConfigError, ManifestOptions, Method}
use airshipctl.Config.Host.{Host}
use airshipctl.Config.Edit.{ContextOption, set_context_manifest}
use airshipctl.Config.Lookup.Complete.{IsComplete}
use airshipctl.Config.Run.{SetContextOptions, set_manifest, run_set_manifest}
use airshipctl.Config.Run.Manifests.{run_set_manifest-IsComplete}
use airshipctl.Tests.Disk.{disk_of, two_contexts, two_contexts-IsComplete}

abbrev H : Host
H = disk_of two_contexts

abbrev empty_disk : GoMap String
empty_disk = made []

abbrev to_default : List ContextOption
to_default = set_context_manifest "default" ∷ []

abbrev given : Method H.World Config
given w = (ok two_contexts, w)

abbrev on_other : SetContextOptions
on_other = record { ctx_name = "other"; current = false }

-- A new repository without branch, tag or commit.
abbrev no_way : ManifestOptions
no_way = record {
  name = "site";
  repo_name = "primary";
  url = "";
  branch = "";
  commit_hash = "";
  tag = "";
  force = false;
  is_phase = false;
  target_path = "";
  metadata_path = "";
}

abbrev one_way : ManifestOptions
one_way = record no_way { tag = "v1" }

run_set_manifest-IsComplete_example :
    let (change, c', w') = run_set_manifest H one_way true two_contexts empty_disk in
    IsComplete c'
    × ((j : String) → one_way.name ≢ j → get j c'.manifests ≡ get j two_contexts.manifests)
    × ((e : ConfigError)
        → (set_manifest "/home/airship" one_way two_contexts).0.1 ≡ err e
        → w' ≡ empty_disk)
run_set_manifest-IsComplete_example =
    run_set_manifest-IsComplete H one_way true two_contexts empty_disk two_contexts-IsComplete
