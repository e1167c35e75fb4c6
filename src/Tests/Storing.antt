-- ===== src/Tests/Storing.antt =====
-- Saving, loading and listing on examples.

use airshipctl.Base.{String, [], ◌∷◌}
use airshipctl.Base.GoMap.{GoMap, made}
use airshipctl.Tests.Disk.{two_contexts}

abbrev path : String
path = two_contexts.loaded_config_path

abbrev occupied : GoMap String
occupied = made ((path, "old") ∷ [])

abbrev other : String
other = "other"
