-- ===== src/Config/Host.antt =====
-- What pkg/config takes from outside: the file system, the environment, the YAML library and the
-- writer of a command. A call of these returns its error, and the world after it.
use airshipctl.Base.{ℕ, String, Bool, Option, ok, ◌≡◌}
use airshipctl.Base.GoMap.{GoMap}
use airshipctl.Config.Types.{Manifest, Config, Reply, Method}

pub record Host : Type 1 where
  pub World : Type 0
  -- util.UserHomeDir and os.Getenv
  pub home_dir : String
  pub getenv : String → String
  -- os.Stat, true where it returns no error
  pub stat : String → World → Bool
  pub is_dir : String → World → Bool
  pub read_file : String → World → Reply String
  pub write_file : String → String → Method World Unit
  pub mkdir_all : String → Method World Unit
  pub chmod : String → ℕ → Method World Unit
  pub remove_all : String → Method World Unit
  -- yaml.Marshal, and yaml.Unmarshal onto a configuration
  pub marshal : Config → Reply String
  pub unmarshal : String → Config → Reply Config
  pub marshal_manifests : GoMap (Option Manifest) → Reply String
  -- Writer.Write
  pub write_out : String → Method World Unit

-- What is relied on: a file that was written is read back, also after the change of a mode.
pub record IsStorage (H : Host) : Type 0 where
  pub read-write :
      (path text : String) (w : H.World)
      → (H.write_file path text w).0 ≡ ok tt
      → H.read_file path (H.write_file path text w).1 ≡ ok text
  pub read-chmod :
      (path : String) (mode : ℕ) (w : H.World)
      → H.read_file path (H.chmod path mode w).1 ≡ H.read_file path w
