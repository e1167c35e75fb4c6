-- ===== src/Containers/Types.antt =====
-- container.go and the GenericContainer of pkg/api/v1alpha1.
use airshipctl.Base.{ℕ, ℤ, String, Bool, Option, List, Outcome, Proc}
use airshipctl.Phases.Types.{ObjectReference}

pub data ContainerError : Type 0 where
  no_container_driver empty_image_list : ContainerError
  container_drv_not_supported run_container_command unknown_container_type : String → ContainerError
  -- an error of Docker, of kyaml or of a file system
  engine_failed : String → ContainerError

abbrev pub Reply : Type 0 → Type 0
Reply A = Outcome ContainerError A

abbrev pub Method : Type 0 → Type 0 → Type 0
Method W A = Proc W ContainerError A

-- State; the status is the text of the engine
pub record State : Type 0 where
  pub exit_code : ℤ
  pub status : String

pub record Mount : Type 0 where
  pub read_only : Bool
  pub type : String
  pub dst : String
  pub src : String

-- RunCommandOptions; the input is the text that is read from it
pub record RunCommandOptions : Type 0 where
  pub privileged : Bool
  pub host_network : Bool
  pub cmd : List String
  pub env_vars : List String
  pub binds : List String
  pub mounts : List Mount
  pub input : Option String

pub record GetLogOptions : Type 0 where
  pub stderr : Bool
  pub stdout : Bool
  pub follow : Bool

-- Container; logs are the text that is read from them, or a reader that is nil
pub record Container (W : Type 0) : Type 0 where
  pub run_command : RunCommandOptions → Method W Unit
  pub get_container_logs : GetLogOptions → Method W (Option String)
  pub inspect_container : Method W State
  pub wait_until_finished : Method W Unit
  pub rm_container : Method W Unit

pub record StorageMount : Type 0 where
  pub mount_type : String
  pub src : String
  pub dst_path : String
  pub read_write_mode : Bool

-- GenericContainer, with the fields of its specification
pub record GenericContainer : Type 0 where
  pub type : String
  pub container_runtime : String
  pub cmd : List String
  pub privileged : Bool
  pub sink_output_dir : String
  pub host_network : Bool
  pub image : String
  pub env_vars : List String
  pub storage_mounts : List StorageMount
  pub timeout : ℕ
  pub config : String
  pub config_ref : Option ObjectReference
