-- ===== src/Containers/Running.antt =====
-- api.go: how a GenericContainer is run, as a container of an engine or as a KRM function.
pub mod Mounts
pub mod Removal
use airshipctl.Base.{
  ℕ, String, ◌<>◌, ◌==◌, Bool, true, false, not, ◌&&◌, Option, none, some, List, [], ◌∷◌, ◌++◌, map,
  if◌then◌else◌, Outcome, ok, err, crash, ◌>>=◌ as bind_outcome, Proc, then_do, ◌≡◌,
}
use airshipctl.Base.Procs.{◌>>=◌, ◌>>◌, pure, lift}
use airshipctl.Base.Paths.{join, is_rooted}
use airshipctl.Kubeconfig.Files.{expand_tilde}
use airshipctl.Containers.Types.{
  ContainerError, unknown_container_type, engine_failed, Reply, Mount, RunCommandOptions,
  GetLogOptions, Container, StorageMount, GenericContainer,
}

-- ExpandSourceMounts
abbrev pub expanded_source : String → String → String → String
expanded_source home target_path src =
    if is_rooted (expand_tilde home src)
    then expand_tilde home src
    else join (target_path ∷ src ∷ [])

unfoldable pub expand_source_mounts : String → String → List StorageMount → List StorageMount
expand_source_mounts home target_path [] = []
expand_source_mounts home target_path (m ∷ ms) =
    record m { src = expanded_source home target_path m.src }
    ∷ expand_source_mounts home target_path ms

-- convertDockerMount; convertKRMMount copies every field.
unfoldable pub convert_docker_mount : List StorageMount → List Mount
convert_docker_mount [] = []
convert_docker_mount (m ∷ ms) =
    record { read_only = not m.read_write_mode; type = m.mount_type; dst = m.dst_path; src = m.src }
    ∷ convert_docker_mount ms

-- runfn.RunFns, as far as runKRM sets it, with the one function
pub record RunFns : Type 0 where
  pub network : Bool
  pub path : String
  pub input : String
  pub to_writer : Bool
  pub storage_mounts : List StorageMount
  pub timeout : ℕ
  pub image : String
  pub env : List String
  pub function : String

-- Where writeSink writes.
pub data Sink : Type 0 where
  to_directory : String → Sink
  to_writer to_stdout : Sink

-- The switch of writeSink, by the path and whether there is a writer.
abbrev pub sink_of : String → Bool → Sink
sink_of path true = to_writer
sink_of path false = if path == "" then to_stdout else to_directory path

-- What the client takes from outside.
pub record Runtime : Type 1 where
  pub World : Type 0
  pub home_dir : String
  -- the constructor of containers
  pub new_container : String → String → Proc World ContainerError (Container World)
  -- NewContainerEnvFromStringSlice: the variables to export, and those that have a value
  pub container_env : List String → List String × List (String × String)
  pub getenv : String → String
  -- kyaml.Parse, and the input decorated with the parsed configuration
  pub parse_config : String → Reply String
  pub decorate_input : String → String → Reply String
  -- what is logged of an error, and the copy of a container's log to the log
  pub write_log : Option String → Proc World ContainerError Unit
  -- the pipeline of writeSink, and the functions of runfn
  pub write_sink : Sink → Option String → Proc World ContainerError Unit
  pub execute : RunFns → Proc World ContainerError Unit

abbrev exported : (String → String) → List String → List String
exported getenv [] = []
exported getenv (key ∷ keys) = (key <> ("=" <> getenv key)) ∷ exported getenv keys

abbrev valued : List (String × String) → List String
valued [] = []
valued ((key, value) ∷ rest) = (key <> ("=" <> value)) ∷ valued rest

module _ (R : Runtime) where
  open R use {World}

  abbrev pub Method : Type 0 → Type 0
  Method A = Proc World ContainerError A

  -- V1Alpha1: the directory of the results, the input, whether there is a writer, and the target path
  pub record Client : Type 0 where
    pub results_dir : String
    pub input : String
    pub has_output : Bool
    pub target_path : String

  -- writeLogs
  unfoldable pub write_logs : Container World → Method Unit
  write_logs cont = do
    stderr ← cont.get_container_logs (record { stderr = true; stdout = false; follow = true })
    R.write_log stderr

  -- The logs are written while the container runs, and both have ended here; the error of the
  -- container comes first. The flag says which of the two calls the engine sees first.
  unfoldable pub wait_and_log : Bool → Container World → Method Unit
  unfolding write_logs
  wait_and_log true cont w =
      let (logged, w₁) = write_logs cont w in
      let (finished, w₂) = cont.wait_until_finished w₁ in (bind_outcome finished (λ _. logged), w₂)
  wait_and_log false cont w =
      let (finished, w₁) = cont.wait_until_finished w in
      let (logged, w₂) = write_logs cont w₁ in (bind_outcome finished (λ _. logged), w₂)

  -- runAirship, once there is a container
  unfoldable pub run_in : Bool → Client → GenericContainer → Container World → Method Unit
  unfolding wait_and_log convert_docker_mount
  run_in logs_first c conf cont = do
    let (to_export, values) = R.container_env conf.env_vars
    node ← lift (R.parse_config conf.config)
    decorated ← lift (R.decorate_input node c.input)
    cont.run_command (record {
      privileged = conf.privileged;
      host_network = conf.host_network;
      cmd = conf.cmd;
      env_vars = exported R.getenv to_export ++ valued values;
      binds = [];
      mounts = convert_docker_mount conf.storage_mounts;
      input = some decorated;
    })
    wait_and_log logs_first cont
    out ← cont.get_container_logs (record { stderr = false; stdout = true; follow = false })
    R.write_sink (sink_of c.results_dir c.has_output) out

  -- The deferred removal, whose error is only logged; a panic removes the container too.
  abbrev pub removed : Container World → Reply Unit × World → Reply Unit × World
  removed cont (r, w) = elim (cont.rm_container w).0 [
    | ok _ ↦ (r, (cont.rm_container w).1)
    | err e ↦ (r, (cont.rm_container w).1)
    | crash k ↦ (crash k, (cont.rm_container w).1)
  ]

  unfoldable pub run_airship : Bool → Client → GenericContainer → Method Unit
  unfolding run_in
  run_airship logs_first c conf =
      let container_runtime =
        if conf.container_runtime == "" then "docker" else conf.container_runtime in
      R.new_container container_runtime conf.image >>= λ cont.
      λ w. removed cont (run_in logs_first c conf cont w)

  unfoldable pub run_krm : Client → GenericContainer → Method Unit
  run_krm c conf = do
    function ← lift (R.parse_config conf.config)
    R.execute (record {
      network = conf.host_network;
      path = c.results_dir;
      input = c.input;
      to_writer = c.has_output;
      storage_mounts = conf.storage_mounts;
      timeout = conf.timeout;
      image = conf.image;
      env = conf.env_vars;
      function = function;
    })

  abbrev with_mounts : Client → GenericContainer → GenericContainer
  with_mounts c conf = record conf {
    storage_mounts = expand_source_mounts R.home_dir c.target_path conf.storage_mounts;
  }

  -- Run
  unfoldable pub run : Bool → Client → GenericContainer → Method Unit
  unfolding run_airship run_krm expand_source_mounts
  run logs_first c conf =
      let expanded = with_mounts c conf in
      if conf.type == "airship"
      then run_airship logs_first c expanded
      else if conf.type == ""
      then run_airship logs_first c expanded
      else if conf.type == "krm"
      then run_krm c expanded
      else lift (err (unknown_container_type conf.type))
