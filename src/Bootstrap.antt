-- ===== src/Bootstrap.antt =====
-- pkg/bootstrap/ephemeral/command.go: the container that bootstraps the ephemeral cluster, and the wait
-- for its end.
pub mod Inputs
pub mod Polling
use airshipctl.Base.{
  ℕ, zero, suc, ◌-◌, ℤ, pos, negsuc, String, ◌<>◌, ◌==◌, nat_eqb, Bool, true, false, Option, none,
  some, List, [], ◌∷◌, if◌then◌else◌, Outcome, ok, err, crash, index_out_of_range, Proc, then_do,
  reject_if, ◌≡◌, refl,
}
use airshipctl.Base.Procs.{◌>>=◌, ◌>>◌, pure, lift}
use airshipctl.Base.Paths.{split, join, text_of}
use airshipctl.Containers.Types.{ContainerError, State, RunCommandOptions, GetLogOptions, Container}

-- BootConfiguration, with the fields of its parts
pub record BootConfiguration : Type 0 where
  pub container_runtime : String
  pub image : String
  pub volume : String
  pub bootstrap_command : String
  pub config_filename : String

pub data BootError : Type 0 where
  invalid_input : String → BootError
  volume_malformed invalid_bootstrap_command number_of_retries_exceeded : BootError
  bootstrap_container_run : ℤ → String → String → BootError
  container_error : ContainerError → BootError
  file_error : String → BootError

abbrev pub Reply : Type 0 → Type 0
Reply A = Outcome BootError A

-- exitCodeMap, which has no entry for any other code
abbrev pub exit_code_message : ℕ → String
exit_code_message code =
    if nat_eqb code 1
    then "Container error: Failed to load Ephemeral cluster config file"
    else if nat_eqb code 2
    then "Container error: Ephemeral cluster configuration file validation failed"
    else if nat_eqb code 3
    then "Container error: Failed to set environment variables"
    else if nat_eqb code 4
    then "Container error: Container unknown command"
    else if nat_eqb code 5
    then "Container error: Creation of Ephemeral cluster failed"
    else if nat_eqb code 6
    then "Container error: Deletion of Ephemeral cluster failed"
    else if nat_eqb code 7
    then "Container error: Help command failed"
    else if nat_eqb code 8
    then "Container error: Unknown error code"
    else ""

-- The switch on the parts of the volume.
abbrev pub volume_of : List String → String → Reply String
volume_of (path ∷ []) volume = ok (path <> (":" <> path))
volume_of (path ∷ inside ∷ other ∷ rest) volume = err volume_malformed
volume_of parts volume = ok volume

-- VerifyInputs, and the configuration after it, which has a full volume
unfoldable pub verify_inputs : Proc BootConfiguration BootError Unit
verify_inputs cfg =
    if cfg.volume == ""
    then (err (invalid_input "Must specify volume bind for Bootstrap builder container"), cfg)
    else if cfg.image == ""
    then (err (invalid_input "Missing Bootstrap Container image"), cfg)
    else if cfg.container_runtime == ""
    then (err (invalid_input "Missing Container runtime information"), cfg)
    else if cfg.config_filename == ""
    then (err (invalid_input "Missing Ephemeral Cluster ConfigFilename"), cfg)
    else elim (volume_of (split ":" cfg.volume) cfg.volume) [
      | ok volume ↦ (ok tt, record cfg { volume = volume })
      | err e ↦ (err e, cfg)
      | crash k ↦ (crash k, cfg)
    ]

-- `s[:strings.Index(s, ":")]`, which panics without a colon
unfoldable pub before_colon : String → Reply String
before_colon String.[] = crash index_out_of_range
before_colon (String.◌∷◌ c s) =
    let rest = before_colon s in
    if text_of c == ":"
    then ok ""
    else elim rest [ ok t ↦ ok (text_of c <> t) | err e ↦ err e | crash k ↦ crash k ]

abbrev pub first_part : List String → String
first_part [] = ""
first_part (part ∷ parts) = part

-- What is outside of the container: the clock in seconds, files and the standard output.
pub record Outside : Type 1 where
  pub World : Type 0
  pub sleep : ℕ → World → World
  pub stat : String → World → Outcome String Unit
  pub read_file : String → World → Outcome String String
  pub remove : String → Proc World String Unit
  pub print : String → World → World

abbrev pub of_files : {A : Type 0} → Outcome String A → Reply A
of_files (ok a) = ok a
of_files (err e) = err (file_error e)
of_files (crash k) = crash k

module _ (O : Outside) (box : Container O.World) where
  open O use {World}

  abbrev pub Method : Type 0 → Type 0
  Method A = Proc World BootError A

  abbrev of_container : {A : Type 0} → Outcome ContainerError A → Reply A
  of_container (ok a) = ok a
  of_container (err e) = err (container_error e)
  of_container (crash k) = crash k

  abbrev pub call : {A : Type 0} → Proc World ContainerError A → Method A
  call m w = let (r, w') = m w in (of_container r, w')

  -- VerifyArtifacts
  unfoldable pub verify_artifacts : BootConfiguration → Method Unit
  verify_artifacts cfg w =
      (of_files (O.stat (join (first_part (split ":" cfg.volume) ∷ cfg.config_filename ∷ [])) w), w)

  -- What a positive exit code is reported as, with the logs of the container.
  abbrev run_error : ℕ → Option String → BootError
  run_error code none = bootstrap_container_run (pos code) "" (exit_code_message code)
  run_error code (some logs) = bootstrap_container_run (pos code) logs (exit_code_message code)

  unfoldable status_of : State → Method String
  status_of s = elim s.exit_code [
    | negsuc n ↦ pure s.status
    | pos zero ↦ pure s.status
    | pos (suc n) ↦
        call (box.get_container_logs (record { stderr = true; stdout = false; follow = true }))
        >>= λ logs. lift (err (run_error (suc n) logs))
  ]

  -- GetContainerStatus
  unfoldable pub get_container_status : Method String
  unfolding status_of
  get_container_status = do state ← call box.inspect_container; status_of state

  -- What follows a check of the status: the end, or `again`.
  abbrev pub unless_exited : Method Unit → Reply String × World → Reply Unit × World
  unless_exited again (ok status, w) = if status == "exited" then (ok tt, w) else again w
  unless_exited again (err e, w) = (err e, w)
  unless_exited again (crash k, w) = (crash k, w)

  -- The loop of WaitUntilContainerExitsOrTimesout, for so many attempts.
  unfoldable pub wait_attempts : ℕ → Method Unit
  unfolding get_container_status
  wait_attempts zero w = (err number_of_retries_exceeded, w)
  wait_attempts (suc n) w = unless_exited (wait_attempts n) (get_container_status (O.sleep 15 w))

  unfoldable pub wait_until_container_exits_or_timesout : ℕ → Method Unit
  unfolding wait_attempts
  wait_until_container_exits_or_timesout max_retries w =
      unless_exited (wait_attempts max_retries) (get_container_status (O.sleep 2 w))

  abbrev pub max_retries : ℕ
  max_retries = 50

  -- The help command: the file that the container wrote is printed and removed.
  unfoldable pub show_help : String → Method Unit
  unfolding before_colon
  show_help volume = do
    path ← lift (before_colon volume)
    let help_path = join (path ∷ "help.txt" ∷ [])
    text ← λ w. (of_files (O.read_file help_path w), w)
    λ w. (ok tt, O.print (text <> "\n") w)
    λ w. let (r, w') = O.remove help_path w in (of_files r, w')

  -- The switch on the bootstrap command.
  unfoldable pub finish_command : BootConfiguration → Method Unit
  unfolding wait_until_container_exits_or_timesout show_help
  finish_command cfg =
      if cfg.bootstrap_command == "create"
      then wait_until_container_exits_or_timesout max_retries
      else if cfg.bootstrap_command == "delete"
      then wait_until_container_exits_or_timesout max_retries
      else if cfg.bootstrap_command == "help"
      then show_help cfg.volume
      else lift (err invalid_bootstrap_command)

  -- CreateBootstrapContainer
  unfoldable pub create_bootstrap_container : Bool → BootConfiguration → Method Unit
  unfolding finish_command
  create_bootstrap_container debug cfg = do
    call (
        box.run_command (record {
          privileged = false;
          host_network = false;
          cmd = [];
          env_vars =
              ("BOOTSTRAP_COMMAND=" <> cfg.bootstrap_command)
              ∷ ("BOOTSTRAP_CONFIG=" <> cfg.config_filename)
              ∷ ("BOOTSTRAP_VOLUME=" <> cfg.volume)
              ∷ [];
          binds = cfg.volume ∷ [];
          mounts = [];
          input = none;
        }))
    finish_command cfg
    if debug then pure tt else call box.rm_container
