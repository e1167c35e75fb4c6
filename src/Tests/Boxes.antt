-- ===== src/Tests/Boxes.antt =====
-- Containers on an engine in memory: a run of one, and the wait for the one that bootstraps.
use airshipctl.Base.{
  ℕ, ◌+◌, ◌*◌, ◌≤◌, ltb, String, ◌<>◌, true, false, none, some, [], ◌∷◌, if◌then◌else◌, ok, err,
  crash, Crash, pos, ◌≡◌, ◌≢◌, ◌↔◌, refl,
}
use airshipctl.Base.Paths.{split}
use airshipctl.Containers.Types.{engine_failed, Container, GenericContainer, StorageMount}
use airshipctl.Containers.Running.{Runtime, Client, run_in, run_airship}
use airshipctl.Containers.Running.Removal.{made, after_run, run_airship_removes}
use airshipctl.Bootstrap.{
  BootConfiguration, Outside, verify_inputs, before_colon, wait_until_container_exits_or_timesout,
}
use airshipctl.Bootstrap.Inputs.{verify_inputs-before_colon}
use airshipctl.Bootstrap.Polling.{Running, wait_until-slept}

-- The world is the seconds that have passed; the container runs for half a minute.
abbrev pub box : Container ℕ
box = record {
  run_command = λ o w. (ok tt, w);
  get_container_logs = λ o w. (ok (some "log"), w);
  inspect_container = λ w.
      (ok (record { exit_code = pos 0; status = if ltb w 30 then "running" else "exited" }), w);
  wait_until_finished = λ w. (err (engine_failed "exit code 1"), w);
  rm_container = λ w. (ok tt, w + 1000);
}

abbrev pub outside : Outside
outside = record {
  World = ℕ;
  sleep = λ n w. w + n;
  stat = λ path w. ok tt;
  read_file = λ path w. ok "";
  remove = λ path w. (ok tt, w);
  print = λ text w. w;
}

wait_until-slept_example :
    (wait_until_container_exits_or_timesout outside box 1 0).1 ≤ 0 + 2 + 15 * 1
wait_until-slept_example =
    wait_until-slept outside box (λ w. w)
      (record { sleep-adds = λ n w. refl; inspect-keeps = λ w. refl; logs-keep = λ o w. refl }) 1 0

abbrev pub boot : BootConfiguration
boot = record {
  container_runtime = "docker";
  image = "capi";
  volume = "/srv";
  bootstrap_command = "help";
  config_filename = "config.yaml";
}

verify_inputs-before_colon_example : (path : String) × (before_colon "/srv:/srv" ≡ ok path)
unfolding verify_inputs split
verify_inputs-before_colon_example =
    verify_inputs-before_colon boot (record boot { volume = "/srv:/srv" }) refl

abbrev runtime : Runtime
runtime = record {
  World = ℕ;
  home_dir = "/root";
  new_container = λ driver image w. (ok box, w);
  container_env = λ vars. (vars, []);
  getenv = λ name. "";
  parse_config = λ text. ok text;
  decorate_input = λ config input. ok (config <> input);
  write_log = λ log w. (ok tt, w);
  write_sink = λ sink out w. (ok tt, w);
  execute = λ fns w. (ok tt, w);
}

abbrev mount : StorageMount
mount = record {
  mount_type = "bind";
  src = "~/images";
  dst_path = "/images";
  read_write_mode = false;
}

abbrev pub conf : GenericContainer
conf = record {
  type = "airship";
  container_runtime = "";
  cmd = [];
  privileged = false;
  sink_output_dir = "";
  host_network = false;
  image = "quay.io/image:v1";
  env_vars = [];
  storage_mounts = mount ∷ [];
  timeout = 0;
  config = "";
  config_ref = none;
}

abbrev client : Client runtime
client = record { results_dir = ""; input = ""; has_output = false; target_path = "/target" }

-- The container ends with an error, and is removed all the same.
run_airship_removes_example :
    ((run_airship runtime true client conf 0).1
      ≡ (box.rm_container (after_run runtime true client conf box 0)).1)
    × (((run_airship runtime true client conf 0).0 ≡ ok tt) ↔ (
        ((run_in runtime true client conf box (made runtime true client conf 0).1).0 ≡ ok tt)
        × ((k : Crash)
            → (box.rm_container (after_run runtime true client conf box 0)).0 ≢ crash k)))
run_airship_removes_example = run_airship_removes runtime true client conf box 0 refl
