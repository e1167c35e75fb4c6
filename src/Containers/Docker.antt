-- ===== src/Containers/Docker.antt =====
-- container_docker.go: containers of the Docker engine, which is the parameter `DockerClient`.
use airshipctl.Base.{
  zero, suc, ℤ, pos, negsuc, String, ◌<>◌, ◌==◌, Bool, Option, none, some, List, [], ◌∷◌,
  if◌then◌else◌, Outcome, ok, err, crash, Proc, deref,
}
use airshipctl.Base.Procs.{◌>>=◌, ◌>>◌, pure, lift}
use airshipctl.Base.Paths.{split}
use airshipctl.Containers.Types.{
  ContainerError, empty_image_list, run_container_command, no_container_driver,
  container_drv_not_supported, Reply, State, Mount, RunCommandOptions, GetLogOptions, Container,
}

-- container.Config and container.HostConfig, as far as they depend on the call
pub record ContainerConfig : Type 0 where
  pub image : String
  pub cmd : List String
  pub env : List String

pub record HostConfig : Type 0 where
  pub binds : List String
  pub mounts : List Mount
  pub privileged : Bool
  pub network_mode : String

-- What ContainerWait sends first: an error, which may be nil, or the status code.
pub data Waited : Type 0 where
  wait_error : Option ContainerError → Waited
  wait_status : ℤ → Waited

pub record DockerClient (W : Type 0) : Type 0 where
  -- the command of the configuration of an image, if it has a configuration
  pub image_inspect : String → Proc W ContainerError (Option (List String))
  pub image_list : String → Proc W ContainerError (List String)
  pub image_pull : String → Proc W ContainerError Unit
  pub container_create : ContainerConfig → HostConfig → Proc W ContainerError String
  pub container_attach : String → Proc W ContainerError Unit
  -- io.Copy to the connection
  pub copy_input : String → String → Proc W ContainerError Unit
  pub container_start : String → Proc W ContainerError Unit
  pub container_logs : String → GetLogOptions → Proc W ContainerError (Option String)
  pub container_remove : String → Proc W ContainerError Unit
  pub container_inspect : String → Proc W ContainerError State
  pub container_wait : String → W → Waited × W

module _ {W : Type 0} (D : DockerClient W) where
  -- DockerContainer, with what is outside of it
  pub record Docker : Type 0 where
    pub tag : String
    pub image_url : String
    pub id : String
    pub world : W

  abbrev pub Call : Type 0 → Type 0
  Call A = Proc Docker ContainerError A

  abbrev engine : {A : Type 0} → Proc W ContainerError A → Call A
  engine m c = let (r, w) = m c.world in (r, record c { world = w })

  -- ImagePull: an image that can be inspected is there already.
  abbrev pulled : String → Reply (Option (List String)) × W → Reply Unit × W
  pulled url (ok config, w) = (ok tt, w)
  pulled url (err e, w) = D.image_pull url w
  pulled url (crash k, w) = (crash k, w)

  unfoldable pub image_pull : String → Proc W ContainerError Unit
  image_pull url w = pulled url (D.image_inspect url w)

  abbrev tag_of : List String → String
  tag_of (name ∷ tag ∷ []) = tag
  tag_of parts = "latest"

  unfoldable pub new_docker_container : String → W → Outcome ContainerError Docker × W
  unfolding image_pull
  new_docker_container url w =
      let (r, w') = image_pull url w in
      elim r [
        | ok _ ↦
            (ok (record { tag = tag_of (split ":" url); image_url = url; id = ""; world = w' }), w')
        | err e ↦ (err e, w')
        | crash k ↦ (crash k, w')
      ]

  abbrev first_id : List String → Reply String
  first_id [] = err empty_image_list
  first_id (id ∷ rest) = ok id

  unfoldable pub get_image_id : String → Call String
  get_image_id url = do ids ← engine (D.image_list url); lift (first_id ids)

  unfoldable pub get_cmd : List String → Call (List String)
  unfolding get_image_id
  get_cmd (c ∷ cmd) = pure (c ∷ cmd)
  get_cmd [] = do
    url ← λ c. (ok c.image_url, c)
    id ← get_image_id url
    config ← engine (D.image_inspect id)
    lift (deref config)

  unfoldable pub get_config : RunCommandOptions → Call (ContainerConfig × HostConfig)
  unfolding get_cmd
  get_config opts = do
    cmd ← get_cmd opts.cmd
    λ c. (
      ok (
        record { image = c.image_url; cmd = cmd; env = opts.env_vars },
        record {
          binds = opts.binds;
          mounts = opts.mounts;
          privileged = opts.privileged;
          network_mode = if opts.host_network then "host" else "";
        },
      ),
      c,
    )

  -- The start and the copy of the input run at the same time; both have ended when RunCommand does,
  -- and the error of the start comes first.
  unfoldable pub start_with_input : String → Call Unit
  start_with_input input c =
      let (started, w) = D.container_start c.id c.world in
      let (copied, w') = D.copy_input c.id input w in
      (elim started [ ok _ ↦ copied | err e ↦ err e | crash k ↦ crash k ], record c { world = w' })

  unfoldable pub start : Option String → Call Unit
  unfolding start_with_input
  start none c = engine (D.container_start c.id) c
  start (some input) c = (do engine (D.container_attach c.id); start_with_input input) c

  unfoldable pub run_command : RunCommandOptions → Call Unit
  unfolding get_config start
  run_command opts = do
    (config, host_config) ← get_config opts
    id ← engine (D.container_create config host_config)
    λ c. (ok tt, record c { id = id })
    start opts.input

  unfoldable pub get_container_logs : GetLogOptions → Call (Option String)
  get_container_logs opts c = engine (D.container_logs c.id opts) c

  unfoldable pub rm_container : Call Unit
  rm_container c = engine (D.container_remove c.id) c

  unfoldable pub inspect_container : Call State
  inspect_container c = engine (D.container_inspect c.id) c

  abbrev waited : String → Waited → Reply Unit
  waited id (wait_error none) = ok tt
  waited id (wait_error (some e)) = err e
  waited id (wait_status (pos zero)) = ok tt
  waited id (wait_status (pos (suc n))) = err (run_container_command ("docker logs " <> id))
  waited id (wait_status (negsuc n)) = err (run_container_command ("docker logs " <> id))

  unfoldable pub wait_until_finished : Call Unit
  wait_until_finished c =
      let (r, w) = D.container_wait c.id c.world in (waited c.id r, record c { world = w })

  -- The container of an image, over the state of the object and the world.
  unfoldable pub docker_container : Container Docker
  unfolding run_command get_container_logs inspect_container wait_until_finished rm_container
  docker_container = record {
    run_command = run_command;
    get_container_logs = get_container_logs;
    inspect_container = inspect_container;
    wait_until_finished = wait_until_finished;
    rm_container = rm_container;
  }

  -- NewContainer; `client` is NewDockerClient.
  unfoldable pub new_container :
      Proc W ContainerError Unit → String → String → W → Outcome ContainerError Docker × W
  unfolding new_docker_container
  new_container client driver url w =
      if driver == ""
      then (err no_container_driver, w)
      else if driver == "docker"
      then (client >>= λ _. new_docker_container url) w
      else (err (container_drv_not_supported driver), w)
