-- ===== src/Kubeconfig/Files.antt =====
-- kubeconfig.go: a kubeconfig behind its source, written to files, and the sources.
pub mod Temporary
use airshipctl.Base.{
  ℕ, zero, suc, String, ◌<>◌, ◌==◌, is_set, nat_eqb, Bool, true, false, ◌&&◌, ◌||◌, Option, none,
  some, List, [], ◌∷◌, if◌then◌else◌, Outcome, ok, err, crash, fatal, ◌>>=◌ as bind_outcome, Proc,
  then_do, ◌≡◌,
}
use airshipctl.Base.Procs.{◌>>=◌, ◌>>◌, pure, lift}
use airshipctl.Base.Paths.{join}
use airshipctl.Base.Texts.{has_prefix, drop_chars}
use airshipctl.Kubeconfig.Merging.{
  KubeError, library_error, cluster_name_empty, malformed_kubeconfig, ApiConfig, ClientCmd,
  KubeConf, Reply,
}

-- What the kubeconfigs of a site are reached through: files, and the API of a cluster.
pub record Access (C : ClientCmd) : Type 1 where
  pub World : Type 0
  -- util.UserHomeDir
  pub home_dir : String
  pub read_file : String → World → Reply String
  pub write_file : String → String → Proc World KubeError Unit
  -- a new file below a directory with this prefix, and what is written to it
  pub temp_file : String → String → Proc World KubeError String
  pub write_temp : String → String → Proc World KubeError Unit
  pub remove_all : String → Proc World KubeError Unit
  -- the rules of clientcmd that merge files, the first one first
  pub load_files : List String → World → Reply (KubeConf C)
  -- FactoryFromKubeConfig with its client set, for a file and a context
  pub Client : Type 0
  pub client_for : String → String → Proc World KubeError Client
  -- the value of a secret by namespace and name, as far as it has one
  pub secret_value : Client → String → String → Proc World KubeError (Option String)
  -- the time that the next poll waits
  pub wait_a_second : World → World
  -- the polls that fit into a timeout: a text that is no duration, or zero, counts as 30 seconds
  pub polls_within : String → ℕ

-- util.ExpandTilde
unfoldable pub expand_tilde : String → String → String
unfolding join
expand_tilde home path =
    if path == "~"
    then home
    else if has_prefix path "~/"
    then join (home ∷ drop_chars 1 path ∷ [])
    else path

-- The file that a Cleanup removes, if any.
abbrev pub Cleanup : Type 0
Cleanup = Option String

module _ (C : ClientCmd) (A : Access C) where
  open A use {World, Client}

  abbrev pub Method : Type 0 → Type 0
  Method B = Proc World KubeError B

  -- kubeConfig, but for the bytes that it saves
  pub record KubeConfig : Type 0 where
    pub path : String
    pub dump_root : String
    pub source : Method String

  -- The bytes saved so far, and the world.
  pub record Saved : Type 0 where
    pub saved_bytes : String
    pub world : World

  abbrev pub Stored : Type 0 → Type 0
  Stored B = Proc Saved KubeError B

  abbrev pub outside : {B : Type 0} → Method B → Stored B
  outside m s = let (r, w) = m s.world in (r, record s { world = w })

  -- What the source gives is saved; with an error, the empty bytes that come with it.
  abbrev save : Reply String × World → Reply String × Saved
  save (ok text, w) = (ok text, record { saved_bytes = text; world = w })
  save (err e, w) = (err e, record { saved_bytes = ""; world = w })
  save (crash k, w) = (crash k, record { saved_bytes = ""; world = w })

  unfoldable pub bytes : KubeConfig → Stored String
  bytes k s = if s.saved_bytes == "" then save (k.source s.world) else (ok s.saved_bytes, s)

  -- cleanup, whose function ends the process where the file cannot be removed
  or_fatal : {B : Type 0} → Reply B → Reply Unit
  or_fatal (ok b) = ok tt
  or_fatal (err e) = crash fatal
  or_fatal (crash k) = crash k

  unfoldable pub run_cleanup : Cleanup → Method Unit
  unfolding or_fatal
  run_cleanup none w = (ok tt, w)
  run_cleanup (some path) w =
      if path == "" then (ok tt, w) else let (r, w') = A.remove_all path w in (or_fatal r, w')

  -- `defer cleanup()`: it runs however the call ends, but not where the process has.
  abbrev pub deferred : {B : Type 0} → Cleanup → Reply B × World → Reply B × World
  deferred cleanup (ok b, w) =
      let (r, w') = run_cleanup cleanup w in (bind_outcome r (λ _. ok b), w')
  deferred cleanup (err e, w) =
      let (r, w') = run_cleanup cleanup w in (bind_outcome r (λ _. err e), w')
  deferred cleanup (crash k, w) = (crash k, w)

  -- The file that could not be written to is removed.
  abbrev or_removed : String → Reply Unit × World → Reply (String × Cleanup) × World
  or_removed path (ok u, w) = (ok (path, some path), w)
  or_removed path (err e, w) =
      let (r, w') = run_cleanup (some path) w in (bind_outcome r (λ _. err e), w')
  or_removed path (crash k, w) = (crash k, w)

  unfoldable pub write_temp_file : KubeConfig → String → Stored (String × Cleanup)
  unfolding bytes
  write_temp_file k root = do
    text ← bytes k
    path ← outside (A.temp_file root "kubeconfig-")
    outside (λ w. or_removed path (A.write_temp path text w))

  unfoldable pub get_file : KubeConfig → Stored (String × Cleanup)
  unfolding write_temp_file
  get_file k = if is_set k.path then pure (k.path, none) else write_temp_file k k.dump_root

  unfoldable pub merged_bytes : KubeConfig → String → Stored String
  unfolding write_temp_file
  merged_bytes k path = do
    (file, cleanup) ← write_temp_file k k.dump_root
    outside (λ w. deferred cleanup (bind_outcome (A.load_files (path ∷ file ∷ []) w) C.write, w))

  -- WriteFile
  unfoldable pub write_kubeconfig_file : KubeConfig → String → Bool → Stored Unit
  unfolding merged_bytes bytes
  write_kubeconfig_file k path merge = do
    text ← if merge && is_set path then merged_bytes k path else bytes k
    outside (A.write_file path text)

  -- Write; `out` is the writer.
  unfoldable pub write_to : (String → Method Unit) → KubeConfig → Stored Unit
  unfolding bytes
  write_to out k = do text ← bytes k; outside (out text)

  -- FromByte, FromFile and FromConfig
  abbrev pub from_byte : String → Method String
  from_byte text w = (ok text, w)

  unfoldable pub from_file : String → Method String
  unfolding expand_tilde
  from_file path w = (A.read_file (expand_tilde A.home_dir path) w, w)

  abbrev pub from_config : KubeConf C → Method String
  from_config conf w = (C.write conf, w)

  -- v1alpha1.GetKubeconfigOptions
  pub record GetKubeconfigOptions : Type 0 where
    pub timeout : String
    pub managed_cluster_namespace : String
    pub managed_cluster_name : String

  -- The value of a secret that was read, which must not be empty.
  abbrev value_of : String → Option String → Reply String
  value_of name none = err (malformed_kubeconfig name)
  value_of name (some text) = if text == "" then err (malformed_kubeconfig name) else ok text

  -- What one poll does next; `again` are the polls that follow where the secret cannot be read.
  abbrev polled : String → Method String → Reply (Option String) × World → Reply String × World
  polled name again (ok found, w) = (value_of name found, w)
  polled name again (err e, w) = again (A.wait_a_second w)
  polled name again (crash k, w) = (crash k, w)

  unfoldable pub poll_secret : ℕ → String → String → String → Client → Method String
  poll_secret zero name namespace secret c w =
      (err (library_error "timed out waiting for the condition"), w)
  poll_secret (suc n) name namespace secret c w =
      polled name (poll_secret n name namespace secret c) (A.secret_value c namespace secret w)

  -- FromSecret
  unfoldable pub from_secret : Client → GetKubeconfigOptions → Method String
  unfolding poll_secret
  from_secret c o w =
      if o.managed_cluster_name == ""
      then (err cluster_name_empty, w)
      else poll_secret (A.polls_within o.timeout) o.managed_cluster_name
          (if o.managed_cluster_namespace == "" then "default" else o.managed_cluster_namespace)
          (o.managed_cluster_name <> "-kubeconfig") c w
