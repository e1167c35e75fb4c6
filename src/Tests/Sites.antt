-- ===== src/Tests/Sites.antt =====
-- A site of two clusters: the kubeconfig of one is a file, that of the other a secret of the first.
use airshipctl.Base.{
  ℕ, suc, ◌≤◌, ltb, String, ◌==◌, true, none, some, [], ◌∷◌, if◌then◌else◌, ok, err, ◌≡◌, ◌≢◌, refl,
}
use airshipctl.Base.GoMap.{made, get, put, GoMap, unmade}
use airshipctl.Clusters.{Cluster, ClusterMap, KubeconfigSource, validate_cluster_map}
use airshipctl.Kubeconfig.Merging.{
  ApiContext, ApiConfig, ClientCmd, Reply, library_error, empty_config, chosen_context,
  merge_context_api, extract_context,
}
use airshipctl.Kubeconfig.Merging.Contexts.{merged, merge_context_api-eq-ok}
use airshipctl.Kubeconfig.Files.{Access, poll_secret}
use airshipctl.Kubeconfig.Files.Temporary.{ReadAt, poll_secret-eq-ok}
use airshipctl.Kubeconfig.Building.{
  Builder, new_builder, already_built, build_one, build_kubeconfig,
}
use airshipctl.Kubeconfig.Building.Depth.{build_kubeconfig_ends, build_one_circular}

-- A kubeconfig with one context, of this name.
abbrev conf_of : String → Reply (ApiConfig String String)
conf_of name = ok (record {
  contexts = made ((name, record { cluster = "c"; auth_info = "admin"; namespace = "" }) ∷ []);
  auth_infos = made (("admin", "key") ∷ []);
  clusters = made (("c", "https://c") ∷ []);
  current_context = "";
})

-- Only an empty kubeconfig can be written, as the empty text; any other text is read as a name.
unfoldable text_of_parts : GoMap ApiContext → GoMap String → GoMap String → String → Reply String
text_of_parts (made []) (made []) (made []) c =
    if c == "" then ok "" else err (library_error "large")
text_of_parts (made []) (made []) (made (k ∷ ks)) c = err (library_error "large")
text_of_parts (made []) (made []) unmade c = err (library_error "large")
text_of_parts (made []) (made (u ∷ us)) ks c = err (library_error "large")
text_of_parts (made []) unmade ks c = err (library_error "large")
text_of_parts (made (x ∷ xs)) us ks c = err (library_error "large")
text_of_parts unmade us ks c = err (library_error "large")

abbrev clientcmd : ClientCmd
clientcmd = record {
  AuthInfo = String;
  ClusterInfo = String;
  write = λ conf. text_of_parts conf.contexts conf.auth_infos conf.clusters conf.current_context;
  load = λ text.
      if text == ""
      then ok (record {
        contexts = made [];
        auth_infos = made [];
        clusters = made [];
        current_context = "";
      })
      else conf_of text;
}

-- A file holds its path; the secret can be read from the second poll on.
abbrev access : Access clientcmd
access = record {
  World = ℕ;
  home_dir = "/home/airship";
  read_file = λ path w. ok path;
  write_file = λ path text w. (ok tt, w);
  temp_file = λ dir prefix w. (ok "/tmp/kubeconfig-1", w);
  write_temp = λ path text w. (ok tt, w);
  remove_all = λ path w. (ok tt, w);
  load_files = λ paths w. err (library_error "no file");
  Client = Unit;
  client_for = λ path context w. (ok tt, w);
  secret_value = λ c namespace name w.
      (if ltb 0 w then ok (some name) else err (library_error "not found"), w);
  wait_a_second = λ w. suc w;
  polls_within = λ timeout. 30;
}

poll_secret-eq-ok_example :
    ReadAt clientcmd access "beta" "default" "beta-kubeconfig" tt 30 0 "beta-kubeconfig"
unfolding poll_secret
poll_secret-eq-ok_example =
    (poll_secret-eq-ok clientcmd access "beta" "default" "beta-kubeconfig" tt 30 0
        "beta-kubeconfig").0
      refl

abbrev source : KubeconfigSource
source = record {
  type = "filesystem";
  path = "/alpha";
  filesystem_context = "";
  bundle_context = "";
  name = "beta";
  namespace = "default";
  timeout = "30s";
}

abbrev through_api : KubeconfigSource
through_api = record source { type = "clusterAPI" }

abbrev site : ClusterMap
site = made (
    ("alpha", some (record { parent = ""; sources = source ∷ [] }))
    ∷ ("beta", some (record { parent = "alpha"; sources = through_api ∷ [] }))
    ∷ [])

build_kubeconfig_ends_example :
    (k : ℕ) × ((n : ℕ) (b : Builder clientcmd access site (err (library_error "no bundle")))
      → k ≤ n
      → build_kubeconfig clientcmd access site (err (library_error "no bundle")) n true [] b ≢ none)
unfolding validate_cluster_map get
build_kubeconfig_ends_example =
    build_kubeconfig_ends clientcmd access site (err (library_error "no bundle")) true [] refl

abbrev start : Builder clientcmd access site (err (library_error "no bundle"))
start = new_builder clientcmd access site (err (library_error "no bundle")) 0

abbrev alpha_context : ApiContext
alpha_context = record { cluster = "c"; auth_info = "admin"; namespace = "" }

abbrev built : Builder clientcmd access site (err (library_error "no bundle"))
built = record start {
  site_kubeconf = record {
    contexts = made (("alpha", alpha_context) ∷ []);
    auth_infos = made (("admin", "key") ∷ []);
    clusters = made (("c", "https://c") ∷ []);
    current_context = "";
  };
}

merge_context_api-eq-ok_example :
    (context : ApiContext) × (user : String) × (cluster : String) × (chosen_context clientcmd ""
        built.site_kubeconf.contexts
      ≡ ok context)
    × (get context.auth_info built.site_kubeconf.auth_infos ≡ some user)
    × (get context.cluster built.site_kubeconf.clusters ≡ some cluster)
    × (record (built.site_kubeconf) { contexts = made (("renamed", alpha_context) ∷ []) }
        ≡ merged clientcmd "renamed" context user cluster (empty_config clientcmd))
unfolding merge_context_api get put
merge_context_api-eq-ok_example =
    (merge_context_api-eq-ok clientcmd "renamed" "" built.site_kubeconf (empty_config clientcmd)
        (record (built.site_kubeconf) { contexts = made (("renamed", alpha_context) ∷ []) })
        (record {
          contexts_made = ([], refl);
          auth_infos_made = ([], refl);
          clusters_made = ([], refl);
        })).0
      refl

abbrev loop : Cluster
loop = record { parent = "loop"; sources = through_api ∷ [] }

abbrev looping : ClusterMap
looping = made (("loop", some loop) ∷ [])

build_one_circular_example :
    build_one clientcmd access looping
      (err (library_error "no bundle"))
      100
      "loop"
      (new_builder clientcmd access looping (err (library_error "no bundle")) 0)
    ≡ none
unfolding get already_built text_of_parts extract_context
build_one_circular_example =
    build_one_circular clientcmd access looping (err (library_error "no bundle")) loop through_api
      [] "loop" refl refl (λ e. cc) refl refl
      (new_builder clientcmd access looping (err (library_error "no bundle")) 0) refl 100
