-- ===== src/Executors/Registry.antt =====
-- common.go: the executors by their names.
use airshipctl.Base.{
  String, ◌==◌, List, [], ◌∷◌, if◌then◌else◌, Outcome, ok, err, crash, index_out_of_range, ◌>>=◌,
}
use airshipctl.Phases.Types.{Gvk}
use airshipctl.Executors.{unknown_executor_name, library_error, Reply, of}

-- The factories, by what they are registered for.
pub data Factory : Type 0 where
  clusterctl kubernetes_apply generic_container ephemeral bmh_manager : Factory

-- The switch of RegisterExecutor.
unfoldable pub factory_named : String → Reply Factory
factory_named name =
    if name == "clusterctl"
    then ok clusterctl
    else if name == "kubernetes-apply"
    then ok kubernetes_apply
    else if name == "generic-container"
    then ok generic_container
    else if name == "ephemeral"
    then ok ephemeral
    else if name == "BaremetalManager"
    then ok bmh_manager
    else err (unknown_executor_name name)

-- The registry: the first entry for a kind is the one that counts.
abbrev pub Registry : Type 0
Registry = List (Gvk × Factory)

-- RegisterExecutor; `object_kinds` is ObjectKinds of the scheme, for the object of a factory.
abbrev pub registered : List Gvk → Factory → Registry → Reply Registry
registered [] factory registry = crash index_out_of_range
registered (gvk ∷ gvks) factory registry = ok ((gvk, factory) ∷ registry)

unfoldable pub register_executor :
    (Factory → Outcome String (List Gvk)) → String → Registry → Reply Registry
unfolding factory_named
register_executor object_kinds executor_name registry = do
  factory ← factory_named executor_name
  gvks ← of library_error (object_kinds factory)
  registered gvks factory registry
