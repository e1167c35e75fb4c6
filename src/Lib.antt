-- ===== src/Lib.antt =====
-- airshipctl manages the life cycle of a site: a configuration file that names contexts, manifests and
-- repositories; the documents that are pulled from these and built with kustomize; phases, and plans of
-- phases, whose executors run containers on the documents, with a kubeconfig that is made for them; and
-- out-of-band management of bare-metal nodes over Redfish.
--
-- Parts and files
--   Base       what the parts share: outcomes (a value, an error or a panic), chains of calls that
--              change a state, Go maps, Go's integers and paths, sorting of strings
--   Config     pkg/config. Types and Defaults are its structs, errors, constants and constructors;
--              Lookup is EnsureComplete and the getters; Edit the Add, Modify and Set functions of
--              config.go, management.go and config_helper.go; Repo is repo.go; Options and Print are
--              options.go; Persist the path, loading and saving of config.go; Run the commands of
--              config_helper.go; Host what they take from the machine
--   Redfish    pkg/remote. Types and Api are the data and the calls of go-redfish; Errors, Ids, Client
--              and Media are redfish/utils.go and redfish/client.go; Direct is ifc/ifc.go and
--              RemoteDirect, Dell the client of redfish/vendors/dell/client.go
--   Clusters   pkg/cluster/clustermap: the map of clusters and its validation, with Chains and Roots
--              on the loop of that, and Listing, which is Write
--   Phases     pkg/phase/client.go, render.go, and the lookups and listings of helper.go: Client is
--              one phase, Plan the plans, Rendering render.go, Listing the listings, Helper NewHelper and the
--              BaremetalInventory of pkg/inventory, Site what they take from documents and executors
--   Inventory  pkg/inventory: RunOperation and the clients of the hosts of baremetal/baremetal.go, and
--              Commands the commands of command.go
--   Documents  pkg/document but for its plugins, and pkg/bootstrap/cloudinit: Selectors, Values (document.go),
--              Bundles (bundle.go), Secrets (the helpers for hosts and metadata.go), CloudData, Tree (tree.go),
--              and Library, which is what they take from kustomize
--   Pulling    pkg/document/repo and pkg/document/pull: how repositories are cloned, opened and fetched
--   Kubeconfig pkg/k8s/kubeconfig: Merging is mergeContextAPI, Files is kubeconfig.go, Building builder.go
--   Containers pkg/container: Docker is container_docker.go, Running api.go, Types what they share
--   Bootstrap  pkg/bootstrap/ephemeral: the container that makes the ephemeral cluster
--   Executors  pkg/phase/executors: Applying is k8s_applier.go, Generic container.go, Clusterctl and
--              Providers are clusterctl.go, Registry common.go, and Ephemeral and Baremetal the files of
--              these names; Deferring is on their cleanups. Phases/Commands is pkg/phase/command.go
--   Replacing  pkg/document/plugin/replacement: the plugin that copies values between documents
--   Tests      the theorems at concrete inputs, on a file system and a controller in memory
--
-- How code is written here
--   A function that returns an error is one into `Outcome`, whose `crash` is a panic or log.Fatal; a
--   method that changes its receiver or the outside world is a `Proc`, which gives back the state also
--   where it fails. A pointer is an `Option`, a Go map a `GoMap` (nil or made, in one of the orders
--   that a walk may take). An operation has the name of the Go function in snake case. A command of
--   pkg/config reads and changes a `Config` value; the file it stands in is behind `Host`.
--
-- Taken from outside, as parameters
--   `Host` is the file system, the environment, the YAML library and a command's writer; `IsStorage`
--   says that a written file is read back. `Git` is go-git. `Api` is go-redfish with the controller
--   behind it, the clock, and the URL and JSON parsers; `Drives` says that a GET tells whether a drive
--   is loaded and that no GET or eject loads one. Print takes the YAML library, and as `format` what
--   fmt.Fprintf makes of a text without operands.
--   `Http` is the HTTP client of the Dell client. `Site` is what pkg/phase calls: documents, executors,
--   containers and the environment variable of the validator.
--   `Documents` is what pkg/inventory reads of the documents of its bundle.
--   `Kustomize` is kustomize with its resources and file systems; `IsResourceMap` says that a resource map
--   keeps the order of what is appended and that metadata that was set is read back. `TreeFiles` is the
--   file system and YAML library of BuildKustomTree, `GoGit` go-git, `ClientCmd` and `Access` clientcmd,
--   files and the API of a cluster, `DockerClient` the Docker client, `Runtime` what the client of
--   generic containers calls, `Outside` the clock and files of the bootstrap container (`CountsSleep`
--   says what it adds up), `Surroundings` what the executors take from the other parts: kubeconfig files,
--   the container client, the objects of the API and YAML. `Terminal` is what the commands print to.
--
-- Bounds
--   The loop of ValidateClusterMap has a fuel of two rounds more than there are clusters, for every
--   round but the first and the last visits a cluster that was not visited before. buildOne calls itself
--   for the parent of a cluster and has a fuel, the number of clusters that may stand above one another
--   (Kubeconfig/Building/Depth says when it is enough); BuildKustomTree calls itself for a directory and
--   has a fuel, the number of kustomizations on a way down (Documents/Tree/Walk). Where the fuel does
--   not last, the result is none. No other function runs on fuel: a polling loop runs for a number of
--   rounds that comes from the retries or the timeout. Retries and delays are Go's int; a loop counter
--   that passes 2^63 is not modelled. Paths are those of Unix.
--
-- Not modelled
--   Logging, the texts of errors, most String methods and EncodeString; two keys of a map that share a
--   pointer; a writer that fails. The KRM functions of pkg/container/runfn, which are derived from
--   kustomize; the templater of pkg/document/plugin, and its kyamlutils, whose selections and paths are
--   parameters of the replacement plugin; a node that two places of a document share; the programs below krm-functions, which run in
--   containers of their own; the cobra commands below cmd, which fill in options and call the commands
--   that are modelled; pkg/k8s but for kubeconfigs, which wraps client-go; generated code.
pub mod Base
pub mod Documents
pub mod Config
pub mod Redfish
pub mod Clusters
pub mod Phases
pub mod Inventory
pub mod Pulling
pub mod Kubeconfig
pub mod Containers
pub mod Bootstrap
pub mod Executors
pub mod Replacing
mod Tests
