-- ===== src/Lib.antt =====
-- A verification library for the resource management of cloud-native (Kunpeng cloud computing).
--
-- Five parts are modelled. The first is the topology-aware policy of kunpeng-tap
-- (pkg/kunpeng-tap/policy/topology-aware). A hook asks the policy for CPUs and memory when a
-- container is created. The policy turns the container into a request, filters the nodes of the
-- hardware tree by capacity, sorts and picks one, allocates from its supply, books the grant at
-- all nodes above it and keeps it in a map. The hook at the end of a container takes the grant
-- back, and after a restart the grants are rebuilt from the cached containers. The second part is
-- what stands around the policies in kunpeng-tap: three servers (pkg/kunpeng-tap/server) take the
-- requests of the kubelet and the calls of containerd, show them to the policy manager
-- (pkg/kunpeng-tap/policy), which runs every policy and merges what they allocate, write the
-- answer into the request, and note the pods and containers in the cache (pkg/kunpeng-tap/cache),
-- where the policies look them up. The third part is the agent of kunpeng-tap-pcore-binding
-- (pkg/kunpeng-tap-pcore-binding), a program of its own: handlers keep a table of pods, and a
-- pass over the table gives each matching pod the two CPUs of a physical core. The fourth is the
-- admission webhook of kae-device-plugin (pkg/kae-device-plugin/webhook), which gives new pods an
-- accelerator and environment variables. The fifth is the dynamic control of the QoS controller
-- (pkg/kunpeng-qos-controller/dynamiccontrol), which tightens the policy of a node step by step
-- when the agent on it reports interference.
--
-- Files and code (file names are in the policy's directory unless a path is given):
-- - Word64: `int`, `int64` and `uint64` as bit patterns below 2 ^ 64, with Go's wrap-around.
-- - TopologyAware/CpuSets: k8s.io/utils/cpuset, a parameter of all that follows (a record of
--   functions, with no laws: no theorem needs one).
-- - TopologyAware/Outcome: the results of fallible functions; `panic` is a nil dereference.
-- - TopologyAware/Request, Request/Devices: request.go, and `ContainerRequest`, `GetRequests` and
--   `GetLimits` of pkg/kunpeng-tap/policy/container_context.go. Texts that the code takes apart
--   are lists of code points. The regular expression of the one known device is a function.
-- - TopologyAware/Supply: supply.go (`Allocate`, `AllocateCPU`, `Release`, `Collect`, `GetScore`
--   and the amounts), grant.go and score.go.
-- - TopologyAware/Tree: node_types.go, node_base.go and node_impl.go. A node is its place in the
--   list of nodes, `none` is the nil node, and the supplies that the nodes hold are a function
--   from places.
-- - TopologyAware/Propagate: resource_propagator.go.
-- - TopologyAware/Policy: the state of topology_aware.go. What the policy asks sysfs about
--   accelerators (`system.System`) is the record `Gpus`.
-- - TopologyAware/Filter, TopologyAware/Sorter: pool_filter.go and pool_sorter.go.
-- - TopologyAware/Selection: `findBestAvailablePool`, `findGPUAffinityPool` and the choice inside
--   `allocatePool`.
-- - TopologyAware/Hooks: `PreCreateContainerHook`, `AllocateResources`, `allocatePool`,
--   `PostStopContainerHook`, `ReleaseResources` and `releasePool` of topology_aware.go, and
--   `ParseCgroupForQOSClass` of pkg/kunpeng-tap/policy/util.go. The map of grants is an
--   association list. Locks are left out: each hook is one step.
-- - TopologyAware/Builder: topology_builder.go, the constructors of node_impl.go, and
--   `LinkParent`, `AddChildren` and `SetNodeID` of node_base.go. The answers of `system.System`
--   are an argument.
-- - TopologyAware/Rebuild: state_rebuild.go; the cached containers are its argument.
-- - TopologyAware/Examples: a small machine, and below it runs of the policy and the theorems at
--   it.
-- - Cache/Store: the tables of pkg/kunpeng-tap/cache/cache.go (`InsertPod`, `DeletePod`,
--   `InsertContainer`, `UpdateContainerID`, `DeleteContainer`, `SetContainerState` and the
--   lookups). A Go map is an association list (Cache/Table); the map of containers has addresses
--   into a heap of container objects, since two keys may point to one object and a pod has its
--   own map of addresses.
-- - Cache/Pods, Cache/Containers: pod.go and container.go: a pod or a container read from the
--   message of a hook, of NRI or of the CRI. Cache/Messages has the fields of the messages that
--   are read.
-- - Cache/Setters: the setters of container.go and the pending marks.
-- - Cache/Resources, Cache/Convert: the estimates from Linux resources and the conversions
--   between the messages, of utils.go, container.go and the policies' util.go. Cache/Validate:
--   the search for stale containers and their clean-up; Cache/Load: `LoadStoreDocker`, with the
--   daemon's answers as a record `DockerClient`; Cache/Containerd: `LoadStoreContainerd`, with
--   the answers as `RuntimeClient`.
-- - Cache/Refresh: `RefreshPods` and `RefreshContainers`, with the mutex: a call that would lock
--   it a second time is the result that the whole waits for ever. Elsewhere each operation of the
--   cache is one step, and locks are left out.
-- - Server/Dispatcher: pkg/kunpeng-tap/server/dispatcher for the creation and the stop of a
--   container by the CRI; Server/Dispatcher/Pods for the sandboxes of pods. Server/DockerHandler:
--   pkg/kunpeng-tap/server/docker/handler.go, and Server/DockerUtils its utils/utils.go.
--   Server/Nri: pkg/kunpeng-tap/server/nri/server.go. They take the hook manager
--   (Server/HookManager, a record of functions on a state of its own), the runtime (`Runtime`) or
--   the daemon (`DockerDaemon`) as parameters: no laws are asked of them. `path.Join` and
--   `path.Base` are functions that they take.
-- - PolicyManager: the registry and the container hooks of pkg/kunpeng-tap/policy/policy.go;
--   PolicyManager/Merge: `mergeAllocations` there; PolicyManager/Context: container_context.go
--   and util.go of that directory.
-- - Kae/Webhook: pod_mutator.go and pod_webhook.go of pkg/kae-device-plugin/webhook. Quantities
--   and `IsQualifiedName` are Kubernetes' and parameters. Kae/Webhook/Options: the lists of
--   options.go.
-- - Qos/Dynamic: qospolicy_dynamic_updater.go of dynamiccontrol, with Qos/Dynamic/Reasons for
--   `normalizeInterferenceReasons` of coordinator.go. The client of the API server is the record
--   `PolicyClient`; numbers are patterns of 32 bits. The copy of a Spec shares the map of its
--   selector, which is written out.
-- - Qos/Dynamic/Examples, Kae/Webhook/Examples, Cache/Examples, Server/Examples,
--   PolicyManager/Examples: small caches and requests, and the theorems at them.
-- - PcoreBinding/Topology: topology/siblings.go of pkg/kunpeng-tap-pcore-binding. The files are
--   an argument. `strconv.Atoi` and the trimming and splitting of texts are functions of the
--   model.
-- - PcoreBinding/Agent: plugin/agent.go there: the handlers, `match`, `normalizeCpuset` and
--   `targetCpuset`.
-- - PcoreBinding/Reconcile: `reconcileOnce` and `listPods` of plugin/agent.go. The files of the
--   cgroups are a state; the search for a pod's cgroups and the success of writes are the record
--   `System`. The field `assigned` of `Pass` is a record of the pass for its theorems.
-- - PcoreBinding/Examples: tests of the agent.
--
-- The files below a module hold its theorems and are named for what they prove.
--
-- Fuel: the loops that climb from a node to the root have one more than the node's place as fuel
-- (`check_request_from`, `check_memory_from`), or the place itself where they start at the parent
-- (`propagate_from`). In an ordered list (`IsOrdered`) a parent stands before its children, so
-- they reach the top before the fuel ends, and the theorems about them say what they compute in
-- full. `numa_ids_in` and `memory_info_in` have fuel 4 for a tree of at most four levels.
-- `collect_nodes` has one more than the number of nodes: a child stands after its parent in the
-- list, so no way down is longer.
--
-- Numbers from float64: `round_div` of Rebuild writes the rounded quotient exactly; float64 gives
-- the same below 2 ^ 51.
--
-- Not modelled: log lines and metrics; the snapshots of the cache on disk; the life of the
-- servers (listening, gRPC forwarding, the stub of NRI); the numa-aware policy; the sysfs package
-- of kunpeng-tap, which reads the hardware from files; and the other programs of the repository
-- (the rest of kae-device-plugin, the rest of the QoS controller and the performance monitor). Of
-- the agent: the stub of NRI, the ticker, and the search for cgroup paths.
mod Prelude
pub mod Word64
pub mod TopologyAware
pub mod PcoreBinding
pub mod Cache
pub mod Kae
pub mod Qos
pub mod Server
pub mod PolicyManager
