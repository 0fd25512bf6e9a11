-- ===== src/Lib.antt =====
-- The CITA node operator: what its job binary does to the nodes of a chain.
--
-- The operator makes Kubernetes jobs, and each job runs one subcommand of a binary (pkg/cmd) on one
-- node of a chain. The subcommand reads its flags, makes the node of its deploy method (pkg/node),
-- and calls one operation of it. An operation stops the node, waits until it has stopped, works on
-- the node's files by shell commands and the file system (pkg/node/behavior, pkg/common), and
-- starts the node again. The reconcilers (controllers) set the defaults of a resource, give the
-- jobs their rights, make the job and let the resource's status follow it. A switchover
-- (pkg/switchover) exchanges the accounts of two nodes.
--
-- Base: the shared helpers. Effects of Go code are functions of a world that return, fail with an
--   error or panic, and give the world back in each case (Base/Effects); statements about them are
--   triples (Base/Hoare). Base/Text has what is used of strings, path/filepath and strconv.
-- Host: the machine that a job runs on, and in Host/Laws what its documentation promises.
-- Kube: the Kubernetes objects with the fields in use, the client, and in Kube/Laws its laws. A
--   write that fails may have been stored; no other client writes at the same time.
-- Common: pkg/common. Behavior: pkg/node/behavior/behavior.go.
-- Node: pkg/node. Node/CloudConfig, Node/Python and Node/Helm are the kinds of nodes, by the
--   packages cloud_config, python and helm; Node/Registry is the map of creators. Node/CloudConfig
--   and Node/Python share the laws of one change of a workload (Kube/Edits). Node/Contract says what a client of two nodes may rely on.
-- Controllers: the reconcilers (controllers). Controllers/Objects is their client with its laws,
--   Controllers/JobRbac is job_rbac.go, Controllers/Labels is labels.go, affinity.go and utils.go.
--   The eight Reconcile methods that make jobs are alike: Controllers/Jobs has what they share
--   (with ttl.go and common.go), and Controllers/Jobs/Reconcile is the method over a record, Kind,
--   of what tells them apart. Controllers/Fallback, Backup, Snapshot, Duplicate, Recover, Restore,
--   ChangeOwner and Switchover are blockheightfallback_controller.go, backup_controller.go and so
--   on: each has the resource, its defaults, the maker of its job, and its Kind, for which its
--   Laws fill the interface of the shared proofs. A run of a reconciler is related to a step of
--   an abstract state machine; what the steps keep is kept by any number of runs and of CleanJob.
--   Controllers/Jobs/Describes reads off a job what it runs and what it finds at which path. Controllers/CitaNode is citanode_controller.go
--   with cache.go: the status machine, and in its child Reconcile the run on the cluster and the
--   variable NodeMap. Controllers/NodeSet is statefulset.go, Controllers/NodeConfig node_service.go,
--   configmap.go and service.go, and Controllers/NodeNames constant.go and names.go.
-- Cmd: pkg/cmd, from the parsed flags to the exit code; Cmd/Flags has the flags as they are
--   declared, over a parser that keeps the documentation of cobra (of numbers, only for the text
--   that strconv writes), and Cmd/Jobs relates the words of
--   the jobs that the reconcilers make to what they run. Switchover: pkg/switchover/switchover.go.
-- Tests: a cluster and a machine in memory, which keep the laws, and the theorems at them.
--
-- Shell commands, the archiver, the cluster client, retry.RetryOnConflict and wait.Poll are
-- parameters: the code only calls them. Loops over lists are recursion on the list; the digits of
-- a number are made on fuel, its value plus one, which Base/Text/Decimal proves is enough. Logging
-- and the start of the manager are not modelled: they are calls of libraries.

pub mod Base
pub mod Host
pub mod Common
pub mod Behavior
pub mod Kube
pub mod Node
pub mod Cmd
pub mod Switchover
pub mod Controllers
mod Tests
