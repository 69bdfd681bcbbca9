-- ===== src/Lib.antt =====
-- The hosted control plane controller, as functions and theorems about them.
--
-- The program reconciles resources of the kind HostedControlPlane: it runs the control plane of a
-- Kubernetes cluster as pods of a management cluster. The controller loads a resource, finds the
-- cluster that owns it, and runs a list of phases, each of which brings one part of the control
-- plane up to date and sets one condition; behind them a deferred function patches the resource.
-- A webhook checks the resources before they are stored.
--
-- Which file models what (paths from the root of the repository):
-- - Api: api/v1alpha1/hostedcontrolplane_types.go and hostedcontrolplane.go, the resource as far
--   as it is read or written here, and its defaults.
-- - Quantity: the interface to `resource.Quantity` of Kubernetes, with the laws that the code relies
--   on, and whole numbers as one implementation of it.
-- - Controller: pkg/hostedcontrolplane/controller.go. State has the object in memory and the world
--   behind it; Phases the loop of `reconcileNormal` over the phases, Normal the rest of that
--   function; Patch `patch`; Reconcile `Reconcile` and `reconcileDelete`; Mapping the functions that
--   turn a changed object into requests.
-- - Etcd: pkg/reconcilers/etcd_cluster/reconciler.go. Calls has the calls that go out, which are
--   logged, and what they answer; Space the usage and the size of the volumes; Volumes the pods and
--   the volume claims; Defragmentation the maintenance; Health the alarms; Backup the snapshots;
--   Container the arguments of the container; Cluster `ReconcileEtcdCluster`, which composes them.
--   Schedule is backup_schedule.go beside it.
-- - Webhook: api/v1alpha1/webhook/hostedcontrolplane_webhook.go.
-- - Args, Images, Names: pkg/operator/util/args.go, images.go, names/names.go and names/labels.go.
-- - Objects: what the apply configurations of Kubernetes have in common, with
--   pkg/operator/util/owner_references.go, pod_topology_spread_constraints.go and probes.go.
-- - NetworkPolicy: pkg/util/networkpolicy/target.go.
-- - Reconcilers: pkg/reconcilers/reconciler.go. Rules and Policies have the network policies; Pod the
--   templates of pods, with pkg/operator/util/pod.go; Resources disruption budgets, Services, Secrets
--   and ConfigMaps; Workload what deployments and stateful sets share; Deployment
--   `reconcileDeployment`; Selectors the labels of a stateful set that exists already; StatefulSet
--   `reconcileStatefulset`.
-- - Checksum: pkg/operator/util/checksum.go.
-- - Certificates: pkg/reconcilers/certificates/reconciler.go. Specs has the certificates of a
--   cluster, Authorities the CAs with their issuers, Bundles the bundles of the old and the new CA,
--   Orphans the cleanup.
-- - Rotation: pkg/reconcilers/node_rotation/reconciler.go.
-- - VolumeStats: pkg/reconcilers/etcd_cluster/volume_stats/volume_stats.go.
-- - ApiServer: the volumes and the command lines of
--   pkg/reconcilers/apiserverresources/apiserverresources.go.
-- - Prelude: what the others share. Exec has Go's errors and actions on a state that may fail, where
--   the state comes back beside an error; Sorting maps with text keys; Int the integers over the
--   native numbers.
-- - Scenarios: concrete resources and answers, at which the theorems are applied.
--
-- How the code is modelled. A function with a context, an object and an error is an action on a
-- state, `Exec S A`; a wrapped error keeps its message. The reconcilers that the phases call are a
-- record of actions (`Reconcilers`), and the calls of etcd, S3, the API servers and the clock are
-- answered by a record of functions of the calls so far (`Answers`), so that a theorem holds for
-- every order of successes and failures. The libraries for conditions, patches, versions, cron
-- expressions and quantities are parameters, with laws where the code relies on them.
--
-- Each reconciler has a record of the clients that it calls, as actions on an unknown state; an
-- error of an API server is asked for its reason and its causes (`ApiErrors`), and a nil pointer that
-- the code reads is an error of its own. Within one API server call, what is applied is the whole
-- apply configuration.
--
-- Bounds. Loops are structural recursion over lists, but for two. The fuel of `decimal` is one more
-- than the number and so more than its digits. `reconcileSecret` calls itself behind a deletion, as
-- often as the new Secret is refused for its type; `secret_rounds` has the number of its calls, and
-- gives no result where they are not enough: one more than the refusals that follow each other is.
-- Sizes in bytes are integers; the product in the quota of the database is taken modulo 2 ^ 64 as
-- the code takes it. The comparison of the fragmentation is exact where the code uses floats.
--
-- Not modelled: events, traces and logs, which change no result; the containers, deployments and
-- audit configuration of the API server, and the reconcilers of kubeconfigs, of workload resources,
-- of TLS routes and of the infrastructure cluster, which stand behind `Reconcilers`; of the etcd
-- stateful set, all but its name, image, arguments and storage request; the wrappers that pass the
-- clients of one cluster to the shared functions; generated code.
pub mod Prelude
pub mod Api
pub mod Quantity
pub mod Controller
pub mod Names
pub mod Webhook
pub mod Args
pub mod Images
pub mod Etcd
pub mod Scenarios
pub mod Objects
pub mod NetworkPolicy
pub mod Reconcilers
pub mod Checksum
pub mod Certificates
pub mod Rotation
pub mod VolumeStats
pub mod ApiServer
