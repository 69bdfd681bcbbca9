-- ===== src/Etcd/Cluster.antt =====
-- `ReconcileEtcdCluster` of pkg/reconcilers/etcd_cluster/reconciler.go: the whole of one
-- reconciliation of etcd, in the terms of its parts. Of the stateful set the model keeps what
-- `EtcdSet` holds; how it is applied is the matter of pkg/reconcilers/reconciler.go.
pub mod Frame
pub mod Members
pub mod Steps
pub mod Success
pub mod Laws
use cluster_api_provider_hos.Prelude.{
  ℕ, ◌/◌, ◌<◌, String, Bool, true, false, not, Option, none, some, List, arith, ◌==◌, string_eq,
  nat_eq, Eq, option_eq, if◌then◌else◌, ◌<>◌,
}
use cluster_api_provider_hos.Prelude.Exec.{Exec, pure, wrapping, ◌>>=◌, ◌>>◌}
use cluster_api_provider_hos.Quantity.{Quantities}
use cluster_api_provider_hos.Api.{Cluster, EtcdBackup}
use cluster_api_provider_hos.Names.{get_etcd_service_name, get_etcd_client_service_name}
use cluster_api_provider_hos.Etcd.Calls.{
  Pod, apply_service, new_etcd_client, apply_stateful_set, Answers, EtcdState, call,
}
use cluster_api_provider_hos.Etcd.Space.{Storage, reconcile_space_usage, reconcile_volume_size}
use cluster_api_provider_hos.Etcd.Volumes.{list_etcd_pods, reconcile_pvc_sizes}
use cluster_api_provider_hos.Etcd.Container.{Semver, Ports, etcd_set}
use cluster_api_provider_hos.Etcd.Defragmentation.{reconcile_maintenance}
use cluster_api_provider_hos.Etcd.Health.{etcd_is_healthy}
use cluster_api_provider_hos.Etcd.Backup.{reconcile_backup}

-- `else if !ready { return "…", nil }`, and otherwise the rest of the function.
unfoldable pub when_ready : {S : Type 0} → String → Bool → Exec S String → Exec S String
when_ready reason true rest = rest
when_ready reason false rest = pure reason

module _ (q : Quantities) (v : Semver) (storage : Storage q.Quantity) (answers : Answers q.Quantity)
    (ports : Ports) (cluster : Cluster) where
  open q use {Quantity}

  -- `reconcileService`: ready as soon as the service has a cluster IP.
  unfoldable pub reconcile_service : String → Bool → Exec (EtcdState Quantity) Bool
  reconcile_service name headless s =
      (do
        ip ←
            wrapping ("failed to apply service " <> s.hcp.namespace <> "/" <> name)
              (call (apply_service name headless) answers.apply_service)
        pure (not (ip == "")))
        s

  unfoldable pub reconcile_stateful_set : Exec (EtcdState Quantity) Bool
  reconcile_stateful_set s =
      call (apply_stateful_set (etcd_set q v s.hcp cluster ports)) answers.apply_stateful_set s

  unfoldable pub backup_if_set : Option EtcdBackup → Exec (EtcdState Quantity) Unit
  backup_if_set none = pure tt
  backup_if_set (some backup) =
      wrapping "failed to reconcile etcd backup" (reconcile_backup answers backup)

  -- What stands behind the stateful set.
  unfoldable pub reconcile_members : List Pod → Exec (EtcdState Quantity) String
  reconcile_members pods s =
      (do
        reconcile_maintenance answers pods
        etcd_is_healthy q storage answers
        backup_if_set s.hcp.spec.etcd.backup
        pure "")
        s

  -- What stands behind the services.
  unfoldable pub reconcile_storage : Exec (EtcdState Quantity) String
  reconcile_storage = do
    pods ← list_etcd_pods answers
    wrapping "failed to reconcile etcd space usage" (reconcile_space_usage q answers pods)
    reconcile_volume_size q storage
    wrapping "failed to reconcile size of etcd PVCs" (reconcile_pvc_sizes q answers)
    wrapping "failed to create etcd client" (call new_etcd_client answers.new_etcd_client)
    ready ← wrapping "failed to reconcile etcd StatefulSet" reconcile_stateful_set
    when_ready "etcd StatefulSet is not ready" ready (reconcile_members pods)

  unfoldable pub reconcile_client_service : Exec (EtcdState Quantity) String
  reconcile_client_service = do
    ready ←
        wrapping "failed to reconcile etcd client service"
          (reconcile_service (get_etcd_client_service_name cluster) false)
    when_ready "etcd client Service not ready" ready reconcile_storage

  unfoldable pub reconcile_etcd_cluster : Exec (EtcdState Quantity) String
  reconcile_etcd_cluster = do
    ready ←
        wrapping "failed to reconcile etcd service"
          (reconcile_service (get_etcd_service_name cluster) true)
    when_ready "etcd peer Service not ready" ready reconcile_client_service
