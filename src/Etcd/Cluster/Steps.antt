-- ===== src/Etcd/Cluster/Steps.antt =====
-- The services, the stateful set and the backup keep what `Evolved` says.
use cluster_api_provider_hos.Prelude.{
  String, Bool, not, Option, none, some, ◌==◌, string_eq, nat_eq, option_eq, ◌<>◌,
}
use cluster_api_provider_hos.Prelude.Exec.{pure, wrapping}
use cluster_api_provider_hos.Quantity.{Quantities}
use cluster_api_provider_hos.Api.{Cluster, EtcdBackup}
use cluster_api_provider_hos.Etcd.Calls.{Answers, call, apply_service, apply_stateful_set}
use cluster_api_provider_hos.Etcd.Space.{Storage}
use cluster_api_provider_hos.Etcd.Container.{Semver, Ports, etcd_set}
use cluster_api_provider_hos.Etcd.Cluster.{reconcile_service, reconcile_stateful_set, backup_if_set}
use cluster_api_provider_hos.Etcd.Cluster.Frame.{
  Evolves, bind-Evolves, wrapping-Evolves, pure-Evolves, call-Evolves,
}
use cluster_api_provider_hos.Etcd.Cluster.Members.{reconcile_backup-Evolves}

module _ (q : Quantities) (v : Semver) (storage : Storage q.Quantity) (answers : Answers q.Quantity)
    (ports : Ports) (cluster : Cluster) where
  open q use {Quantity}

  pub service-Evolves :
      (name : String) (headless : Bool)
      → Evolves q (reconcile_service q v storage answers ports cluster name headless)
  unfolding reconcile_service Evolves
  service-Evolves name headless s =
      bind-Evolves q
        (wrapping ("failed to apply service " <> s.hcp.namespace <> "/" <> name)
          (call (apply_service name headless) answers.apply_service))
        (λ ip. pure (not (ip == "")))
        (call-Evolves q (apply_service name headless) answers.apply_service)
        (λ ip. pure-Evolves q (not (ip == ""))) s

  pub stateful_set-Evolves : Evolves q (reconcile_stateful_set q v storage answers ports cluster)
  unfolding reconcile_stateful_set Evolves
  stateful_set-Evolves s =
      call-Evolves q (apply_stateful_set (etcd_set q v s.hcp cluster ports))
        answers.apply_stateful_set s

  pub backup_if_set-Evolves :
      (o : Option EtcdBackup) → Evolves q (backup_if_set q v storage answers ports cluster o)
  unfolding backup_if_set
  backup_if_set-Evolves none = pure-Evolves q tt
  backup_if_set-Evolves (some b) =
      wrapping-Evolves q _ _ (reconcile_backup-Evolves q storage answers b)
