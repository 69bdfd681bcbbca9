-- ===== src/Controller/Normal.antt =====
-- `reconcileNormal` of pkg/hostedcontrolplane/controller.go: the networks of the cluster, the
-- reconcilers, the list of phases. The reconcilers are the interfaces that the code builds here.
pub mod Flags
pub mod Ready
use cluster_api_provider_hos.Prelude.{
  ℕ, ◌<◌, String, true, not, Option, none, some, List, [], ◌∷◌, arith, ◌==◌, string_eq, nat_eq, Eq,
  if◌then◌else◌, ◌<>◌, some_by,
}
use cluster_api_provider_hos.Prelude.Exec.{
  wrap, Result, ok, err, Exec, pure, fail, gets, wrapping, modify, ◌>>=◌, ◌>>◌, error_text,
}
use cluster_api_provider_hos.Prelude.Exec.{error_is, attempt}
use cluster_api_provider_hos.Prelude.Int.{ℤ}
use cluster_api_provider_hos.Api.{
  Cluster, Condition, condition_false, root_ca_certificate_duration_or_default,
  ca_certificate_duration_or_default,
}
use cluster_api_provider_hos.Controller.State.{State, CtrlResult, ConditionStore}
use cluster_api_provider_hos.Controller.Phases.{Phase, set_condition, run_phases}

-- The reconcilers that the phases call, by the names of their methods.
pub record Reconcilers (Q W : Type 0) : Type 0 where
  pub ca_certificates : Cluster → Exec (State Q W) String
  pub ca_bundles : Cluster → Exec (State Q W) String
  pub api_server_service : Cluster → Exec (State Q W) String
  pub sync_control_plane_endpoint : Cluster → Exec (State Q W) String
  pub tls_routes : Cluster → Exec (State Q W) String
  pub certificates : Cluster → Exec (State Q W) String
  pub etcd_cluster : Cluster → Exec (State Q W) String
  pub internal_kubeconfigs : Cluster → Exec (State Q W) Unit
  pub api_server_deployments : Cluster → Exec (State Q W) String
  pub kubernetes_service : Cluster → Exec (State Q W) String
  pub admin_kubeconfig : Cluster → Exec (State Q W) Unit
  pub ca_rotation : Cluster → Exec (State Q W) Unit
  pub workload_cluster_resources : Cluster → Exec (State Q W) String

module _ {Q W : Type 0} where
  -- `return "", err` for a reconciler with no reason.
  unfoldable pub no_reason : Exec (State Q W) Unit → Exec (State Q W) String
  no_reason x = do x; pure ""

  abbrev pub set_initialized : State Q W → State Q W
  set_initialized s = record s {
    hcp = record s.hcp { status = record s.hcp.status { control_plane_initialized = some true } };
  }

  abbrev pub set_ready : State Q W → State Q W
  set_ready s = record s { hcp = record s.hcp { status = record s.hcp.status { ready = true } } }

  unfoldable pub deployments_ready : String → Exec (State Q W) String
  deployments_ready not_ready s =
      if not_ready == "" then (ok "", set_initialized s) else (ok not_ready, s)

  -- The function literal of the phase "apiserver deployments".
  unfoldable pub reconcile_deployments : Exec (State Q W) String → Exec (State Q W) String
  unfolding deployments_ready
  reconcile_deployments x = do
    not_ready ← wrapping "reconcile api server deployments" x
    deployments_ready not_ready

  -- The function literal of the phase "admin kubeconfig".
  unfoldable pub reconcile_admin : Exec (State Q W) Unit → Exec (State Q W) String
  reconcile_admin x = do wrapping "reconcile api server deployments" x; modify set_ready; pure ""

  -- `phases`, in the order of the source.
  unfoldable pub phases : Reconcilers Q W → List (Phase Q W)
  phases r =
      record {
        name = "CA certificates";
        reconcile = r.ca_certificates;
        condition = "CACertificatesReady";
        failed_reason = "CACertificatesFailed";
      }
      ∷ record {
        name = "CA bundles";
        reconcile = r.ca_bundles;
        condition = "CABundleReady";
        failed_reason = "CABundleFailed";
      }
      ∷ record {
        name = "apiserver service";
        reconcile = r.api_server_service;
        condition = "APIServerServiceReady";
        failed_reason = "APIServerServiceFailed";
      }
      ∷ record {
        name = "sync controlplane endpoint";
        reconcile = r.sync_control_plane_endpoint;
        condition = "SyncControlPlaneEndpointReady";
        failed_reason = "SyncControlPlaneEndpointFailed";
      }
      ∷ record {
        name = "tlsroutes";
        reconcile = r.tls_routes;
        condition = "APIServerTLSRoutesReady";
        failed_reason = "APIServerTLSRoutesFailed";
      }
      ∷ record {
        name = "certificates";
        reconcile = r.certificates;
        condition = "CertificatesReady";
        failed_reason = "CertificatesFailed";
      }
      ∷ record {
        name = "etcd cluster";
        reconcile = r.etcd_cluster;
        condition = "EtcdClusterReady";
        failed_reason = "EtcdClusterFailed";
      }
      ∷ record {
        name = "internal kubeconfig";
        reconcile = λ c. no_reason (r.internal_kubeconfigs c);
        condition = "InternalKubeconfigReady";
        failed_reason = "InternalKubeconfigFailed";
      }
      ∷ record {
        name = "apiserver deployments";
        reconcile = λ c. reconcile_deployments (r.api_server_deployments c);
        condition = "APIServerDeploymentsReady";
        failed_reason = "APIServerDeploymentsFailed";
      }
      ∷ record {
        name = "kubernetes service";
        reconcile = r.kubernetes_service;
        condition = "KubernetesServiceReady";
        failed_reason = "KubernetesServiceFailed";
      }
      ∷ record {
        name = "admin kubeconfig";
        reconcile = λ c. reconcile_admin (r.admin_kubeconfig c);
        condition = "AdminKubeconfigReady";
        failed_reason = "AdminKubeconfigFailed";
      }
      ∷ record {
        name = "CA rotation annotation";
        reconcile = λ c. no_reason (r.ca_rotation c);
        condition = "CARotationAnnotationReady";
        failed_reason = "CARotationAnnotationFailed";
      }
      ∷ record {
        name = "workload cluster resources";
        reconcile = r.workload_cluster_resources;
        condition = "WorkloadSetupReady";
        failed_reason = "WorkloadSetupFailed";
      }
      ∷ []

-- What `reconcileNormal` calls outside of the repository's own code: Go's package net and
-- k8s.io/utils/net on networks, the discovery and the Cilium client of the management cluster;
-- and the constructors of the reconcilers, which take what has been found out before.
pub record Settings (Net Ip Cilium : Type 0) : Type 0 where
  pub cilium_client : Option Cilium
  pub service_domain : String
  pub service_cidr : Net
  pub pod_cidr : Net
  pub dns_ip : Ip
  pub kubernetes_service_ip : Ip
  pub root_ca_duration : ℤ
  pub ca_duration : ℤ

pub record Environment (Q W : Type 0) : Type 1 where
  pub Net : Type 0
  pub Ip : Type 0
  pub Cilium : Type 0
  pub ipv4_net : ℕ → ℕ → ℕ → ℕ → ℕ → Net
  pub net_text : Net → String
  pub parse_cidr : String → Result Net
  pub get_indexed_ip : Net → ℕ → Result Ip
  pub server_groups : Exec (State Q W) (List String)
  pub cilium_client : Exec (State Q W) (Option Cilium)
  pub new_reconcilers : Settings Net Ip Cilium → Reconcilers Q W

-- `ciliumv2.SchemeGroupVersion.Group` and the text of `workload.ErrCiliumNotInstalled`.
abbrev pub cilium_group : String
cilium_group = "cilium.io"

abbrev pub cilium_not_installed : String
cilium_not_installed = "cilium not installed"

-- `%q` of a text that needs no escapes.
abbrev quoted : String → String
quoted text = "\"" <> text <> "\""

module _ {Q W : Type 0} (store : ConditionStore) (env : Environment Q W) where
  open env use {
    Net, Ip, Cilium, ipv4_net, net_text, parse_cidr, get_indexed_ip, server_groups, cilium_client,
    new_reconcilers,
  }

  -- The condition that the checks of the networks set.
  unfoldable pub workload_failed : String → Condition
  workload_failed message = record {
    type = "WorkloadSetupReady";
    status = condition_false;
    reason = "WorkloadSetupFailed";
    message = message;
  }

  -- `if err != nil { conditions.Set(…); return ctrl.Result{}, … }`.
  unfoldable pub or_workload_failed : {A : Type 0} → String → Result A → Exec (State Q W) A
  unfolding workload_failed
  or_workload_failed what (ok a) s = (ok a, s)
  or_workload_failed what (err e) s = (
    err (wrap ("failed to " <> what) e),
    set_condition store (workload_failed ("Failed to " <> what <> ": " <> error_text e)) s,
  )

  -- A network of the cluster's specification, the default if there is none.
  unfoldable pub cluster_net : String → Net → String → Exec (State Q W) Net
  cluster_net kind default text =
      if text == ""
      then pure default
      else or_workload_failed ("parse " <> kind <> " CIDR " <> quoted text) (parse_cidr text)

  unfoldable pub keep_client : Result (Option Cilium) → Exec (State Q W) (Option Cilium)
  keep_client (ok client) = pure client
  keep_client (err e) =
      if error_is e cilium_not_installed
      then pure none
      else fail (wrap "failed to create cilium client" e)

  -- The Cilium client of the management cluster, if it has the API group of Cilium.
  unfoldable pub find_cilium : List String → Exec (State Q W) (Option Cilium)
  unfolding keep_client
  find_cilium groups =
      if some_by (λ group. group == cilium_group) groups
      then (do answer ← attempt cilium_client; keep_client answer)
      else pure none

  unfoldable pub reconcile_normal : Cluster → Exec (State Q W) CtrlResult
  unfolding cluster_net find_cilium or_workload_failed
  reconcile_normal cluster = do
    let service_domain =
        if cluster.service_domain == "" then "cluster.local" else cluster.service_domain
    service_cidr ← cluster_net "Service" (ipv4_net 10 96 0 0 12) cluster.services
    pod_cidr ← cluster_net "Pod" (ipv4_net 10 0 0 0 16) cluster.pods
    dns_ip ←
        or_workload_failed ("calculate DNS IP from Service CIDR " <> net_text service_cidr)
          (get_indexed_ip service_cidr 10)
    kubernetes_service_ip ←
        or_workload_failed
          ("calculate Kubernetes Service IP from Service CIDR " <> net_text service_cidr)
          (get_indexed_ip service_cidr 1)
    groups ← wrapping "failed to discover server groups" server_groups
    cilium ← find_cilium groups
    certs ← gets (λ s. s.hcp.spec.certificates)
    run_phases store
        (phases (
          new_reconcilers (record {
            cilium_client = cilium;
            service_domain = service_domain;
            service_cidr = service_cidr;
            pod_cidr = pod_cidr;
            dns_ip = dns_ip;
            kubernetes_service_ip = kubernetes_service_ip;
            root_ca_duration = root_ca_certificate_duration_or_default certs;
            ca_duration = ca_certificate_duration_or_default certs;
          })))
        cluster
