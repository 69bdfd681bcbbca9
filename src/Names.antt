-- ===== src/Names.antt =====
-- pkg/operator/util/names/names.go: the names of the resources of a cluster, and labels.go.
pub mod Laws
use cluster_api_provider_hos.Prelude.{
  ℕ, ◌-◌, ◌/◌, ◌<◌, String, List, [], ◌∷◌, map, arith, ◌==◌, string_eq, nat_eq, Eq, option_eq,
  if◌then◌else◌, ◌<>◌, decimal,
}
use cluster_api_provider_hos.Api.{Cluster}

unfoldable pub get_service_name : Cluster → String
get_service_name cluster = "s-" <> cluster.name

unfoldable pub get_etcd_service_name : Cluster → String
get_etcd_service_name cluster = "e-" <> cluster.name <> "-etcd"

unfoldable pub get_etcd_client_service_name : Cluster → String
unfolding get_etcd_service_name
get_etcd_client_service_name cluster = get_etcd_service_name cluster <> "-client"

unfoldable pub get_root_issuer_name : Cluster → String
get_root_issuer_name cluster = cluster.name <> "-root"

unfoldable pub get_ca_issuer_name : Cluster → String
get_ca_issuer_name cluster = cluster.name <> "-ca"

unfoldable pub get_ca_secret_name : Cluster → String
get_ca_secret_name cluster = cluster.name <> "-ca"

unfoldable pub get_ca_bundle_secret_name : Cluster → String
get_ca_bundle_secret_name cluster = cluster.name <> "-ca-bundle"

unfoldable pub get_ca_certificate_name : Cluster → String
get_ca_certificate_name cluster = cluster.name <> "-ca"

unfoldable pub get_api_server_certificate_name : Cluster → String
get_api_server_certificate_name cluster = cluster.name <> "-apiserver"

unfoldable pub get_api_server_secret_name : Cluster → String
get_api_server_secret_name cluster = cluster.name <> "-apiserver"

unfoldable pub get_api_server_kubelet_client_certificate_name : Cluster → String
get_api_server_kubelet_client_certificate_name cluster = cluster.name <> "-apiserver-kubelet-client"

unfoldable pub get_api_server_kubelet_client_secret_name : Cluster → String
get_api_server_kubelet_client_secret_name cluster = cluster.name <> "-apiserver-kubelet-client"

unfoldable pub get_front_proxy_certificate_name : Cluster → String
get_front_proxy_certificate_name cluster = cluster.name <> "-front-proxy"

unfoldable pub get_front_proxy_secret_name : Cluster → String
get_front_proxy_secret_name cluster = cluster.name <> "-front-proxy"

unfoldable pub get_front_proxy_ca_name : Cluster → String
get_front_proxy_ca_name cluster = cluster.name <> "-front-proxy-ca"

unfoldable pub get_front_proxy_ca_secret_name : Cluster → String
get_front_proxy_ca_secret_name cluster = cluster.name <> "-front-proxy-ca"

unfoldable pub get_front_proxy_ca_bundle_secret_name : Cluster → String
get_front_proxy_ca_bundle_secret_name cluster = cluster.name <> "-front-proxy-ca-bundle"

unfoldable pub get_service_account_certificate_name : Cluster → String
get_service_account_certificate_name cluster = cluster.name <> "-service-account"

unfoldable pub get_service_account_secret_name : Cluster → String
get_service_account_secret_name cluster = cluster.name <> "-service-account"

unfoldable pub get_konnectivity_service_name : Cluster → String
unfolding get_service_name
get_konnectivity_service_name cluster = get_service_name cluster <> "-konnectivity"

unfoldable pub get_admin_certificate_name : Cluster → String
get_admin_certificate_name cluster = cluster.name <> "-admin"

unfoldable pub get_admin_kubeconfig_certificate_name : Cluster → String
get_admin_kubeconfig_certificate_name cluster = cluster.name <> "-admin"

unfoldable pub get_admin_kubeconfig_certificate_secret_name : Cluster → String
get_admin_kubeconfig_certificate_secret_name cluster = cluster.name <> "-admin"

unfoldable pub get_controller_manager_kubeconfig_certificate_name : Cluster → String
get_controller_manager_kubeconfig_certificate_name cluster = cluster.name <> "-controller-manager"

unfoldable pub get_controller_manager_kubeconfig_certificate_secret_name : Cluster → String
get_controller_manager_kubeconfig_certificate_secret_name cluster =
    cluster.name <> "-controller-manager"

unfoldable pub get_scheduler_kubeconfig_certificate_name : Cluster → String
get_scheduler_kubeconfig_certificate_name cluster = cluster.name <> "-scheduler"

unfoldable pub get_scheduler_kubeconfig_certificate_secret_name : Cluster → String
get_scheduler_kubeconfig_certificate_secret_name cluster = cluster.name <> "-scheduler"

unfoldable pub get_konnectivity_config_map_name : Cluster → String
get_konnectivity_config_map_name cluster = cluster.name <> "-konnectivity"

unfoldable pub get_authentication_config_map_name : Cluster → String
get_authentication_config_map_name cluster = cluster.name <> "-authentication"

unfoldable pub get_audit_webhook_secret_name : Cluster → String
get_audit_webhook_secret_name cluster = cluster.name <> "-audit-webhook"

unfoldable pub get_konnectivity_client_kubeconfig_certificate_name : Cluster → String
get_konnectivity_client_kubeconfig_certificate_name cluster = cluster.name <> "-konnectivity-client"

unfoldable pub get_konnectivity_client_kubeconfig_certificate_secret_name : Cluster → String
get_konnectivity_client_kubeconfig_certificate_secret_name cluster =
    cluster.name <> "-konnectivity-client"

unfoldable pub get_control_plane_controller_kubeconfig_certificate_name : Cluster → String
get_control_plane_controller_kubeconfig_certificate_name cluster =
    cluster.name <> "-control-plane-controller"

unfoldable pub get_control_plane_controller_kubeconfig_certificate_secret_name : Cluster → String
get_control_plane_controller_kubeconfig_certificate_secret_name cluster =
    cluster.name <> "-control-plane-controller"

unfoldable pub get_kubeconfig_secret_name : Cluster → String → String
get_kubeconfig_secret_name cluster username = cluster.name <> "-" <> username <> "-kubeconfig"

unfoldable pub get_etcd_ca_name : Cluster → String
get_etcd_ca_name cluster = cluster.name <> "-etcd-ca"

unfoldable pub get_etcd_ca_secret_name : Cluster → String
get_etcd_ca_secret_name cluster = cluster.name <> "-etcd-ca"

unfoldable pub get_etcd_ca_bundle_secret_name : Cluster → String
get_etcd_ca_bundle_secret_name cluster = cluster.name <> "-etcd-ca-bundle"

unfoldable pub get_etcd_server_certificate_name : Cluster → String
get_etcd_server_certificate_name cluster = cluster.name <> "-etcd-server"

unfoldable pub get_etcd_server_secret_name : Cluster → String
get_etcd_server_secret_name cluster = cluster.name <> "-etcd-server"

unfoldable pub get_etcd_peer_certificate_name : Cluster → String
get_etcd_peer_certificate_name cluster = cluster.name <> "-etcd-peer"

unfoldable pub get_etcd_peer_secret_name : Cluster → String
get_etcd_peer_secret_name cluster = cluster.name <> "-etcd-peer"

unfoldable pub get_etcd_api_server_client_certificate_name : Cluster → String
get_etcd_api_server_client_certificate_name cluster = cluster.name <> "-etcd-apiserver-client"

unfoldable pub get_etcd_api_server_client_certificate_secret_name : Cluster → String
get_etcd_api_server_client_certificate_secret_name cluster =
    cluster.name <> "-etcd-apiserver-client"

unfoldable pub get_etcd_controller_client_certificate_name : Cluster → String
get_etcd_controller_client_certificate_name cluster = cluster.name <> "-etcd-controller-client"

unfoldable pub get_etcd_controller_client_certificate_secret_name : Cluster → String
get_etcd_controller_client_certificate_secret_name cluster =
    cluster.name <> "-etcd-controller-client"

unfoldable pub get_etcd_client_service_dns_name : Cluster → String
unfolding get_etcd_client_service_name
get_etcd_client_service_dns_name cluster =
    get_etcd_client_service_name cluster <> "." <> cluster.namespace <> ".svc"

unfoldable pub get_etcd_stateful_set_name : Cluster → String
get_etcd_stateful_set_name cluster = cluster.name <> "-etcd"

unfoldable pub get_internal_service_host : Cluster → String
unfolding get_service_name
get_internal_service_host cluster = get_service_name cluster <> "." <> cluster.namespace <> ".svc"

unfoldable pub get_tls_route_name : Cluster → String
get_tls_route_name cluster = cluster.name

unfoldable pub get_konnectivity_tls_route_name : Cluster → String
get_konnectivity_tls_route_name cluster = cluster.name <> "-konnectivity"

unfoldable pub get_konnectivity_server_host : Cluster → String
get_konnectivity_server_host cluster = "konnectivity." <> cluster.endpoint_host

-- The pods of the etcd cluster and their host names; the source has a map of the three.
unfoldable pub get_etcd_pod_names : Cluster → List String
unfolding get_etcd_stateful_set_name
get_etcd_pod_names cluster =
    map (λ i. get_etcd_stateful_set_name cluster <> "-" <> decimal i) (0 ∷ 1 ∷ 2 ∷ [])

unfoldable pub get_etcd_dns_names : Cluster → List (String × String)
unfolding get_etcd_pod_names get_etcd_service_name
get_etcd_dns_names cluster =
    map
      (λ host.
        (host, host <> "." <> get_etcd_service_name cluster <> "." <> cluster.namespace <> ".svc"))
      (get_etcd_pod_names cluster)

abbrev pub cluster_name_label : String
cluster_name_label = "cluster.x-k8s.io/cluster-name"

unfoldable pub get_control_plane_labels : Cluster → String → List (String × String)
get_control_plane_labels cluster component =
    let labels = (cluster_name_label, cluster.name) ∷ [] in
    if component == "" then labels else ("app.kubernetes.io/component", component) ∷ labels
