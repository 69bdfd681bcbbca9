-- ===== src/Certificates/Specs.antt =====
-- `createCertificateSpecs`: the certificates that are no authorities, by their names. Go walks the
-- map in an order that is not fixed.
pub mod Laws
use cluster_api_provider_hos.Prelude.{
  ℕ, ◌+◌, ◌-◌, ◌/◌, String, true, false, some, List, [], ◌∷◌, ◌++◌, map, arith, ◌==◌, string_eq,
  nat_eq, Eq, option_eq, if◌then◌else◌,
}
use cluster_api_provider_hos.Prelude.Sorting.{assign, sort_texts}
use cluster_api_provider_hos.Api.{Cluster, HostedControlPlane}
use cluster_api_provider_hos.Names
use cluster_api_provider_hos.Objects.{Labels}
use cluster_api_provider_hos.Certificates.{
  CertificateReconciler, CertificateSpec, NamedSpec, create_certificate_spec,
  certificate_kind_label, stable_private_key,
}

-- `names.GetKubeconfigLabel` and `names.GetKubeconfigLabels`.
unfoldable pub get_kubeconfig_label : Labels
get_kubeconfig_label = ("controlplane.cluster.x-k8s.io/kubeconfig", "true") ∷ []

unfoldable pub get_kubeconfig_labels : String → Labels
unfolding get_kubeconfig_label
get_kubeconfig_labels username =
    assign get_kubeconfig_label
      (("controlplane.cluster.x-k8s.io/kubeconfig-username", username) ∷ [])

abbrev pub system_privileged_group : String
system_privileged_group = "system:masters"

unfoldable pub etcd_dns_names : Cluster → List String
etcd_dns_names cluster =
    let dns_names = Names.get_etcd_dns_names cluster in
    sort_texts (
      ("localhost" ∷ [])
      ++ map (λ (e : String × String). e.0) dns_names
      ++ map (λ (e : String × String). e.1) dns_names
      ++ (Names.get_etcd_service_name cluster
          ∷ Names.get_etcd_client_service_dns_name cluster
          ∷ []))

-- `konstants.ClusterAdminsGroupAndClusterRoleBinding` and the common names are those of kubeadm.
module _ {Q : Type 0} (cr : CertificateReconciler) (hcp : HostedControlPlane Q)
    (cluster : Cluster) where
  abbrev leaf : String → String → String → List String → CertificateSpec
  leaf issuer common_name secret_name usages =
      create_certificate_spec cr issuer common_name secret_name false usages

  abbrev named : String → CertificateSpec → Labels → NamedSpec
  named kind spec labels = record { kind = kind; spec = spec; custom_labels = labels }

  abbrev for_group : CertificateSpec → String → CertificateSpec
  for_group spec group = record spec { organizations = group ∷ [] }

  abbrev etcd_names : CertificateSpec → CertificateSpec
  etcd_names spec = record spec {
    dns_names = etcd_dns_names cluster;
    ip_addresses = "127.0.0.1" ∷ [];
  }

  unfoldable pub api_server_spec : CertificateSpec
  api_server_spec =
      record (leaf (Names.get_ca_issuer_name cluster) "kube-apiserver"
        (Names.get_api_server_secret_name cluster) ("server auth" ∷ [])) {
          dns_names =
              "localhost"
              ∷ "kubernetes"
              ∷ "kubernetes.default"
              ∷ "kubernetes.default.svc"
              ∷ cluster.endpoint_host
              ∷ Names.get_konnectivity_server_host cluster
              ∷ Names.get_service_name cluster
              ∷ Names.get_internal_service_host cluster
              ∷ [];
          ip_addresses = hcp.status.legacy_ip ∷ cr.kubernetes_service_ip ∷ "127.0.0.1" ∷ [];
        }

  -- The map before the common label is added.
  unfoldable pub plain_specs : List (String × NamedSpec)
  unfolding api_server_spec get_kubeconfig_label get_kubeconfig_labels
  plain_specs =
      let ca = Names.get_ca_issuer_name cluster in
      let etcd_ca = Names.get_etcd_ca_name cluster in
      let client = "client auth" ∷ [] in
      (Names.get_api_server_certificate_name cluster, named "APIServer" api_server_spec [])
      ∷ (
        Names.get_api_server_kubelet_client_certificate_name cluster,
        named "APIServerKubeletClient"
            (for_group
              (leaf ca "kube-apiserver-kubelet-client"
                (Names.get_api_server_kubelet_client_secret_name cluster) client)
              "kubeadm:cluster-admins")
            [],
      )
      ∷ (
        Names.get_front_proxy_certificate_name cluster,
        named "FrontProxy"
            (leaf (Names.get_front_proxy_ca_name cluster) "front-proxy-client"
              (Names.get_front_proxy_secret_name cluster) client)
            [],
      )
      ∷ (
        Names.get_service_account_certificate_name cluster,
        named "ServiceAccount"
            (record (leaf ca "service-account" (Names.get_service_account_secret_name cluster) []) {
              rotation_policy = some stable_private_key;
            })
            [],
      )
      ∷ (
        Names.get_admin_certificate_name cluster,
        named "Admin"
            (for_group
              (leaf ca "kubernetes-admin"
                (Names.get_admin_kubeconfig_certificate_secret_name cluster) client)
              system_privileged_group)
            (get_kubeconfig_labels "kubernetes-admin"),
      )
      ∷ (
        Names.get_controller_manager_kubeconfig_certificate_name cluster,
        named "ControllerManager"
            (leaf ca "system:kube-controller-manager"
              (Names.get_controller_manager_kubeconfig_certificate_secret_name cluster) client)
            [],
      )
      ∷ (
        Names.get_scheduler_kubeconfig_certificate_name cluster,
        named "Scheduler"
            (leaf ca "system:kube-scheduler"
              (Names.get_scheduler_kubeconfig_certificate_secret_name cluster) client)
            [],
      )
      ∷ (
        Names.get_konnectivity_client_kubeconfig_certificate_name cluster,
        named "KonnectivityClient"
            (for_group
              (leaf ca cr.konnectivity_server_audience
                (Names.get_konnectivity_client_kubeconfig_certificate_secret_name cluster)
                ("client auth" ∷ "server auth" ∷ "code signing" ∷ []))
              system_privileged_group)
            [],
      )
      ∷ (
        Names.get_control_plane_controller_kubeconfig_certificate_name cluster,
        named "ControlPlaneController"
            (for_group
              (leaf ca "system:control-plane-controller"
                (Names.get_control_plane_controller_kubeconfig_certificate_secret_name cluster)
                client)
              system_privileged_group)
            get_kubeconfig_label,
      )
      ∷ (
        Names.get_etcd_server_certificate_name cluster,
        named "EtcdServer"
            (etcd_names (
              leaf etcd_ca "etcd-server" (Names.get_etcd_server_secret_name cluster)
                ("server auth" ∷ "client auth" ∷ [])))
            [],
      )
      ∷ (
        Names.get_etcd_peer_certificate_name cluster,
        named "EtcdPeer"
            (etcd_names (
              leaf etcd_ca "etcd-peer" (Names.get_etcd_peer_secret_name cluster)
                ("server auth" ∷ "client auth" ∷ [])))
            [],
      )
      ∷ (
        Names.get_etcd_api_server_client_certificate_name cluster,
        named "EtcdAPIServerClient"
            (leaf etcd_ca "apiserver-etcd-client"
              (Names.get_etcd_api_server_client_certificate_secret_name cluster) client)
            [],
      )
      ∷ (
        Names.get_etcd_controller_client_certificate_name cluster,
        named "EtcdControllerClient"
            (leaf etcd_ca "controller-etcd-client"
              (Names.get_etcd_controller_client_certificate_secret_name cluster) client)
            [],
      )
      ∷ []

  unfoldable pub create_certificate_specs : List (String × NamedSpec)
  unfolding plain_specs
  create_certificate_specs =
      map
        (λ (e : String × NamedSpec). (
          e.0,
          record e.1 {
            custom_labels = assign e.1.custom_labels ((certificate_kind_label, "client") ∷ []);
          },
        ))
        plain_specs
