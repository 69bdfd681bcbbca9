-- ===== src/ApiServer/Volumes.antt =====
-- The volumes of apiserverresources.go: its functions `create…Volume`, and
-- `extractAdditionalVolumesAndMounts`.
use cluster_api_provider_hos.Prelude.{
  String, false, none, some, List, [], ◌∷◌, map, string_eq, nat_eq, option_eq,
}
use cluster_api_provider_hos.Api.{Cluster, Mount}
use cluster_api_provider_hos.Names
use cluster_api_provider_hos.Objects.{
  Volume, VolumeMount, volume, secret_volume, config_map_volume, memory_volume, projected_volume,
  secret_projection, read_only_mount,
}
use cluster_api_provider_hos.ApiServer.{
  Settings, nginx_config_file_name, audit_policy_file_name, audit_webhook_config_file_name,
  konnectivity_kubeconfig_file_name,
}

abbrev key : String → String → List (String × String)
key from path = (from, path) ∷ []

-- The certificate and the key of a TLS Secret, under these names.
abbrev pair : String → String → List (String × String)
pair certificate private_key = ("tls.crt", certificate) ∷ ("tls.key", private_key) ∷ []

module _ (cluster : Cluster) where
  unfoldable pub create_authentication_config_volume : Volume
  create_authentication_config_volume =
      config_map_volume "authentication-config" (Names.get_authentication_config_map_name cluster)
        []

  unfoldable pub create_scheduler_kubeconfig_volume : Volume
  create_scheduler_kubeconfig_volume =
      secret_volume "kube-scheduler-kubeconfig"
        (Names.get_kubeconfig_secret_name cluster "kube-scheduler") (key "value" "scheduler.conf")

  unfoldable pub create_controller_manager_kubeconfig_volume : Volume
  create_controller_manager_kubeconfig_volume =
      secret_volume "kube-controller-manager-kubeconfig"
        (Names.get_kubeconfig_secret_name cluster "kube-controller-manager")
        (key "value" "controller-manager.conf")

  unfoldable pub create_konnectivity_kubeconfig_volume : Settings → Volume
  create_konnectivity_kubeconfig_volume arr =
      secret_volume "konnectivity-kubeconfig"
        (Names.get_kubeconfig_secret_name cluster arr.konnectivity_client_kubeconfig_name)
        (key "value" konnectivity_kubeconfig_file_name)

  unfoldable pub create_audit_webhook_config_volume : Volume
  create_audit_webhook_config_volume =
      secret_volume "audit-webhook-config" (Names.get_audit_webhook_secret_name cluster)
        (key nginx_config_file_name nginx_config_file_name)

  unfoldable pub create_audit_config_volume : Volume
  create_audit_config_volume =
      secret_volume "audit-config" (Names.get_audit_webhook_secret_name cluster) (
        (audit_policy_file_name, audit_policy_file_name)
        ∷ (audit_webhook_config_file_name, audit_webhook_config_file_name)
        ∷ [])

  unfoldable pub create_egress_selector_config_volume : Volume
  create_egress_selector_config_volume =
      config_map_volume "konnectivity-config" (Names.get_konnectivity_config_map_name cluster) []

  unfoldable pub create_api_server_certificates_volume : Volume
  create_api_server_certificates_volume = projected_volume "api-server-certificates" (
      secret_projection (Names.get_ca_bundle_secret_name cluster) (key "ca.crt" "ca.crt")
      ∷ secret_projection (Names.get_front_proxy_ca_bundle_secret_name cluster)
          (key "ca.crt" "front-proxy-ca.crt")
      ∷ secret_projection (Names.get_front_proxy_secret_name cluster)
          (pair "front-proxy-client.crt" "front-proxy-client.key")
      ∷ secret_projection (Names.get_service_account_secret_name cluster) (pair "sa.pub" "sa.key")
      ∷ secret_projection (Names.get_api_server_secret_name cluster)
          (pair "apiserver.crt" "apiserver.key")
      ∷ secret_projection (Names.get_api_server_kubelet_client_secret_name cluster)
          (pair "apiserver-kubelet-client.crt" "apiserver-kubelet-client.key")
      ∷ secret_projection (Names.get_etcd_ca_bundle_secret_name cluster)
          (key "ca.crt" "etcd/ca.crt")
      ∷ secret_projection (Names.get_etcd_api_server_client_certificate_secret_name cluster)
          (pair "apiserver-etcd-client.crt" "apiserver-etcd-client.key")
      ∷ [])

  unfoldable pub create_konnectivity_certificates_volume : Volume
  create_konnectivity_certificates_volume =
      secret_volume "konnectivity-certificates" (Names.get_api_server_secret_name cluster) []

  unfoldable pub create_controller_manager_certificates_volume : Volume
  create_controller_manager_certificates_volume =
      projected_volume "controller-manager-certificates" (
        secret_projection (Names.get_ca_bundle_secret_name cluster) (key "ca.crt" "bundle.crt")
        ∷ secret_projection (Names.get_ca_secret_name cluster) (pair "ca.crt" "ca.key")
        ∷ secret_projection (Names.get_front_proxy_ca_bundle_secret_name cluster)
            (key "ca.crt" "front-proxy-ca.crt")
        ∷ secret_projection (Names.get_service_account_secret_name cluster) (key "tls.key" "sa.key")
        ∷ [])

unfoldable pub create_konnectivity_uds_volume : Volume
create_konnectivity_uds_volume = memory_volume "konnectivity-uds"

-- The temporary files of the audit sidecar.
unfoldable pub tmp_volume : Volume
tmp_volume = memory_volume "tmp"

-- The volume and the mount of one entry.
unfoldable pub additional_volume : String × Mount → Volume
additional_volume (name, mount) = record (volume name) {
  secret = elim mount.secret [
    | none ↦ none
    | some secret ↦
        some (record { name = secret; optional = some false; items = mount.secret_items })
  ];
  config_map = elim mount.config_map [
    | none ↦ none
    | some config_map ↦
        some (record { name = config_map; optional = some false; items = mount.config_map_items })
  ];
}

unfoldable pub additional_mount : String × Mount → VolumeMount
additional_mount (name, mount) = read_only_mount name mount.path

unfoldable pub extract_additional_volumes_and_mounts :
    List (String × Mount) → List Volume × List VolumeMount
unfolding additional_volume additional_mount
extract_additional_volumes_and_mounts mounts =
    (map additional_volume mounts, map additional_mount mounts)
