-- ===== src/ApiServer/Arguments.antt =====
-- The command lines of apiserverresources.go: `buildAPIServerArgs`, `buildKonnectivityServerArgs`,
-- `buildSchedulerArgs` and `buildControllerManagerArgs`. Files have the names of kubeadm.
use cluster_api_provider_hos.Prelude.{
  String, Bool, true, false, Option, none, some, List, [], ◌∷◌, ◌++◌, string_eq, nat_eq, option_eq,
  ◌<>◌, ltb, decimal,
}
use cluster_api_provider_hos.Prelude.Sorting.{lookup}
use cluster_api_provider_hos.Api.{Cluster, HostedControlPlane, replicas_or_default}
use cluster_api_provider_hos.Names.{get_etcd_client_service_dns_name}
use cluster_api_provider_hos.Args.{ArgOption, args_to_slice}
use cluster_api_provider_hos.ApiServer.{
  AuditConfig, DeploymentSpec, Settings, replica_count, mode_or_default, ◌</>◌, certificates_dir,
  kubernetes_dir, egress_selector_config_mount_path, egress_selector_configuration_file_name,
  konnectivity_uds_mount_path, konnectivity_uds_socket_name, konnectivity_kubeconfig_file_name,
  authentication_config_mount_path, authentication_config_file_name, audit_policy_file_name,
  audit_webhook_config_file_name,
}

abbrev pub no_options : ArgOption
no_options = record { prefix = none; delimiter = none }

abbrev pub format_bool : Bool → String
format_bool true = "true"
format_bool false = "false"

abbrev pub shutdown_delay_duration_flag : String
shutdown_delay_duration_flag = "shutdown-delay-duration"

abbrev pub audit_mount_path : String
audit_mount_path = "/etc/kubernetes/audit"

unfoldable pub audit_args : {R : Type 0} → Option (AuditConfig R) → List (String × String)
audit_args none = []
audit_args (some audit) =
    ("audit-policy-file", audit_mount_path </> audit_policy_file_name) ∷ elim audit.webhook [
      | some _ ↦
          ("audit-webhook-mode", mode_or_default audit)
          ∷ ("audit-webhook-config-file", audit_mount_path </> audit_webhook_config_file_name)
          ∷ []
      | none ↦ ("audit-log-mode", mode_or_default audit) ∷ ("audit-log-path", "-") ∷ []
    ]

-- Only a default: it is left out where the user sets it.
unfoldable pub shutdown_args : List (String × String) → List (String × String)
shutdown_args user_args = elim (lookup shutdown_delay_duration_flag user_args) [
  | some _ ↦ []
  | none ↦ (shutdown_delay_duration_flag, "10s") ∷ []
]

module _ {Q R : Type 0} (arr : Settings) (hcp : HostedControlPlane Q)
    (deployment : DeploymentSpec R) where
  module _ (cluster : Cluster) where
    -- The map `args` of `buildAPIServerArgs`.
    unfoldable pub api_server_controller_args : List (String × String)
    unfolding audit_args shutdown_args
    api_server_controller_args =
        let endpoint = arr.join_host_port cluster.endpoint_host (decimal cluster.endpoint_port) in
        let etcd =
          arr.join_host_port (get_etcd_client_service_dns_name cluster)
            (decimal arr.etcd_server_port) in
        ((
          "authentication-config",
          authentication_config_mount_path </> authentication_config_file_name,
        )
          ∷ ("external-hostname", cluster.endpoint_host)
          ∷ ("advertise-address", hcp.status.legacy_ip)
          ∷ ("allow-privileged", "true")
          ∷ ("authorization-mode", "Node,RBAC")
          ∷ ("client-ca-file", certificates_dir </> "ca.crt")
          ∷ ("enable-bootstrap-token-auth", "true")
          ∷ ("endpoint-reconciler-type", "none")
          ∷ (
            "egress-selector-config-file",
            egress_selector_config_mount_path </> egress_selector_configuration_file_name,
          )
          ∷ ("kubelet-client-certificate", certificates_dir </> "apiserver-kubelet-client.crt")
          ∷ ("kubelet-client-key", certificates_dir </> "apiserver-kubelet-client.key")
          ∷ ("kubelet-preferred-address-types", "InternalIP,InternalDNS,Hostname")
          ∷ ("proxy-client-cert-file", certificates_dir </> "front-proxy-client.crt")
          ∷ ("proxy-client-key-file", certificates_dir </> "front-proxy-client.key")
          ∷ ("requestheader-allowed-names", "front-proxy-client")
          ∷ ("requestheader-client-ca-file", certificates_dir </> "front-proxy-ca.crt")
          ∷ ("requestheader-extra-headers-prefix", "X-Remote-Extra-")
          ∷ ("requestheader-group-headers", "X-Remote-Group")
          ∷ ("requestheader-username-headers", "X-Remote-User")
          ∷ ("secure-port", "6443")
          ∷ ("service-account-issuer", "https://kubernetes.default.svc")
          ∷ ("service-account-jwks-uri", "https://" <> endpoint <> "/openid/v1/jwks")
          ∷ ("service-account-key-file", certificates_dir </> "sa.pub")
          ∷ ("service-account-signing-key-file", certificates_dir </> "sa.key")
          ∷ ("service-cluster-ip-range", arr.service_cidr)
          ∷ ("tls-cert-file", certificates_dir </> "apiserver.crt")
          ∷ ("tls-private-key-file", certificates_dir </> "apiserver.key")
          ∷ ("etcd-servers", "https://" <> etcd)
          ∷ ("etcd-cafile", certificates_dir </> "etcd/ca.crt")
          ∷ ("etcd-certfile", certificates_dir </> "apiserver-etcd-client.crt")
          ∷ ("etcd-keyfile", certificates_dir </> "apiserver-etcd-client.key")
          ∷ [])
        ++ (audit_args deployment.api_server.audit
            ++ shutdown_args deployment.api_server.container.args)

    unfoldable pub build_api_server_args : List String
    unfolding api_server_controller_args
    build_api_server_args =
        args_to_slice deployment.api_server.container.args api_server_controller_args no_options

    unfoldable pub controller_manager_controller_args : List (String × String)
    controller_manager_controller_args =
        let kubeconfig_path = kubernetes_dir </> "controller-manager.conf" in
        ("cluster-cidr", arr.pod_cidr)
        ∷ ("authentication-kubeconfig", kubeconfig_path)
        ∷ ("authorization-kubeconfig", kubeconfig_path)
        ∷ ("kubeconfig", kubeconfig_path)
        ∷ ("bind-address", "0.0.0.0")
        ∷ ("leader-elect", format_bool (ltb 1 (replica_count deployment.controller_manager 1)))
        ∷ ("cluster-name", cluster.name)
        ∷ ("client-ca-file", certificates_dir </> "ca.crt")
        ∷ ("cluster-signing-cert-file", certificates_dir </> "ca.crt")
        ∷ ("cluster-signing-key-file", certificates_dir </> "ca.key")
        ∷ ("controllers", "*,bootstrap-signer-controller,token-cleaner-controller")
        ∷ ("requestheader-client-ca-file", certificates_dir </> "front-proxy-ca.crt")
        ∷ ("root-ca-file", certificates_dir </> "bundle.crt")
        ∷ ("service-account-private-key-file", certificates_dir </> "sa.key")
        ∷ ("use-service-account-credentials", "true")
        ∷ []

    unfoldable pub build_controller_manager_args : List String
    unfolding controller_manager_controller_args
    build_controller_manager_args =
        args_to_slice deployment.controller_manager.container.args
          controller_manager_controller_args no_options

  unfoldable pub build_scheduler_args : List String
  build_scheduler_args =
      let kubeconfig_path = kubernetes_dir </> "scheduler.conf" in
      args_to_slice deployment.scheduler.container.args
        (("authentication-kubeconfig", kubeconfig_path)
          ∷ ("authorization-kubeconfig", kubeconfig_path)
          ∷ ("kubeconfig", kubeconfig_path)
          ∷ ("bind-address", "0.0.0.0")
          ∷ ("leader-elect", format_bool (ltb 1 (replica_count deployment.scheduler 1)))
          ∷ [])
        no_options

  unfoldable pub build_konnectivity_server_args : List String
  build_konnectivity_server_args =
      args_to_slice deployment.api_server.konnectivity.args
        (("agent-namespace", arr.konnectivity_namespace)
          ∷ ("agent-service-account", arr.konnectivity_service_account)
          ∷ ("authentication-audience", arr.konnectivity_server_audience)
          ∷ ("cluster-cert", certificates_dir </> "tls.crt")
          ∷ ("cluster-key", certificates_dir </> "tls.key")
          ∷ ("kubeconfig", kubernetes_dir </> konnectivity_kubeconfig_file_name)
          ∷ ("enable-lease-controller", "true")
          ∷ ("admin-port", "8133")
          ∷ ("agent-port", "8132")
          ∷ ("health-port", "8134")
          ∷ ("server-port", "0")
          ∷ ("uds-name", konnectivity_uds_mount_path </> konnectivity_uds_socket_name)
          ∷ ("mode", "grpc")
          ∷ ("server-count", decimal (replicas_or_default hcp.spec))
          ∷ [])
        no_options
