-- ===== src/ApiServer.antt =====
-- pkg/reconcilers/apiserverresources/apiserverresources.go: the pods of the API server, of the
-- controller manager and of the scheduler. Here, the part `Spec.Deployment` of the resource, and
-- the settings of the reconciler. `R` stands for the requirements of resources.
pub mod Volumes
pub mod Arguments
use cluster_api_provider_hos.Prelude.{
  ℕ, ◌-◌, ◌/◌, ◌<◌, String, Option, List, arith, ◌==◌, string_eq, nat_eq, Eq, option_eq,
  if◌then◌else◌, ◌<>◌, deref,
}
use cluster_api_provider_hos.Api.{ImageSpec}

-- `Container`, which the components embed.
pub record ContainerSpec (R : Type 0) : Type 0 where
  pub image : Option ImageSpec
  pub image_pull_policy : Option String
  pub args : List (String × String)
  pub resources : Option R

pub record ScalablePod (R : Type 0) : Type 0 where
  pub container : ContainerSpec R
  pub priority_class_name : String
  pub replicas : Option ℕ

pub record AuditWebhookAuthentication : Type 0 where
  pub secret_name : String
  pub secret_namespace : Option String
  pub token_key : Option String

pub record AuditWebhookTarget : Type 0 where
  pub server : String
  pub authentication : Option AuditWebhookAuthentication

pub record AuditWebhook (R : Type 0) : Type 0 where
  pub container : ContainerSpec R
  pub targets : List AuditWebhookTarget

-- The audit configuration; the policy is given by its YAML, or the error of its encoder is the
-- environment's.
pub record AuditConfig (R : Type 0) : Type 0 where
  pub mode : Option String
  pub webhook : Option (AuditWebhook R)

pub record ApiServerPod (R : Type 0) : Type 0 where
  pub container : ContainerSpec R
  pub priority_class_name : String
  pub konnectivity : ContainerSpec R
  pub audit : Option (AuditConfig R)

-- `HostedControlPlaneDeployment`, without the mounts, which `Api` has.
pub record DeploymentSpec (R : Type 0) : Type 0 where
  pub api_server : ApiServerPod R
  pub controller_manager : ScalablePod R
  pub scheduler : ScalablePod R

unfoldable pub replica_count : {R : Type 0} → ScalablePod R → ℕ → ℕ
replica_count pod default_replicas = deref pod.replicas default_replicas

unfoldable pub image_pull_policy_or_default : {R : Type 0} → ContainerSpec R → String
image_pull_policy_or_default container = deref container.image_pull_policy "Always"

unfoldable pub mode_or_default : {R : Type 0} → AuditConfig R → String
mode_or_default audit = deref audit.mode "batch"

unfoldable pub token_key_or_default : AuditWebhookAuthentication → String
token_key_or_default authentication = deref authentication.token_key "token"

-- The parameters of `NewApiServerResourcesReconciler`, and the functions of other packages that the
-- arguments use: `net.JoinHostPort`, and the minor version of a version, which may not parse.
pub record Settings : Type 0 where
  pub service_cidr : String
  pub pod_cidr : String
  pub api_server_component_label : String
  pub api_server_service_port : ℕ
  pub api_server_service_legacy_port_name : String
  pub etcd_component_label : String
  pub etcd_server_port : ℕ
  pub konnectivity_namespace : String
  pub konnectivity_service_account : String
  pub konnectivity_service_port : ℕ
  pub konnectivity_client_kubeconfig_name : String
  pub konnectivity_server_audience : String
  pub join_host_port : String → String → String

-- The fields that `NewApiServerResourcesReconciler` fixes.
abbrev pub egress_selector_config_mount_path : String
egress_selector_config_mount_path = "/etc/kubernetes/egress/configurations"

abbrev pub konnectivity_uds_mount_path : String
konnectivity_uds_mount_path = "/run/konnectivity"

abbrev pub konnectivity_uds_socket_name : String
konnectivity_uds_socket_name = "konnectivity-agent.sock"

abbrev pub egress_selector_configuration_file_name : String
egress_selector_configuration_file_name = "egress-selector-configuration.yaml"

abbrev pub nginx_config_file_name : String
nginx_config_file_name = "nginx.conf"

abbrev pub audit_policy_file_name : String
audit_policy_file_name = "audit-policy.yaml"

abbrev pub audit_webhook_config_file_name : String
audit_webhook_config_file_name = "webhook-target.conf"

abbrev pub authentication_config_mount_path : String
authentication_config_mount_path = "/etc/kubernetes/authentication"

abbrev pub authentication_config_file_name : String
authentication_config_file_name = "config.yaml"

abbrev pub konnectivity_kubeconfig_file_name : String
konnectivity_kubeconfig_file_name = "konnectivity-server.conf"

-- Names of kubeadm: `DefaultCertificatesDir` and `KubernetesDir`.
abbrev pub certificates_dir : String
certificates_dir = "/etc/kubernetes/pki"

abbrev pub kubernetes_dir : String
kubernetes_dir = "/etc/kubernetes"

-- `path.Join` of a clean directory and a file.
infixr 65 ◌</>◌
abbrev pub ◌</>◌ : String → String → String
dir </> file = dir <> "/" <> file
