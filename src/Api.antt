-- ===== src/Api.antt =====
-- api/v1alpha1/hostedcontrolplane_types.go and hostedcontrolplane.go: the custom resource, as far
-- as the modelled components read or write it, and the defaults of its optional fields. `Q` stands
-- for `resource.Quantity` of Kubernetes. A time is the number of nanoseconds since Go's zero time
-- (the year 1), so that `IsZero` is a test for 0; a duration is a number of nanoseconds.
use cluster_api_provider_hos.Prelude.{
  ℕ, zero, suc, ◌*◌, String, Bool, true, false, Option, none, some, List, deref,
}
use cluster_api_provider_hos.Prelude.Int.{ℤ, pos}

-- An optional image reference; what is nil falls back to a default.
pub record ImageSpec : Type 0 where
  pub registry : Option String
  pub repository : Option String
  pub tag : Option String

pub record EtcdBackup : Type 0 where
  pub schedule : String

pub record EtcdComponent (Q : Type 0) : Type 0 where
  pub image : Option ImageSpec
  pub args : List (String × String)
  pub volume_size : Option Q
  pub auto_grow : Option Bool
  pub backup : Option EtcdBackup

pub record CertificatesSpec : Type 0 where
  pub root_ca_certificate_duration : Option ℤ
  pub ca_certificate_duration : Option ℤ

pub record Mount : Type 0 where
  pub path : String
  pub config_map : Option String  -- `ConfigMap.Name`
  pub secret : Option String  -- `Secret.SecretName`
  pub config_map_items : List (String × String)  -- the keys and paths of `ConfigMap.Items`
  pub secret_items : List (String × String)

pub record HostedControlPlaneSpec (Q : Type 0) : Type 0 where
  pub version : String
  pub replicas : Option ℕ
  pub etcd : EtcdComponent Q
  pub mounts : List (String × Mount)  -- `Deployment.APIServer.Mounts`
  pub oidc_providers : List String  -- the keys of the map
  pub certificates : CertificatesSpec

pub data ConditionStatus : Type 0 where
  condition_true condition_false condition_unknown : ConditionStatus

-- `metav1.Condition` without its timestamp and its generation.
pub record Condition : Type 0 where
  pub type : String
  pub status : ConditionStatus
  pub reason : String
  pub message : String

pub record HostedControlPlaneStatus (Q : Type 0) : Type 0 where
  pub conditions : List Condition
  pub legacy_ip : String
  pub etcd_volume_size : Q
  pub etcd_volume_usage : Q
  pub etcd_last_backup_time : ℕ
  pub etcd_next_backup_time : ℕ
  pub etcd_last_defrag_time : ℕ
  pub etcd_last_attempted_defrag_time : ℕ
  pub control_plane_initialized : Option Bool  -- `Initialization.ControlPlaneInitialized`
  pub ready : Bool
  pub external_managed_control_plane : Option Bool
  pub observed_generation : ℕ

pub record HostedControlPlane (Q : Type 0) : Type 0 where
  pub name : String
  pub namespace : String
  pub generation : ℕ
  pub deletion_timestamp : ℕ
  pub finalizers : List String
  pub spec : HostedControlPlaneSpec Q
  pub status : HostedControlPlaneStatus Q

-- The owner `Cluster` of Cluster API, as far as it is read.
pub record Cluster : Type 0 where
  pub name : String
  pub namespace : String
  pub endpoint_host : String  -- `Spec.ControlPlaneEndpoint.Host`
  pub endpoint_port : ℕ
  pub service_domain : String  -- `Spec.ClusterNetwork.ServiceDomain`
  pub services : String  -- `Spec.ClusterNetwork.Services.String()`
  pub pods : String  -- `Spec.ClusterNetwork.Pods.String()`

abbrev pub second : ℕ
second = 1000000000

abbrev pub minute : ℕ
minute = 60 * second

abbrev pub hour : ℕ
hour = 60 * minute

-- `time.Time.IsZero`.
abbrev pub is_zero_time : ℕ → Bool
is_zero_time zero = true
is_zero_time (suc t) = false

unfoldable pub replicas_or_default : {Q : Type 0} → HostedControlPlaneSpec Q → ℕ
replicas_or_default s = deref s.replicas 2

unfoldable pub auto_grow_enabled : {Q : Type 0} → EtcdComponent Q → Bool
auto_grow_enabled e = deref e.auto_grow true

unfoldable pub root_ca_certificate_duration_or_default : CertificatesSpec → ℤ
root_ca_certificate_duration_or_default c = elim c.root_ca_certificate_duration [
  | some d ↦ d
  | none ↦ pos (2 * 24 * hour)
]

unfoldable pub ca_certificate_duration_or_default : CertificatesSpec → ℤ
ca_certificate_duration_or_default c = elim c.ca_certificate_duration [
  | some d ↦ d
  | none ↦ pos (2 * 24 * hour)
]
