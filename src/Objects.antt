-- ===== src/Objects.antt =====
-- The Kubernetes objects that the reconcilers build: the apply configurations of k8s.io/client-go
-- with the fields that the code sets, the owner references of
-- pkg/operator/util/owner_references.go, and the probes of pkg/operator/util/probes.go.
use cluster_api_provider_hos.Prelude.{
  ℕ, String, Bool, true, Option, none, some, List, [], string_eq, nat_eq, option_eq,
}
use cluster_api_provider_hos.Api.{HostedControlPlane}

abbrev pub Labels : Type 0
Labels = List (String × String)

pub record OwnerReference : Type 0 where
  pub api_version : String
  pub kind : String
  pub name : String
  pub uid : String
  pub controller : Bool
  pub block_owner_deletion : Bool

-- The type and the UID of a resource, which `Api` leaves out.
pub record Identity : Type 0 where
  pub api_version : String
  pub kind : String
  pub uid : String

unfoldable pub get_owner_reference_apply_configuration :
    {Q : Type 0} → Identity → HostedControlPlane Q → OwnerReference
get_owner_reference_apply_configuration id hcp = record {
  api_version = id.api_version;
  kind = id.kind;
  name = hcp.name;
  uid = id.uid;
  controller = true;
  block_owner_deletion = true;
}

-- `KeyToPath`: a key of the source and the path that it gets in the volume.
abbrev pub Items : Type 0
Items = List (String × String)

-- A Secret or a ConfigMap as the source of a volume or of a projection.
pub record KeyedSource : Type 0 where
  pub name : String
  pub optional : Option Bool
  pub items : Items

pub record VolumeProjection : Type 0 where
  pub secret : Option KeyedSource
  pub config_map : Option KeyedSource
  pub service_account_token : Option (ℕ × String)  -- the expiration and the path
  pub downward_api : Items  -- the path of a file and the path of the field

pub record Volume : Type 0 where
  pub name : String
  pub secret : Option KeyedSource
  pub config_map : Option KeyedSource
  pub empty_dir : Option String  -- the medium
  pub projected : Option (List VolumeProjection)

pub record VolumeMount : Type 0 where
  pub name : String
  pub mount_path : String
  pub sub_path : Option String
  pub read_only : Option Bool

pub record ContainerPort : Type 0 where
  pub name : String
  pub container_port : ℕ
  pub protocol : String

pub record Probe : Type 0 where
  pub path : String
  pub port : String
  pub scheme : String
  pub initial_delay_seconds : ℕ
  pub timeout_seconds : ℕ
  pub failure_threshold : ℕ
  pub period_seconds : ℕ

pub record SecurityContext : Type 0 where
  pub privileged : Bool
  pub allow_privilege_escalation : Bool
  pub seccomp_profile : String
  pub read_only_root_filesystem : Bool
  pub run_as_user : ℕ
  pub run_as_group : ℕ
  pub run_as_non_root : Bool
  pub dropped : List String  -- of `Capabilities`
  pub added : List String

-- `R` stands for the requirements of resources.
pub record Container (R : Type 0) : Type 0 where
  pub name : String
  pub image : String
  pub image_pull_policy : String
  pub command : List String
  pub args : List String
  pub resources : Option R
  pub ports : List ContainerPort
  pub startup_probe : Option Probe
  pub readiness_probe : Option Probe
  pub liveness_probe : Option Probe
  pub restart_policy : Option String
  pub volume_mounts : List VolumeMount
  pub security_context : Option SecurityContext

pub record Toleration : Type 0 where
  pub key : Option String
  pub operator : Option String
  pub effect : Option String

-- A preferred affinity to the pods that the labels select, by host.
pub record PodAffinity : Type 0 where
  pub weight : ℕ
  pub labels : Labels
  pub topology_key : String

pub record TopologySpread : Type 0 where
  pub topology_key : String
  pub labels : Labels
  pub max_skew : ℕ
  pub when_unsatisfiable : String
  pub node_taints_policy : String
  pub node_affinity_policy : String

pub record PodSpec (R : Type 0) : Type 0 where
  pub automount_service_account_token : Bool
  pub service_account_name : String
  pub priority_class_name : String
  pub enable_service_links : Bool
  pub tolerations : List Toleration
  pub affinity : Option PodAffinity
  pub dns_policy : String
  pub host_network : Bool
  pub init_containers : List (Container R)
  pub containers : List (Container R)
  pub run_as_user : ℕ
  pub run_as_group : ℕ
  pub run_as_non_root : Bool
  pub fs_group : ℕ
  pub volumes : List Volume
  pub topology_spread_constraints : List TopologySpread

pub record PodTemplateSpec (R : Type 0) : Type 0 where
  pub labels : Labels
  pub annotations : List (String × String)
  pub spec : PodSpec R

-- `CreatePodTopologySpreadConstraints` of pkg/operator/util/pod_topology_spread_constraints.go.
unfoldable pub create_pod_topology_spread_constraints : Labels → TopologySpread
create_pod_topology_spread_constraints labels = record {
  topology_key = "kubernetes.io/hostname";
  labels = labels;
  max_skew = 1;
  when_unsatisfiable = "DoNotSchedule";
  node_taints_policy = "Honor";
  node_affinity_policy = "Honor";
}

abbrev no_projection : VolumeProjection
no_projection = record {
  secret = none;
  config_map = none;
  service_account_token = none;
  downward_api = [];
}

unfoldable pub secret_projection : String → Items → VolumeProjection
secret_projection name items = record no_projection {
  secret = some (record { name = name; optional = none; items = items });
}

unfoldable pub config_map_projection : String → Items → VolumeProjection
config_map_projection name items = record no_projection {
  config_map = some (record { name = name; optional = none; items = items });
}

unfoldable pub token_projection : ℕ → String → VolumeProjection
token_projection expiration path = record no_projection {
  service_account_token = some (expiration, path);
}

unfoldable pub downward_projection : Items → VolumeProjection
downward_projection items = record no_projection { downward_api = items }

-- `corev1ac.Volume().WithName(name)`.
abbrev pub volume : String → Volume
volume name = record {
  name = name;
  secret = none;
  config_map = none;
  empty_dir = none;
  projected = none;
}

unfoldable pub secret_volume : String → String → Items → Volume
secret_volume name secret items = record (volume name) {
  secret = some (record { name = secret; optional = none; items = items });
}

unfoldable pub config_map_volume : String → String → Items → Volume
config_map_volume name config_map items = record (volume name) {
  config_map = some (record { name = config_map; optional = none; items = items });
}

unfoldable pub memory_volume : String → Volume
memory_volume name = record (volume name) { empty_dir = some "Memory" }

unfoldable pub projected_volume : String → List VolumeProjection → Volume
projected_volume name sources = record (volume name) { projected = some sources }

unfoldable pub read_only_mount : String → String → VolumeMount
read_only_mount name path = record {
  name = name;
  mount_path = path;
  sub_path = none;
  read_only = some true;
}

unfoldable pub writable_mount : String → String → VolumeMount
writable_mount name path = record {
  name = name;
  mount_path = path;
  sub_path = none;
  read_only = none;
}

-- `kubeadm`'s `ControlPlaneComponentHealthCheckTimeout` is four minutes, which 24 periods of ten
-- seconds make.
unfoldable pub create_startup_probe : ContainerPort → String → String → Probe
create_startup_probe port path scheme = record {
  path = path;
  port = port.name;
  scheme = scheme;
  initial_delay_seconds = 0;
  timeout_seconds = 15;
  failure_threshold = 24;
  period_seconds = 10;
}

unfoldable pub create_readiness_probe : ContainerPort → String → String → Probe
create_readiness_probe port path scheme = record {
  path = path;
  port = port.name;
  scheme = scheme;
  initial_delay_seconds = 0;
  timeout_seconds = 15;
  failure_threshold = 3;
  period_seconds = 1;
}

unfoldable pub create_liveness_probe : ContainerPort → String → String → Probe
create_liveness_probe port path scheme = record {
  path = path;
  port = port.name;
  scheme = scheme;
  initial_delay_seconds = 0;
  timeout_seconds = 15;
  failure_threshold = 3;
  period_seconds = 10;
}
