-- ===== src/Reconcilers/Pod.antt =====
-- The pod template in pkg/reconcilers/reconciler.go: `createPodTemplateSpec` and
-- `convertToContainerApplyConfiguration`; and `ValidateMounts` of pkg/operator/util/pod.go.
pub mod Laws
use cluster_api_provider_hos.Prelude.{
  ℕ, ◌+◌, ◌-◌, ◌/◌, ◌<◌, String, Bool, true, false, not, ◌||◌, Option, none, some, List, [], ◌∷◌,
  ◌++◌, map, arith, ◌==◌, string_eq, nat_eq, Eq, option_eq, if◌then◌else◌, ◌<>◌, filter, some_by,
  join_with,
}
use cluster_api_provider_hos.Prelude.Exec.{Error, new, wrap, Result, ok, err, ◌>>=◌, ◌>>◌}
use cluster_api_provider_hos.Prelude.{bool_eq}
use cluster_api_provider_hos.Prelude.{flat_map}
use cluster_api_provider_hos.Objects.{
  Container, PodSpec, PodTemplateSpec, PodAffinity, Toleration, Volume, VolumeMount,
  SecurityContext, projected_volume, token_projection, downward_projection, config_map_projection,
  read_only_mount,
}

pub record PodOptions : Type 0 where
  pub service_account_name : String
  pub dns_policy : String
  pub host_network : Bool
  pub annotations : List (String × String)
  pub priority_class_name : String
  pub affinity : Option PodAffinity
  pub tolerations : List Toleration

pub record ContainerOptions : Type 0 where
  pub root : Bool
  pub read_write_root_filesystem : Bool
  pub capabilities : List String
  pub needs_service_account : Bool

-- The options of a zero value.
abbrev pub default_pod_options : PodOptions
default_pod_options = record {
  service_account_name = "";
  dns_policy = "";
  host_network = false;
  annotations = [];
  priority_class_name = "";
  affinity = none;
  tolerations = [];
}

abbrev pub default_container_options : ContainerOptions
default_container_options = record {
  root = false;
  read_write_root_filesystem = false;
  capabilities = [];
  needs_service_account = false;
}

-- Names of Kubernetes: `ServiceAccountVolumeName`, `DefaultAPITokenMountPath`,
-- `ServiceAccountTokenKey`, `ServiceAccountNamespaceKey`, `RootCACertConfigMapName`,
-- `CACertName`, and the expiration that only warns.
abbrev pub service_account_volume_name : String
service_account_volume_name = "kube-api-access"

abbrev pub default_api_token_mount_path : String
default_api_token_mount_path = "/var/run/secrets/kubernetes.io/serviceaccount"

abbrev pub invalid_service_account : Error
invalid_service_account = new (
    "invalid service account configuration: if ServiceAccount is empty, then no container can use it "
    <> "and vice versa")

abbrev pub invalid_mount : Error
invalid_mount = new "volume mount invalid or using non-existing volume"

unfoldable pub security_context : ContainerOptions → SecurityContext
security_context options =
    let user = if options.root then 0 else 1000 in
    record {
      privileged = options.root;
      allow_privilege_escalation = options.root;
      seccomp_profile = "RuntimeDefault";
      read_only_root_filesystem = not options.read_write_root_filesystem;
      run_as_user = user;
      run_as_group = user;
      run_as_non_root = not options.root;
      dropped = "ALL" ∷ [];
      added = options.capabilities;
    }

unfoldable pub service_account_volume : Volume
service_account_volume = projected_volume service_account_volume_name (
    token_projection 3607 "token"
    ∷ downward_projection (("namespace", "metadata.namespace") ∷ [])
    ∷ config_map_projection "kube-root-ca.crt" (("ca.crt", "ca.crt") ∷ [])
    ∷ [])

module _ {R : Type 0} where
  unfoldable pub convert_container : Container R × ContainerOptions → Container R
  unfolding security_context
  convert_container (container, options) = record container {
    volume_mounts =
        if options.needs_service_account
        then container.volume_mounts
          ++ (read_only_mount service_account_volume_name default_api_token_mount_path ∷ [])
        else container.volume_mounts;
    security_context = some (security_context options);
  }

  abbrev pub convert_to_container_apply_configuration :
      List (Container R × ContainerOptions) → List (Container R)
  convert_to_container_apply_configuration = map convert_container

  abbrev pub needs_service_account : List (Container R × ContainerOptions) → Bool
  needs_service_account =
      some_by (λ (c : Container R × ContainerOptions). c.1.needs_service_account)

  unfoldable pub pod_spec :
      PodOptions
      → List (Container R × ContainerOptions)
      → List (Container R × ContainerOptions)
      → List Volume
      → PodSpec R
  pod_spec options init_containers containers volumes = record {
    automount_service_account_token = false;
    service_account_name = options.service_account_name;
    priority_class_name = options.priority_class_name;
    enable_service_links = false;
    tolerations = options.tolerations;
    affinity = options.affinity;
    dns_policy = if options.dns_policy == "" then "ClusterFirst" else options.dns_policy;
    host_network = options.host_network;
    init_containers = convert_to_container_apply_configuration init_containers;
    containers = convert_to_container_apply_configuration containers;
    run_as_user = 1000;
    run_as_group = 1000;
    run_as_non_root = true;
    fs_group = 1000;
    volumes =
        if options.service_account_name == ""
        then volumes
        else volumes ++ (service_account_volume ∷ []);
    topology_spread_constraints = [];
  }

  unfoldable pub create_pod_template_spec :
      PodOptions
      → List (Container R × ContainerOptions)
      → List (Container R × ContainerOptions)
      → List Volume
      → Result (PodTemplateSpec R)
  unfolding pod_spec
  create_pod_template_spec options init_containers containers volumes =
      if (options.service_account_name == "") == needs_service_account containers
      then err (wrap "invalid pod configuration" invalid_service_account)
      else ok (record {
        labels = [];
        annotations = options.annotations;
        spec = pod_spec options init_containers containers volumes;
      })

-- `*mount.MountPath == "" || slices.NoneBy(…)`.
unfoldable pub is_invalid_mount : List Volume → VolumeMount → Bool
is_invalid_mount volumes mount =
    mount.mount_path == "" || not (some_by (λ (v : Volume). mount.name == v.name) volumes)

unfoldable pub check_mounts : List VolumeMount → Result (Unit {0})
check_mounts [] = ok tt
check_mounts (m ∷ ms) = err (
    wrap
      ("VolumeMounts "
        <> join_with "," (map (λ (x : VolumeMount). x.name) (m ∷ ms))
        <> " are using a non-existent volume or have an empty mountPath")
      invalid_mount)

unfoldable pub validate_mounts : {R : Type 0} → PodSpec R → Result (Unit {0})
unfolding is_invalid_mount check_mounts
validate_mounts {R} spec = check_mounts (
    filter (is_invalid_mount spec.volumes)
      (flat_map (λ (c : Container R). c.volume_mounts) spec.containers))
