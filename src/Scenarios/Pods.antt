-- ===== src/Scenarios/Pods.antt =====
-- The templates of pods with their checksums, the peers and rules of policies, and a Secret whose
-- type changes, at concrete inputs.
use mathlib.Core.List.{Perm}
use cluster_api_provider_hos.Prelude.{
  ℕ, suc, String, ◌≡◌, refl, ◌↔◌, Bool, true, false, none, some, List, [], ◌∷◌, map, ◌==◌,
  string_eq, nat_eq, option_eq, if◌then◌else◌, filter, some_by, All, flat_map,
}
use cluster_api_provider_hos.Prelude.Exec.{Error, new, ok, err, Exec, ◌>>=◌}
use cluster_api_provider_hos.Prelude.Sorting.{
  lookup, sort_texts, insert_text, sort_by_key, insert, text_less, assign,
}
use cluster_api_provider_hos.Names.{get_control_plane_labels}
use cluster_api_provider_hos.Scenarios.{owner}
use cluster_api_provider_hos.Objects.{
  Volume, Container, PodTemplateSpec, memory_volume, secret_volume, read_only_mount,
}
use cluster_api_provider_hos.NetworkPolicy.{
  cilium_peer, no_cilium_peer, component_labels, pod_namespace_label, label_metadata_name, Peer,
  Target, kubernetes_peer, no_peer, component_target, label_target,
}
use cluster_api_provider_hos.NetworkPolicy.Laws.{every_pod, kubernetes_peer-pod_labels}
use cluster_api_provider_hos.Reconcilers.{ApiErrors, all_causes, every_by}
use cluster_api_provider_hos.Reconcilers.Rules.{
  PortTargets, Rule, no_rule, network_policy_port, rule_with_ports, rule_with_peers,
  convert_to_rules,
}
use cluster_api_provider_hos.Reconcilers.Rules.Laws.{one_rule, Rising, convert_to_rules-Rising}
use cluster_api_provider_hos.Reconcilers.Pod.{
  ContainerOptions, default_pod_options, default_container_options, create_pod_template_spec,
  pod_spec, validate_mounts, needs_service_account,
}
use cluster_api_provider_hos.Reconcilers.Pod.Laws.{Mounted, create_pod_template_spec-mounts}
use cluster_api_provider_hos.Reconcilers.Resources.{
  ResourceClient, SecretApply, after_apply, after_deletion, secret_rounds, reconcile_secret,
  refused_type, secret_configuration,
}
use cluster_api_provider_hos.Reconcilers.Resources.Laws.{Ended, reconcile_secret-Ended}
use cluster_api_provider_hos.Checksum.{
  Data, calculate_checksum, set_checksum_annotations, extract_secret_names,
  extract_config_map_names,
}
use cluster_api_provider_hos.Checksum.Laws.{
  swapped, calculate_checksum-Reordered, set_checksum_annotations-others,
}

abbrev team : Target
team = label_target none (some (("team", "a") ∷ []))

kubernetes_peer-pod_labels_example :
    ((cilium_peer (component_target owner "etcd") no_cilium_peer).endpoints
      ≡ component_labels owner "etcd" ∷ [])
    × ((key : String)
        → lookup key (component_labels owner "etcd") ≡ (
            if pod_namespace_label == key
            then some "team"
            else lookup key (get_control_plane_labels owner "etcd")))
    × (kubernetes_peer (component_target owner "etcd") no_peer
        ≡ every_pod (some ((label_metadata_name, "team") ∷ [])))
    × (kubernetes_peer (label_target (some (("app", "a") ∷ [])) none) no_peer ≡ every_pod none)
kubernetes_peer-pod_labels_example =
    kubernetes_peer-pod_labels owner "etcd" (("app", "a") ∷ []) none

abbrev targets : PortTargets Target
targets = (6443, team ∷ component_target owner "etcd" ∷ []) ∷ (0, team ∷ []) ∷ []

abbrev peer_of : Target → Peer
peer_of target = kubernetes_peer target no_peer

abbrev rules : List Rule
rules = convert_to_rules no_rule network_policy_port peer_of rule_with_ports rule_with_peers targets

convert_to_rules-Rising_example :
    (arranged : PortTargets Target) × Perm arranged targets
    × Rising arranged
    × (rules
        ≡ flat_map
            (λ (e : ℕ × List Target).
              map
                (one_rule no_rule network_policy_port peer_of rule_with_ports rule_with_peers e.0)
                e.1)
            arranged)
convert_to_rules-Rising_example =
    convert_to_rules-Rising no_rule network_policy_port peer_of rule_with_ports rule_with_peers
      targets

abbrev server : Container ℕ × ContainerOptions
server = (
  record {
    name = "server";
    image = "server:1";
    image_pull_policy = "Always";
    command = [];
    args = [];
    resources = none;
    ports = [];
    startup_probe = none;
    readiness_probe = none;
    liveness_probe = none;
    restart_policy = none;
    volume_mounts = read_only_mount "tmp" "/tmp" ∷ [];
    security_context = none;
  },
  default_container_options,
)

abbrev volumes : List Volume
volumes = memory_volume "tmp" ∷ []

create_pod_template_spec-mounts_example :
    (((t : PodTemplateSpec ℕ) × (create_pod_template_spec default_pod_options []
            (server ∷ [])
            volumes
          ≡ ok t))
      ↔ ((default_pod_options.service_account_name ≡ "")
          ↔ (needs_service_account (server ∷ []) ≡ false)))
    × ((t : PodTemplateSpec ℕ)
        → create_pod_template_spec default_pod_options [] (server ∷ []) volumes ≡ ok t
        → All (λ (c : Container ℕ × ContainerOptions). Mounted volumes c.0) (server ∷ [])
        → validate_mounts t.spec ≡ ok tt)
create_pod_template_spec-mounts_example =
    create_pod_template_spec-mounts default_pod_options [] (server ∷ []) volumes

abbrev first_map : Data
first_map = ("b", "2") ∷ ("a", "1") ∷ []

abbrev second_map : Data
second_map = ("c", "3") ∷ []

calculate_checksum-Reordered_example :
    calculate_checksum (λ text. text) (first_map ∷ second_map ∷ [])
    ≡ calculate_checksum (λ text. text) (second_map ∷ first_map ∷ [])
calculate_checksum-Reordered_example =
    calculate_checksum-Reordered (λ text. text) (first_map ∷ second_map ∷ [])
      (second_map ∷ first_map ∷ []) (swapped first_map second_map [])

abbrev with_secret : PodTemplateSpec ℕ
with_secret = record {
  labels = [];
  annotations = ("note", "kept") ∷ [];
  spec = pod_spec default_pod_options [] (server ∷ []) (secret_volume "pki" "demo-pki" [] ∷ []);
}

abbrev get_secret : String → Exec ℕ Data
get_secret name calls = (ok first_map, suc calls)

abbrev get_config_map : String → Exec ℕ (Data × Data)
get_config_map name calls = (ok (second_map, []), suc calls)

abbrev with_checksum : PodTemplateSpec ℕ
with_checksum = record with_secret {
  annotations = ("checksum/secrets", "a1b2") ∷ ("note", "kept") ∷ [];
}

annotated :
    set_checksum_annotations (λ text. text) get_secret get_config_map with_secret 0
    ≡ (ok with_checksum, 1)
unfolding set_checksum_annotations ◌>>=◌ extract_secret_names extract_config_map_names flat_map
    pod_spec secret_volume sort_texts insert_text sort_by_key insert text_less assign filter some_by
annotated = refl

set_checksum_annotations-others_example :
    (with_checksum.spec ≡ with_secret.spec)
    × (with_checksum.labels ≡ with_secret.labels)
    × ((k : String)
        → ("checksum/secrets" == k) ≡ false
        → ("checksum/configmaps" == k) ≡ false
        → lookup k with_checksum.annotations ≡ lookup k with_secret.annotations)
set_checksum_annotations-others_example =
    set_checksum_annotations-others (λ text. text) get_secret get_config_map with_secret
      with_checksum 0 1 annotated

abbrev immutable : Error
immutable = new "field is immutable"

abbrev errors : ApiErrors
errors = record {
  is_not_found = λ e. false;
  invalid_causes = λ e.
      some (
        record { type = "FieldValueInvalid"; field = "type"; message = "field is immutable" } ∷ []);
  match_string = λ pattern text. true;
}

-- The Secret is refused until it was deleted.
abbrev secrets : ResourceClient Bool SecretApply
secrets = record {
  apply = λ secret gone. if gone then (ok tt, gone) else (err immutable, gone);
  delete = λ name gone. (ok tt, true);
}

secret_recreated :
    reconcile_secret errors 5 secrets "team" "demo" false none [] [] "Opaque" false
    ≡ some (ok tt, true)
unfolding reconcile_secret refused_type all_causes every_by secret_rounds after_apply after_deletion
secret_recreated = refl

reconcile_secret-Ended_example :
    Ended errors secrets
      (secret_configuration "team" "demo" none [] [] "Opaque")
      5
      false
      (ok tt)
      true
reconcile_secret-Ended_example =
    (reconcile_secret-Ended errors secrets 5 "team" "demo" none [] [] "Opaque" false true (ok tt)).0
      secret_recreated
