-- ===== src/NetworkPolicy.antt =====
-- pkg/util/networkpolicy/target.go: what a policy may admit, and how each kind of target is written
-- as a peer of a Kubernetes policy and of a Cilium policy.
pub mod Laws
use cluster_api_provider_hos.Prelude.{
  ℕ, ◌+◌, ◌/◌, ◌<◌, String, Option, none, some, List, [], ◌∷◌, ◌++◌, map, arith, ◌==◌, string_eq,
  nat_eq, Eq, option_eq, if◌then◌else◌, ◌<>◌,
}
use cluster_api_provider_hos.Prelude.Sorting.{assign}
use cluster_api_provider_hos.Objects.{Labels}
use cluster_api_provider_hos.Api.{Cluster}
use cluster_api_provider_hos.Names.{get_control_plane_labels}

-- `NetworkPolicyPeerApplyConfiguration`; a selector without labels selects everything.
pub record Peer : Type 0 where
  pub pod_selector : Option Labels
  pub namespace_selector : Option Labels
  pub ip_block : Option String

-- The entities of Cilium that the code names.
pub data Entity : Type 0 where
  entity_cluster entity_world entity_kube_api_server : Entity

-- `CiliumPolicyPeer`; an endpoint selector is the labels that it matches.
pub record CiliumPeer : Type 0 where
  pub endpoints : List Labels
  pub cidr : List String
  pub fqdns : List String
  pub identities : List Entity

-- The targets that stand on both sides of a policy. Nil labels are `none`; the API server's target
-- has the legacy IP of the status.
pub data Target : Type 0 where
  cidr_target : String → Target
  world_target : Target
  api_server_target : String → Target
  in_cluster_api_server_target : Target
  component_target : Cluster → String → Target
  label_target : Option Labels → Option Labels → Target

pub data IngressTarget : Type 0 where
  from : Target → IngressTarget
  from_hcp_controller : String → IngressTarget

pub data EgressTarget : Type 0 where
  to : Target → EgressTarget
  to_dns : String → EgressTarget
  to_cluster : EgressTarget

abbrev pub new_ip_target : String → Target
new_ip_target ip = cidr_target (ip <> "/32")

abbrev pub new_namespace_label_target : Labels → Target
new_namespace_label_target labels = label_target none (some labels)

-- `corev1.LabelMetadataName`.
abbrev pub label_metadata_name : String
label_metadata_name = "kubernetes.io/metadata.name"

-- `PodNamespaceLabel` and `PodNamespaceMetaLabelsPrefix` of Cilium.
abbrev pub pod_namespace_label : String
pod_namespace_label = "io.kubernetes.pod.namespace"

abbrev pub pod_namespace_meta_labels_prefix : String
pod_namespace_meta_labels_prefix = "io.cilium.k8s.namespace.labels."

abbrev pub no_peer : Peer
no_peer = record { pod_selector = none; namespace_selector = none; ip_block = none }

abbrev pub no_cilium_peer : CiliumPeer
no_cilium_peer = record { endpoints = []; cidr = []; fqdns = []; identities = [] }

abbrev with_cidr : String → Peer → Peer
with_cidr cidr peer = record peer { ip_block = some cidr }

-- `LabelNetworkPolicyTarget.ApplyToKubernetesIngressNetworkPolicy`.
unfoldable pub label_peer : Option Labels → Option Labels → Peer → Peer
label_peer pod_labels namespace_labels peer =
    let with_pods : Peer = elim pod_labels [
      | none ↦ record peer { pod_selector = some [] }
      | some labels ↦ peer
    ] in
    elim namespace_labels [
      | none ↦ with_pods
      | some labels ↦ record with_pods { namespace_selector = some labels }
    ]

-- `ApplyToKubernetesIngressNetworkPolicy`, which `ApplyToKubernetesEgressNetworkPolicy` calls.
unfoldable pub kubernetes_peer : Target → Peer → Peer
unfolding label_peer
kubernetes_peer (cidr_target cidr) peer = with_cidr cidr peer
kubernetes_peer world_target peer = with_cidr "0.0.0.0/0" peer
kubernetes_peer (api_server_target ip) peer = with_cidr (ip <> "/32") peer
kubernetes_peer in_cluster_api_server_target peer = with_cidr "0.0.0.0/0" peer
kubernetes_peer (component_target cluster component) peer =
    label_peer (some (get_control_plane_labels cluster component))
      (some ((label_metadata_name, cluster.namespace) ∷ [])) peer
kubernetes_peer (label_target pod_labels namespace_labels) peer =
    label_peer pod_labels namespace_labels peer

unfoldable pub kubernetes_ingress_peer : IngressTarget → Peer → Peer
unfolding kubernetes_peer
kubernetes_ingress_peer (from target) peer = kubernetes_peer target peer
kubernetes_ingress_peer (from_hcp_controller namespace) peer =
    kubernetes_peer (new_namespace_label_target ((label_metadata_name, namespace) ∷ [])) peer

unfoldable pub kubernetes_egress_peer : EgressTarget → Peer → Peer
unfolding kubernetes_peer
kubernetes_egress_peer (to target) peer = kubernetes_peer target peer
kubernetes_egress_peer (to_dns hostname) peer = with_cidr "0.0.0.0/0" peer
kubernetes_egress_peer to_cluster peer = with_cidr "0.0.0.0/0" peer

abbrev add_endpoint : Labels → CiliumPeer → CiliumPeer
add_endpoint labels peer = record peer { endpoints = peer.endpoints ++ (labels ∷ []) }

abbrev add_entity : Entity → CiliumPeer → CiliumPeer
add_entity entity peer = record peer { identities = peer.identities ++ (entity ∷ []) }

unfoldable pub namespace_meta_labels : Labels → Labels
namespace_meta_labels labels =
    map (λ (e : String × String). (pod_namespace_meta_labels_prefix <> e.0, e.1)) labels

-- `LabelNetworkPolicyTarget.ApplyToCiliumIngressNetworkPolicy`.
unfoldable pub label_cilium_peer : Option Labels → Option Labels → CiliumPeer → CiliumPeer
unfolding namespace_meta_labels
label_cilium_peer pod_labels namespace_labels peer =
    let with_pods : CiliumPeer = elim pod_labels [
      | none ↦ peer
      | some labels ↦ add_endpoint labels peer
    ] in
    elim namespace_labels [
      | none ↦ with_pods
      | some labels ↦ add_endpoint (namespace_meta_labels labels) with_pods
    ]

-- The labels with which Cilium selects the pods of a component.
unfoldable pub component_labels : Cluster → String → Labels
component_labels cluster component =
    assign (get_control_plane_labels cluster component)
      ((pod_namespace_label, cluster.namespace) ∷ [])

-- `ApplyToCiliumIngressNetworkPolicy`, which `ApplyToCiliumEgressNetworkPolicy` calls.
unfoldable pub cilium_peer : Target → CiliumPeer → CiliumPeer
unfolding label_cilium_peer component_labels
cilium_peer (cidr_target cidr) peer = record peer { cidr = peer.cidr ++ (cidr ∷ []) }
cilium_peer world_target peer = add_entity entity_world peer
cilium_peer (api_server_target ip) peer = add_entity entity_kube_api_server peer
cilium_peer in_cluster_api_server_target peer = add_entity entity_kube_api_server peer
cilium_peer (component_target cluster component) peer =
    add_endpoint (component_labels cluster component) peer
cilium_peer (label_target pod_labels namespace_labels) peer =
    label_cilium_peer pod_labels namespace_labels peer

unfoldable pub cilium_ingress_peer : IngressTarget → CiliumPeer → CiliumPeer
unfolding cilium_peer
cilium_ingress_peer (from target) peer = cilium_peer target peer
cilium_ingress_peer (from_hcp_controller namespace) peer =
    cilium_peer (new_namespace_label_target ((label_metadata_name, namespace) ∷ [])) peer

unfoldable pub cilium_egress_peer : EgressTarget → CiliumPeer → CiliumPeer
unfolding cilium_peer
cilium_egress_peer (to target) peer = cilium_peer target peer
cilium_egress_peer (to_dns hostname) peer = record peer { fqdns = peer.fqdns ++ (hostname ∷ []) }
cilium_egress_peer to_cluster peer = add_entity entity_cluster peer
