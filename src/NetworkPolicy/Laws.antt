-- ===== src/NetworkPolicy/Laws.antt =====
-- What the peers of pkg/util/networkpolicy/target.go select.
use cluster_api_provider_hos.Prelude.{
  String, ◌≡◌, refl, ◌∙◌, inl, inr, Option, none, some, [], ◌∷◌, ◌==◌, string_eq, nat_eq, option_eq,
  if◌then◌else◌, Bool-cases,
}
use cluster_api_provider_hos.Prelude.Sorting.{lookup}
use cluster_api_provider_hos.Prelude.Sorting.Assign.{lookup-assign}
use cluster_api_provider_hos.Objects.{Labels}
use cluster_api_provider_hos.Api.{Cluster}
use cluster_api_provider_hos.Names.{get_control_plane_labels}
use cluster_api_provider_hos.NetworkPolicy.{
  Peer, label_target, component_target, kubernetes_peer, cilium_peer, label_peer, no_peer,
  no_cilium_peer, component_labels, pod_namespace_label, label_metadata_name,
}

-- Every pod of the namespaces that have these labels.
abbrev pub every_pod : Option Labels → Peer
every_pod namespace_labels = record {
  pod_selector = none;
  namespace_selector = namespace_labels;
  ip_block = none;
}

-- As a peer of a Cilium policy, a component is one endpoint selector, which requires the namespace
-- of the cluster beside each of the component's own labels.
pub cilium_peer-component :
    (cluster : Cluster) (component : String)
    → ((cilium_peer (component_target cluster component) no_cilium_peer).endpoints
        ≡ component_labels cluster component ∷ [])
      × ((key : String)
          → lookup key (component_labels cluster component) ≡ (
              if pod_namespace_label == key
              then some cluster.namespace
              else lookup key (get_control_plane_labels cluster component)))
unfolding cilium_peer component_labels lookup
cilium_peer-component cluster component = (
  refl,
  λ key.
      lookup-assign key (get_control_plane_labels cluster component)
        ((pod_namespace_label, cluster.namespace) ∷ [])
      ∙ elim (Bool-cases (pod_namespace_label == key)) [
        | inl hit ↦ rw hit refl
        | inr miss ↦ rw miss refl
      ],
)

-- As a peer of a Cilium policy, a component is one endpoint selector, which requires the namespace of
-- its cluster beside each of its own labels. As a peer of a Kubernetes policy, it is every pod of that
-- namespace: its labels are left out. So are the pod labels of any label target, of which the
-- namespace selector alone remains.
pub kubernetes_peer-pod_labels :
    (cluster : Cluster) (component : String) (pod_labels : Labels)
    (namespace_labels : Option Labels)
    → ((cilium_peer (component_target cluster component) no_cilium_peer).endpoints
        ≡ component_labels cluster component ∷ [])
      × ((key : String)
          → lookup key (component_labels cluster component) ≡ (
              if pod_namespace_label == key
              then some cluster.namespace
              else lookup key (get_control_plane_labels cluster component)))
      × (kubernetes_peer (component_target cluster component) no_peer
          ≡ every_pod (some ((label_metadata_name, cluster.namespace) ∷ [])))
      × (kubernetes_peer (label_target (some pod_labels) namespace_labels) no_peer
          ≡ every_pod namespace_labels)
unfolding kubernetes_peer label_peer
kubernetes_peer-pod_labels cluster component pod_labels none =
    let (one, labels) = cilium_peer-component cluster component in (one, labels, refl, refl)
kubernetes_peer-pod_labels cluster component pod_labels (some namespace_labels) =
    let (one, labels) = cilium_peer-component cluster component in (one, labels, refl, refl)
