-- ===== src/Reconcilers/Rules.antt =====
-- The rules of a network policy in pkg/reconcilers/reconciler.go: `convertToRules` and `sortByPort`,
-- and the specifications that `reconcileKubernetesNetworkPolicy` and `reconcileCiliumNetworkPolicy`
-- build with them. A map from ports to targets is an association list; a nil map is `none`.
pub mod Laws
use cluster_api_provider_hos.Prelude.{
  ℕ, ◌+◌, ◌-◌, ◌*◌, String, Option, none, some, List, [], ◌∷◌, ◌++◌, map, arith, ◌==◌, string_eq,
  nat_eq, Eq, option_eq, if◌then◌else◌, ltb, decimal,
}
use cluster_api_provider_hos.Prelude.{flat_map}
use cluster_api_provider_hos.Objects.{Labels}
use cluster_api_provider_hos.NetworkPolicy.{
  Peer, CiliumPeer, Entity, IngressTarget, EgressTarget, no_peer, no_cilium_peer,
  kubernetes_ingress_peer, kubernetes_egress_peer, cilium_ingress_peer, cilium_egress_peer,
  label_metadata_name, pod_namespace_label,
}

abbrev pub PortTargets : Type 0 → Type 0
PortTargets T = List (ℕ × List T)

module _ {T : Type 0} where
  unfoldable pub insert_by_port : ℕ × List T → PortTargets T → PortTargets T
  insert_by_port e [] = e ∷ []
  insert_by_port e (f ∷ fs) =
      let rest = insert_by_port e fs in if ltb f.0 e.0 then f ∷ rest else e ∷ f ∷ fs

  unfoldable pub sort_by_port : PortTargets T → PortTargets T
  unfolding insert_by_port
  sort_by_port [] = []
  sort_by_port (e ∷ es) = insert_by_port e (sort_by_port es)

module _ {AC Port PeerAC T : Type 0} (create_resource : AC) (create_port : ℕ → Port)
    (create_peer : T → PeerAC) (with_ports : AC → List Port → AC)
    (add_peers : AC → List PeerAC → AC) where
  -- The rule of one target; port 0 stands for all ports.
  unfoldable pub to_rule : ℕ → T → AC
  to_rule port target =
      let rule =
        if port == 0 then create_resource else with_ports create_resource (create_port port ∷ []) in
      add_peers rule (create_peer target ∷ [])

  unfoldable pub convert_to_rules : PortTargets T → List AC
  unfolding to_rule
  convert_to_rules targets =
      flat_map (λ (e : ℕ × List T). map (to_rule e.0) e.1) (sort_by_port targets)

-- `NetworkPolicyPort`.
pub record PolicyPort : Type 0 where
  pub port : ℕ
  pub protocol : Option String

-- An ingress or an egress rule: its ports and its peers.
pub record Rule : Type 0 where
  pub ports : List PolicyPort
  pub peers : List Peer

pub record NetworkPolicySpec : Type 0 where
  pub pod_selector : Labels
  pub policy_types : List String
  pub ingress : List Rule
  pub egress : List Rule

abbrev pub no_rule : Rule
no_rule = record { ports = []; peers = [] }

abbrev pub rule_with_ports : Rule → List PolicyPort → Rule
rule_with_ports rule ports = record rule { ports = rule.ports ++ ports }

abbrev pub rule_with_peers : Rule → List Peer → Rule
rule_with_peers rule peers = record rule { peers = rule.peers ++ peers }

unfoldable pub network_policy_port : ℕ → PolicyPort
network_policy_port port = record { port = port; protocol = none }

unfoldable pub ingress_rules : PortTargets IngressTarget → List Rule
ingress_rules =
    convert_to_rules no_rule network_policy_port (λ target. kubernetes_ingress_peer target no_peer)
      rule_with_ports rule_with_peers

-- The rule behind the other egress rules, for the names of the cluster.
unfoldable pub dns_rule : Rule
dns_rule = record {
  ports = record { port = 53; protocol = some "UDP" } ∷ [];
  peers =
      record {
        pod_selector = some (("k8s-app", "kube-dns") ∷ []);
        namespace_selector = some ((label_metadata_name, "kube-system") ∷ []);
        ip_block = none;
      }
      ∷ [];
}

unfoldable pub egress_rules : PortTargets EgressTarget → List Rule
egress_rules targets =
    convert_to_rules no_rule network_policy_port (λ target. kubernetes_egress_peer target no_peer)
      rule_with_ports rule_with_peers targets
    ++ (dns_rule ∷ [])

unfoldable pub kubernetes_spec :
    Labels
    → Option (PortTargets IngressTarget)
    → Option (PortTargets EgressTarget)
    → NetworkPolicySpec
unfolding ingress_rules egress_rules
kubernetes_spec labels ingress egress =
    let spec : NetworkPolicySpec = record {
      pod_selector = labels;
      policy_types = [];
      ingress = [];
      egress = [];
    } in
    let with_ingress : NetworkPolicySpec = elim ingress [
      | none ↦ spec
      | some targets ↦ record spec {
        policy_types = "Ingress" ∷ [];
        ingress = ingress_rules targets;
      }
    ] in
    elim egress [
      | none ↦ with_ingress
      | some targets ↦ record with_ingress {
        policy_types = with_ingress.policy_types ++ ("Egress" ∷ []);
        egress = egress_rules targets;
      }
    ]

-- Cilium's `PortRule`, with the patterns of the DNS names that it records.
pub record PortRule : Type 0 where
  pub ports : List (String × String)  -- the port and the protocol
  pub dns : List String

-- An ingress or an egress rule of Cilium; only an egress rule has names.
pub record CiliumRule : Type 0 where
  pub to_ports : List PortRule
  pub endpoints : List Labels
  pub cidr : List String
  pub fqdns : List String
  pub entities : List Entity

-- `api.Rule`; a nil list of rules is `none`.
pub record CiliumSpec : Type 0 where
  pub endpoint_selector : Labels
  pub ingress : Option (List CiliumRule)
  pub egress : Option (List CiliumRule)

abbrev pub no_cilium_rule : CiliumRule
no_cilium_rule = record { to_ports = []; endpoints = []; cidr = []; fqdns = []; entities = [] }

unfoldable pub cilium_port : ℕ → PortRule
cilium_port port = record { ports = (decimal port, "") ∷ []; dns = [] }

abbrev pub cilium_with_ports : CiliumRule → List PortRule → CiliumRule
cilium_with_ports rule ports = record rule { to_ports = ports }

abbrev pub from_peers : CiliumRule → List CiliumPeer → CiliumRule
from_peers rule peers = record rule {
  endpoints = rule.endpoints ++ flat_map (λ (p : CiliumPeer). p.endpoints) peers;
  cidr = rule.cidr ++ flat_map (λ (p : CiliumPeer). p.cidr) peers;
  entities = rule.entities ++ flat_map (λ (p : CiliumPeer). p.identities) peers;
}

abbrev pub to_peers : CiliumRule → List CiliumPeer → CiliumRule
to_peers rule peers = record (from_peers rule peers) {
  fqdns = rule.fqdns ++ flat_map (λ (p : CiliumPeer). p.fqdns) peers;
}

unfoldable pub cilium_ingress_rules : PortTargets IngressTarget → List CiliumRule
cilium_ingress_rules =
    convert_to_rules no_cilium_rule cilium_port
      (λ target. cilium_ingress_peer target no_cilium_peer) cilium_with_ports from_peers

unfoldable pub cilium_dns_rule : CiliumRule
cilium_dns_rule = record no_cilium_rule {
  to_ports = record { ports = ("53", "UDP") ∷ []; dns = "*" ∷ [] } ∷ [];
  endpoints = (("k8s-app", "kube-dns") ∷ (pod_namespace_label, "kube-system") ∷ []) ∷ [];
}

unfoldable pub cilium_egress_rules : PortTargets EgressTarget → List CiliumRule
cilium_egress_rules targets =
    convert_to_rules no_cilium_rule cilium_port (λ target. cilium_egress_peer target no_cilium_peer)
      cilium_with_ports to_peers targets
    ++ (cilium_dns_rule ∷ [])

unfoldable pub cilium_spec :
    Labels → Option (PortTargets IngressTarget) → Option (PortTargets EgressTarget) → CiliumSpec
unfolding cilium_ingress_rules cilium_egress_rules
cilium_spec labels ingress egress = record {
  endpoint_selector = labels;
  ingress = elim ingress [ none ↦ none | some targets ↦ some (cilium_ingress_rules targets) ];
  egress = elim egress [ none ↦ none | some targets ↦ some (cilium_egress_rules targets) ];
}
