-- ===== src/Reconcilers/Policies.antt =====
-- `reconcileNetworkPolicy` of pkg/reconcilers/reconciler.go, and the two functions that it calls.
pub mod Laws
use cluster_api_provider_hos.Prelude.{
  ℕ, ◌/◌, ◌<◌, String, Bool, ◌&&◌, Option, none, some, List, [], ◌∷◌, arith, ◌==◌, string_eq,
  nat_eq, Eq, option_eq, if◌then◌else◌, ◌<>◌, filter,
}
use cluster_api_provider_hos.Prelude.Exec.{
  Error, new, wrap, join, Result, ok, err, Exec, pure, fail, wrapping, ◌>>=◌, ◌>>◌,
}
use cluster_api_provider_hos.Prelude.Exec.{attempt}
use cluster_api_provider_hos.Objects.{Labels, OwnerReference}
use cluster_api_provider_hos.NetworkPolicy.{IngressTarget, EgressTarget}
use cluster_api_provider_hos.Reconcilers.{ApiErrors, nil_pointer, delete_if_found}
use cluster_api_provider_hos.Reconcilers.Rules.{
  PortTargets, NetworkPolicySpec, CiliumSpec, kubernetes_spec, cilium_spec,
}

pub record NetworkPolicy : Type 0 where
  pub name : String
  pub namespace : String
  pub labels : Labels
  pub owner_references : List OwnerReference
  pub spec : NetworkPolicySpec

pub record CiliumNetworkPolicy : Type 0 where
  pub name : String
  pub namespace : String
  pub labels : Labels
  pub owner_references : List OwnerReference
  pub resource_version : String
  pub spec : CiliumSpec

-- A condition of a stored policy: its type, its status and its message.
pub record PolicyCondition : Type 0 where
  pub type : String
  pub status : String
  pub message : String

-- What an API server answers for a Cilium policy, as far as it is read.
pub record StoredPolicy : Type 0 where
  pub resource_version : String
  pub conditions : List PolicyCondition

-- The clients of one namespace. Where Cilium is not installed, there is no second one.
pub record CiliumClient (S : Type 0) : Type 0 where
  pub delete : String → Exec S (Unit {0})
  pub get : String → Exec S StoredPolicy
  pub create : CiliumNetworkPolicy → Exec S StoredPolicy
  pub update : CiliumNetworkPolicy → Exec S StoredPolicy

pub record PolicyClients (S : Type 0) : Type 0 where
  pub delete : String → Exec S (Unit {0})
  pub apply : NetworkPolicy → Exec S (Unit {0})
  pub cilium : Option (CiliumClient S)

abbrev pub owners : Option OwnerReference → List OwnerReference
owners none = []
owners (some o) = o ∷ []

abbrev pub slashed : String → String → String
slashed namespace name = namespace <> "/" <> name

abbrev pub is_invalid : PolicyCondition → Bool
is_invalid c = c.type == "Valid" && c.status == "False"

-- `errors.Join` of a list that is not empty.
unfoldable pub join_messages : PolicyCondition → List PolicyCondition → Error
join_messages c [] = new c.message
join_messages c (d ∷ ds) = join (new c.message) (join_messages d ds)

module _ (name namespace : String) (owner : Option OwnerReference) (labels : Labels)
    (ingress : Option (PortTargets IngressTarget))
    (egress : Option (PortTargets EgressTarget)) where
  unfoldable pub network_policy : NetworkPolicy
  network_policy = record {
    name = name;
    namespace = namespace;
    labels = labels;
    owner_references = owners owner;
    spec = kubernetes_spec labels ingress egress;
  }

  unfoldable pub cilium_network_policy : String → CiliumNetworkPolicy
  cilium_network_policy version = record {
    name = name;
    namespace = namespace;
    labels = labels;
    owner_references = owners owner;
    resource_version = version;
    spec = cilium_spec labels ingress egress;
  }

module _ (errors : ApiErrors) {S : Type 0} where
  module _ (name namespace : String) (owner : Option OwnerReference) (labels : Labels)
      (ingress : Option (PortTargets IngressTarget))
      (egress : Option (PortTargets EgressTarget)) where
    unfoldable pub reconcile_kubernetes_network_policy :
        (NetworkPolicy → Exec S (Unit {0})) → Exec S (Unit {0})
    unfolding network_policy
    reconcile_kubernetes_network_policy apply =
        wrapping ("failed to apply network policy " <> slashed namespace name)
          (apply (network_policy name namespace owner labels ingress egress))

    unfoldable pub check_conditions : StoredPolicy → Exec S (Unit {0})
    unfolding join_messages
    check_conditions policy = elim (filter is_invalid policy.conditions) [
      | [] ↦ pure tt
      | c ∷ cs ↦ fail (
          wrap ("cilium network policy " <> slashed namespace name <> " is invalid")
            (join_messages c cs))
    ]

    -- The call behind `Get`: a policy that is there is updated at its version.
    unfoldable pub create_or_update : CiliumClient S → Result StoredPolicy → Exec S StoredPolicy
    unfolding cilium_network_policy
    create_or_update client (ok policy) =
        wrapping ("failed to create or update cilium network policy " <> slashed namespace name) (
          client.update (
            cilium_network_policy name namespace owner labels ingress egress
              policy.resource_version))
    create_or_update client (err e) =
        if errors.is_not_found e
        then wrapping
            ("failed to create or update cilium network policy " <> slashed namespace name)
            (client.create (cilium_network_policy name namespace owner labels ingress egress ""))
        else fail (wrap ("failed to get cilium network policy " <> slashed namespace name) e)

    unfoldable pub reconcile_cilium_network_policy : CiliumClient S → Exec S (Unit {0})
    unfolding create_or_update check_conditions
    reconcile_cilium_network_policy client = do
      existing ← attempt (client.get name)
      policy ← create_or_update client existing
      check_conditions policy

    unfoldable pub delete_policies : PolicyClients S → Exec S (Unit {0})
    delete_policies clients = do
      delete_if_found errors ("failed to delete network policy " <> slashed namespace name)
          (clients.delete name)
      elim clients.cilium [
        | none ↦ fail nil_pointer
        | some cilium ↦
            delete_if_found errors
              ("failed to delete cilium network policy " <> slashed namespace name)
              (cilium.delete name)
      ]

    unfoldable pub apply_policy : PolicyClients S → Exec S (Unit {0})
    unfolding reconcile_cilium_network_policy reconcile_kubernetes_network_policy
    apply_policy clients = elim clients.cilium [
      | none ↦ reconcile_kubernetes_network_policy clients.apply
      | some cilium ↦ do
        delete_if_found errors ("failed to delete network policy " <> slashed namespace name)
            (clients.delete name)
        reconcile_cilium_network_policy cilium
    ]

  unfoldable pub reconcile_network_policy :
      PolicyClients S
      → String
      → String
      → Option OwnerReference
      → Labels
      → Option (PortTargets IngressTarget)
      → Option (PortTargets EgressTarget)
      → Exec S (Unit {0})
  unfolding delete_policies apply_policy
  reconcile_network_policy clients namespace name owner labels none none =
      delete_policies name namespace owner labels none none clients
  reconcile_network_policy clients namespace name owner labels ingress egress =
      apply_policy name namespace owner labels ingress egress clients
