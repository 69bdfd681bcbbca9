-- ===== src/Reconcilers/Resources.antt =====
-- The resources other than workloads in pkg/reconcilers/reconciler.go:
-- `reconcilePodDisruptionBudget`, `reconcileService`, `reconcileSecret` and `reconcileConfigmap`.
pub mod Laws
use cluster_api_provider_hos.Prelude.{
  ℕ, zero, suc, ◌+◌, ◌<◌, String, Bool, true, not, ◌&&◌, Option, none, some, List, arith, ◌==◌,
  string_eq, nat_eq, Eq, option_eq, if◌then◌else◌, ◌<>◌, is_some, is_empty,
}
use cluster_api_provider_hos.Prelude.Exec.{
  Error, new, wrap, Result, ok, err, Exec, pure, fail, wrapping, ◌>>=◌, ◌>>◌,
}
use cluster_api_provider_hos.Prelude.Exec.{attempt}
use cluster_api_provider_hos.Objects.{Labels, OwnerReference}
use cluster_api_provider_hos.Reconcilers.{ApiErrors, Cause, all_causes, delete_if_found}
use cluster_api_provider_hos.Reconcilers.Policies.{owners, slashed}

pub data BudgetType : Type 0 where
  min_available_type max_unavailable_type : BudgetType

pub record PodDisruptionBudgetMode : Type 0 where
  pub type : BudgetType
  pub value : ℕ

pub record PodDisruptionBudget : Type 0 where
  pub name : String
  pub namespace : String
  pub labels : Labels
  pub owner_references : List OwnerReference
  pub selector : Labels
  pub min_available : Option ℕ
  pub max_unavailable : Option ℕ

pub record BudgetClient (S : Type 0) : Type 0 where
  pub apply : PodDisruptionBudget → Exec S (Unit {0})
  pub delete : String → Exec S (Unit {0})

unfoldable pub pod_disruption_budget :
    String → String → Option OwnerReference → Labels → PodDisruptionBudgetMode → PodDisruptionBudget
pod_disruption_budget namespace name owner labels mode = record {
  name = name;
  namespace = namespace;
  labels = labels;
  owner_references = owners owner;
  selector = labels;
  min_available = elim mode.type [
    | min_available_type ↦ some mode.value
    | max_unavailable_type ↦ none
  ];
  max_unavailable = elim mode.type [
    | min_available_type ↦ none
    | max_unavailable_type ↦ some mode.value
  ];
}

pub data ServiceType : Type 0 where
  cluster_ip_type node_port_type load_balancer_type external_name_type : ServiceType

pub record ServicePort : Type 0 where
  pub name : String
  pub port : ℕ
  pub target_port : String
  pub protocol : String

pub record ServiceApply : Type 0 where
  pub name : String
  pub namespace : String
  pub labels : Labels
  pub owner_references : List OwnerReference
  pub type : ServiceType
  pub selector : Labels
  pub ports : List ServicePort
  pub cluster_ip : Option String
  pub publish_not_ready_addresses : Option Bool

-- A stored service: its cluster IP, and the IPs of its load balancer.
pub record Service : Type 0 where
  pub cluster_ip : String
  pub ingress : List String

abbrev pub both_cluster_ip_and_headless : Error
both_cluster_ip_and_headless = new "service cannot be headless and have a clusterIP set"

unfoldable pub is_service_ready : ServiceType → Service → Bool
is_service_ready load_balancer_type service = not (is_empty service.ingress)
is_service_ready cluster_ip_type service = not (service.cluster_ip == "")
is_service_ready node_port_type service = true
is_service_ready external_name_type service = true

pub record SecretApply : Type 0 where
  pub name : String
  pub namespace : String
  pub labels : Labels
  pub owner_references : List OwnerReference
  pub values : List (String × String)
  pub type : String

pub record ConfigMapApply : Type 0 where
  pub name : String
  pub namespace : String
  pub labels : Labels
  pub owner_references : List OwnerReference
  pub values : List (String × String)

-- The client of one kind of resource, whose answers are not read.
pub record ResourceClient (S A : Type 0) : Type 0 where
  pub apply : A → Exec S (Unit {0})
  pub delete : String → Exec S (Unit {0})

abbrev pub secret_type_immutable : String
secret_type_immutable = "Invalid value: \"\\S+\": field is immutable"

abbrev pub secret_configuration :
    String → String → Option OwnerReference → Labels → List (String × String) → String → SecretApply
secret_configuration namespace name owner labels values type = record {
  name = name;
  namespace = namespace;
  labels = labels;
  owner_references = owners owner;
  values = values;
  type = type;
}

-- An error that refuses a change of the type of a Secret.
unfoldable pub refused_type : ApiErrors → Error → Bool
unfolding all_causes
refused_type errors = all_causes errors (λ (cause : Cause).
    cause.type == "FieldValueInvalid"
    && cause.field == "type"
    && errors.match_string secret_type_immutable cause.message)

module _ (errors : ApiErrors) {S : Type 0} where
  unfoldable pub reconcile_pod_disruption_budget :
      BudgetClient S
      → String
      → String
      → Option OwnerReference
      → Labels
      → PodDisruptionBudgetMode
      → Exec S (Unit {0})
  unfolding pod_disruption_budget
  reconcile_pod_disruption_budget client namespace name owner labels mode =
      if mode.value == 0
      then delete_if_found errors
          ("failed to delete pod disruption budget " <> slashed namespace name) (client.delete name)
      else wrapping ("failed to apply pod disruption budget " <> slashed namespace name)
          (client.apply (pod_disruption_budget namespace name owner labels mode))

  unfoldable pub reconcile_service :
      (ServiceApply → Exec S Service)
      → String
      → String
      → Option OwnerReference
      → Labels
      → ServiceType
      → Option String
      → Bool
      → List ServicePort
      → Exec S (Service × Bool)
  unfolding is_service_ready
  reconcile_service apply namespace name owner labels type service_ip headless ports =
      if headless && is_some service_ip
      then fail (wrap (slashed namespace name) both_cluster_ip_and_headless)
      else do
        service ← wrapping ("failed to apply service " <> slashed namespace name) (
            apply (record {
              name = name;
              namespace = namespace;
              labels = labels;
              owner_references = owners owner;
              type = type;
              selector = labels;
              ports = ports;
              cluster_ip = if headless then some "None" else service_ip;
              publish_not_ready_addresses = if headless then some true else none;
            }))
        pure (service, is_service_ready type service)

  -- What follows `Delete`, where `again` is the call of `reconcileSecret` behind it.
  unfoldable pub after_deletion :
      SecretApply
      → (S → Option (Result (Unit {0}) × S))
      → Result (Unit {0}) × S
      → Option (Result (Unit {0}) × S)
  after_deletion secret again (ok _, s) = again s
  after_deletion secret again (err e, s) =
      some (err (wrap ("failed to delete existing secret " <> secret.name) e), s)

  -- What follows `Apply`: where the type is refused, the Secret is deleted.
  unfoldable pub after_apply :
      ResourceClient S SecretApply
      → SecretApply
      → (S → Option (Result (Unit {0}) × S))
      → Result (Unit {0}) × S
      → Option (Result (Unit {0}) × S)
  unfolding refused_type after_deletion
  after_apply client secret again (ok _, s) = some (ok tt, s)
  after_apply client secret again (err e, s) =
      if refused_type errors e
      then after_deletion secret again (client.delete secret.name s)
      else some
          (err (wrap ("failed to apply secret " <> slashed secret.namespace secret.name) e), s)

  -- The recursion of `reconcileSecret`, as far as so many of its calls go: `none` says that they
  -- have not yet returned.
  unfoldable pub secret_rounds :
      ℕ → ResourceClient S SecretApply → SecretApply → S → Option (Result (Unit {0}) × S)
  unfolding after_apply
  secret_rounds zero client secret s = none
  secret_rounds (suc rounds) client secret s =
      after_apply client secret (secret_rounds rounds client secret) (client.apply secret s)

  unfoldable pub reconcile_secret :
      ℕ
      → ResourceClient S SecretApply
      → String
      → String
      → Bool
      → Option OwnerReference
      → Labels
      → List (String × String)
      → String
      → S
      → Option (Result (Unit {0}) × S)
  unfolding secret_rounds
  reconcile_secret rounds client namespace name delete_resource owner labels values type s =
      if delete_resource
      then some (
          delete_if_found errors ("failed to delete secret " <> slashed namespace name)
            (client.delete name) s)
      else secret_rounds rounds client
          (secret_configuration namespace name owner labels values type) s

  unfoldable pub reconcile_configmap :
      ResourceClient S ConfigMapApply
      → String
      → String
      → Bool
      → Option OwnerReference
      → Labels
      → List (String × String)
      → Exec S (Unit {0})
  reconcile_configmap client namespace name delete_resource owner labels values =
      if delete_resource
      then delete_if_found errors ("failed to delete configmap " <> slashed namespace name)
          (client.delete name)
      else wrapping ("failed to apply configmap " <> slashed namespace name) (
          client.apply (record {
            name = name;
            namespace = namespace;
            labels = labels;
            owner_references = owners owner;
            values = values;
          }))
