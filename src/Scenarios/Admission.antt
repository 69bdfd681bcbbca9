-- ===== src/Scenarios/Admission.antt =====
-- The webhook, the arguments, the names and the images at concrete inputs.
use cluster_api_provider_hos.Prelude.{
  ℕ, String, ◌≡◌, refl, ◌↔◌, inl, inr, true, none, some, List, [], ◌∷◌, ◌==◌, string_eq, nat_eq,
  option_eq, if◌then◌else◌, ltb, Bool-cases, is_some, decimal,
}
use cluster_api_provider_hos.Prelude.Int.{ℤ}
use cluster_api_provider_hos.Prelude.Sorting.{lookup}
use cluster_api_provider_hos.Quantity.{whole_quantities}
use cluster_api_provider_hos.Api.{
  HostedControlPlane, Cluster, auto_grow_enabled, root_ca_certificate_duration_or_default,
  ca_certificate_duration_or_default,
}
use cluster_api_provider_hos.Etcd.Space.{get_etcd_volume_size}
use cluster_api_provider_hos.Webhook.{
  Versions, validate_create, validate_update, validate_changes, version_errors, growth_errors,
  oidc_errors, certificate_errors, downgrade_errors, shrink_errors, first_errors, has_size,
  is_less_than, when,
}
use cluster_api_provider_hos.Webhook.Laws.{
  Admissible, validate_create-Admissible, validate_create-get_etcd_volume_size,
}
use cluster_api_provider_hos.Webhook.Update.{Kept, validate_update-Kept}
use cluster_api_provider_hos.Args.{args_to_slice}
use cluster_api_provider_hos.Args.Laws.{args_to_slice-order}
use cluster_api_provider_hos.Names.{
  get_ca_secret_name, get_etcd_ca_secret_name, get_ca_bundle_secret_name,
  get_etcd_ca_bundle_secret_name,
}
use cluster_api_provider_hos.Names.Laws.{get_ca_secret_name-collision}
use cluster_api_provider_hos.Scenarios.{resource, owner, storage, fixed_etcd}

abbrev versions : Versions
versions = record {
  Version = ℕ;
  parse_tolerant = λ t. some (if t == "1.34.0" then 34 else 35);
  compare_less = ltb;
  to_text = λ n. decimal n;
}

validate_create-Admissible_example :
    (validate_create whole_quantities versions resource ≡ [])
    ↔ Admissible whole_quantities versions resource
validate_create-Admissible_example = validate_create-Admissible whole_quantities versions resource

resource_admitted : validate_create whole_quantities versions resource ≡ []
unfolding validate_create version_errors growth_errors oidc_errors certificate_errors has_size when
    auto_grow_enabled root_ca_certificate_duration_or_default ca_certificate_duration_or_default
resource_admitted = refl

validate_create-get_etcd_volume_size_example :
    is_some (get_etcd_volume_size whole_quantities storage resource.spec.etcd resource.status)
    ≡ true
validate_create-get_etcd_volume_size_example =
    validate_create-get_etcd_volume_size whole_quantities versions storage resource
      resource_admitted resource.status

abbrev upgraded : HostedControlPlane ℤ
upgraded = record resource { spec = record resource.spec { version = "1.35.0"; etcd = fixed_etcd } }

upgrade_admitted : validate_update whole_quantities versions resource upgraded ≡ []
unfolding validate_update validate_changes validate_create version_errors growth_errors oidc_errors
    certificate_errors downgrade_errors shrink_errors first_errors has_size is_less_than when
    auto_grow_enabled root_ca_certificate_duration_or_default ca_certificate_duration_or_default
upgrade_admitted = refl

resource-Admissible : Admissible whole_quantities versions resource
resource-Admissible =
    (validate_create-Admissible whole_quantities versions resource).0 resource_admitted

validate_update-Kept_example : Kept whole_quantities versions resource upgraded
validate_update-Kept_example =
    validate_update-Kept whole_quantities versions resource upgraded resource-Admissible
      upgrade_admitted

abbrev user : List (String × String)
user = ("b", "user") ∷ ("a", "user") ∷ []

abbrev user_reversed : List (String × String)
user_reversed = ("a", "user") ∷ ("b", "user") ∷ []

abbrev fixed : List (String × String)
fixed = ("b", "controller") ∷ []

same_map : (key : String) → lookup key user ≡ lookup key user_reversed
unfolding lookup
same_map key = elim (Bool-cases ("a" == key)) [
  | inl e ↦ elim (Bool-cases ("b" == key)) [ inl f ↦ rw e (rw f refl) | inr f ↦ rw e (rw f refl) ]
  | inr e ↦ elim (Bool-cases ("b" == key)) [ inl f ↦ rw e (rw f refl) | inr f ↦ rw e (rw f refl) ]
]

args_to_slice-order_example :
    args_to_slice user fixed (record { prefix = none; delimiter = none })
    ≡ args_to_slice user_reversed fixed (record { prefix = none; delimiter = none })
unfolding lookup
args_to_slice-order_example =
    args_to_slice-order user user_reversed fixed fixed (record { prefix = none; delimiter = none })
      (refl, (refl, tt)) (refl, (refl, tt)) (refl, tt) (refl, tt) same_map (λ key. refl)

abbrev owner_etcd : Cluster
owner_etcd = record owner { name = "demo-etcd" }

get_ca_secret_name-collision_example :
    (get_ca_secret_name owner_etcd ≡ get_etcd_ca_secret_name owner)
    × (get_ca_bundle_secret_name owner_etcd ≡ get_etcd_ca_bundle_secret_name owner)
get_ca_secret_name-collision_example = get_ca_secret_name-collision owner owner_etcd refl
