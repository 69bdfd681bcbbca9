-- ===== src/Scenarios/Certs.antt =====
-- Certificates, their bundles, and the rotation behind a new authority, at concrete answers.
use cluster_api_provider_hos.Prelude.{
  ℕ, suc, String, ◌≡◌, refl, inl, inr, Bool, true, false, not, ◌&&◌, Option, ap, if◌then◌else◌,
  none, some, List, [], ◌∷◌, map, ◌==◌, string_eq, nat_eq, option_eq, Bool-cases, some_by, All,
  join_with, decimal,
}
use cluster_api_provider_hos.Prelude.Exec.{Result, ok, err, new, ◌>>=◌}
use cluster_api_provider_hos.Prelude.Distinct.{NoDuplicates}
use cluster_api_provider_hos.Prelude.Int.{pos}
use cluster_api_provider_hos.Scenarios.{owner, resource}
use cluster_api_provider_hos.Objects.{Identity}
use cluster_api_provider_hos.Certificates.{
  CertificateReconciler, Certificate, Condition, Clients, NamedSpec, create_issuer, is_ready,
  reconcile_certificate,
}
use cluster_api_provider_hos.Certificates.Specs.{create_certificate_specs}
use cluster_api_provider_hos.Certificates.Specs.Laws.{Leaf, create_certificate_specs-Leaf}
use cluster_api_provider_hos.Certificates.Authorities.{ca_definitions, reconcile_ca_certificates}
use cluster_api_provider_hos.Certificates.Authorities.Laws.{
  Established, reconcile_ca_certificates-Established,
}
use cluster_api_provider_hos.Certificates.Bundles.{Data, bundle_data}
use cluster_api_provider_hos.Prelude.Sorting.{lookup}
use cluster_api_provider_hos.Certificates.Bundles.Laws.{
  SecretStore, bundle_of, certificates, with_reading, previous, reason, reconciled,
  reconcile_ca_bundle-history,
}
use cluster_api_provider_hos.Certificates.Orphans.{is_desired, cleanup_orphaned_certificates}
use cluster_api_provider_hos.Certificates.Orphans.Laws.{Keeps, cleanup_orphaned_certificates-Keeps}
use cluster_api_provider_hos.Rotation.{Machines, MachineDeployment, reconcile_ca_rotation}
use cluster_api_provider_hos.Rotation.Laws.{Reached, reconcile_ca_rotation-Reached}
use cluster_api_provider_hos.Names

abbrev reconciler : CertificateReconciler
reconciler = record {
  kubernetes_service_ip = "10.0.0.1";
  root_ca_certificate_duration = pos 100;
  ca_certificate_duration = pos 50;
  certificate_duration = pos 10;
  certificate_renew_before = 66;
  konnectivity_server_audience = "konnectivity";
}

abbrev identity : Identity
identity = record { api_version = "v1alpha1"; kind = "HostedControlPlane"; uid = "u" }

abbrev ready : List Condition
ready = ("Ready", "True") ∷ []

abbrev issued : Certificate
issued = record { secret_name = "demo-ca"; conditions = ready }

-- The state says whether the certificate that is wanted is there.
abbrev clients : Clients Bool
clients = record {
  errors = record {
    is_not_found = λ e. true;
    invalid_causes = λ e. none;
    match_string = λ pattern text. false;
  };
  apply_issuer = λ issuer s. (ok ready, s);
  apply_certificate = λ certificate s. (ok issued, s);
  list_certificates = λ labels s. (ok ("kept" ∷ "orphan" ∷ []), s);
  delete_certificate = λ name s. (ok tt, s && not ("kept" == name));
  get_secret = λ name s. (ok [], s);
  apply_secret = λ secret s. (ok tt, s);
}

create_certificate_specs-Leaf_example :
    NoDuplicates
      (map (λ (e : String × NamedSpec). e.0) (create_certificate_specs reconciler resource owner))
    × All (Leaf reconciler resource owner) (create_certificate_specs reconciler resource owner)
create_certificate_specs-Leaf_example = create_certificate_specs-Leaf reconciler resource owner

established :
    reconcile_ca_certificates clients reconciler identity resource owner true ≡ (ok "", true)
unfolding reconcile_ca_certificates ◌>>=◌ is_ready some_by reconcile_certificate join_with
established = refl

reconcile_ca_certificates-Established_example :
    ((root : List Condition) × (u v : Bool) × (clients.apply_issuer
          (create_issuer identity resource owner (Names.get_root_issuer_name owner) "")
          u
        ≡ (ok root, v))
      × (is_ready root ≡ true))
    × All (Established clients reconciler identity resource owner) ca_definitions
reconcile_ca_certificates-Established_example =
    reconcile_ca_certificates-Established clients reconciler identity resource owner true true
      established

-- The Secrets of a namespace by their names.
abbrev Secrets : Type 0
Secrets = String → Option Data

abbrev get : Option Data → Secrets → Result Data × Secrets
get (some values) s = (ok values, s)
get none s = (err (new "not found"), s)

abbrev put : String → Option Data → Secrets → Secrets
put name values s m = if name == m then values else s m

abbrev secret_clients : Clients Secrets
secret_clients = record {
  errors = clients.errors;
  apply_issuer = λ issuer s. (ok ready, s);
  apply_certificate = λ certificate s. (ok issued, s);
  list_certificates = λ labels s. (ok [], s);
  delete_certificate = λ name s. (ok tt, s);
  get_secret = λ name s. get (s name) s;
  apply_secret = λ secret s. (ok tt, put secret.name (some secret.values) s);
}

abbrev store : SecretStore secret_clients
store = record {
  secrets = λ s. s;
  found = λ name s values h. (s, ap (λ r. get r s) h, λ m. refl);
  missing = λ name s h. (new "not found", s, ap (λ r. get r s) h, refl, λ m. refl);
  applied = λ secret s. (put secret.name (some secret.values) s, refl, λ m. refl);
  issue = put;
  issued = λ name values s m. refl;
}

-- The last reading stands first: no Secret, one without a certificate, two certificates.
abbrev earlier : List (Option Data)
earlier = some (("ca.crt", "old") ∷ []) ∷ some [] ∷ none ∷ []

abbrev newest : Option Data
newest = some (("ca.crt", "new") ∷ [])

abbrev nothing : Secrets
nothing m = none

reconcile_ca_bundle-history_example :
    (t : Secrets) × (reconciled secret_clients store identity resource owner "ca" "bundle"
        (newest ∷ earlier)
        nothing
      ≡ (ok (reason newest), t))
    × (t "bundle" ≡ bundle_of (certificates (newest ∷ earlier)))
    × ((m : String) → ("bundle" == m) ≡ false → ("ca" == m) ≡ false → t m ≡ none)
reconcile_ca_bundle-history_example =
    reconcile_ca_bundle-history secret_clients store identity resource owner "ca" "bundle" newest
      earlier nothing refl refl

-- What the bundle is then: the two certificates, and both trusted.
bundle_trusts_both :
    bundle_of (certificates (newest ∷ earlier))
    ≡ some (("current.crt", "new") ∷ ("old.crt", "old") ∷ ("ca.crt", "oldnew") ∷ [])
unfolding certificates with_reading lookup previous bundle_data
bundle_trusts_both = refl

abbrev IsKept : Bool → Type 0
IsKept s = s ≡ true

harmless :
    (name : String)
    → is_desired ("kept" ∷ []) name ≡ false
    → Keeps IsKept (clients.delete_certificate name)
unfolding some_by
harmless name other s kept = elim (Bool-cases ("kept" == name)) [
  | inl same ↦ absurd (cc (rw same at other))
  | inr differ ↦ rw kept (rw differ refl)
]

cleanup_orphaned_certificates-Keeps_example :
    Keeps IsKept (cleanup_orphaned_certificates clients owner ("kept" ∷ []))
cleanup_orphaned_certificates-Keeps_example =
    cleanup_orphaned_certificates-Keeps clients IsKept owner ("kept" ∷ []) (λ labels s kept. kept)
      harmless

abbrev workers : MachineDeployment
workers = record { name = "workers"; namespace = "team"; rollout_after = 3 }

abbrev machines : Machines ℕ
machines = record {
  is_not_found = λ e. true;
  get_not_before = λ name calls. (ok (some 9), suc calls);
  list_deployments = λ cluster calls. (ok (workers ∷ []), suc calls);
  patch_deployment = λ deployment calls. (ok tt, suc calls);
  list_pools = λ cluster calls. (ok [], suc calls);
  patch_pool = λ pool calls. (ok tt, suc calls);
  format = decimal;
}

rotated : reconcile_ca_rotation machines owner 0 ≡ (ok tt, 4)
unfolding reconcile_ca_rotation ◌>>=◌
rotated = refl

reconcile_ca_rotation-Reached_example :
    (not_before u v : ℕ) × (machines.get_not_before (Names.get_ca_certificate_name owner) 0
      ≡ (ok (some not_before), u))
    × Reached machines owner not_before u v
reconcile_ca_rotation-Reached_example = reconcile_ca_rotation-Reached machines owner 0 4 rotated
