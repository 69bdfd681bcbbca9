-- ===== src/Certificates/Bundles.antt =====
-- `ReconcileCABundles` and `reconcileCABundle`: the Secret that has, beside the current certificate of
-- an authority, the one before it.
pub mod Laws
use cluster_api_provider_hos.Prelude.{
  ℕ, ◌<◌, String, not, Option, none, some, List, [], ◌∷◌, arith, ◌==◌, string_eq, nat_eq, Eq,
  option_eq, if◌then◌else◌, ◌<>◌, deref, join_with,
}
use cluster_api_provider_hos.Prelude.Exec.{
  wrap, Result, ok, err, Exec, pure, fail, wrapping, ◌>>=◌, ◌>>◌,
}
use cluster_api_provider_hos.Prelude.Exec.{attempt}
use cluster_api_provider_hos.Prelude.Sorting.{lookup}
use cluster_api_provider_hos.Api.{Cluster, HostedControlPlane}
use cluster_api_provider_hos.Names.{get_control_plane_labels}
use cluster_api_provider_hos.Objects.{Identity, get_owner_reference_apply_configuration}
use cluster_api_provider_hos.Certificates.{Clients, SecretApply}
use cluster_api_provider_hos.Certificates.Authorities.{CaDefinition, ca_definitions, gather}

abbrev pub Data : Type 0
Data = List (String × String)

abbrev pub ca_bundle_current_cert_key : String
ca_bundle_current_cert_key = "current.crt"

abbrev pub ca_bundle_old_cert_key : String
ca_bundle_old_cert_key = "old.crt"

-- `konstants.CACertName`.
abbrev pub ca_cert_name : String
ca_cert_name = "ca.crt"

-- The value of a key of a map from texts to bytes, which is empty for a key that is not there.
abbrev pub value_of : String → Data → String
value_of key values = deref (lookup key values) ""

unfoldable pub bundle_data : String → String → Data
bundle_data current old =
    (ca_bundle_current_cert_key, current)
    ∷ (ca_bundle_old_cert_key, old)
    ∷ (ca_cert_name, old <> current)
    ∷ []

-- What is written for the current certificate, beside the stored bundle: nothing where the
-- certificate has not changed.
unfoldable pub next_bundle : String → Option Data → Option Data
unfolding bundle_data
next_bundle current none = some (bundle_data current "")
next_bundle current (some bundle) =
    let bundle_current = value_of ca_bundle_current_cert_key bundle in
    if bundle_current == current then none else some (bundle_data current bundle_current)

module _ {Q : Type 0} {S : Type 0} (clients : Clients S) (id : Identity)
    (hcp : HostedControlPlane Q) (cluster : Cluster) where
  abbrev pub bundle_secret : String → Data → SecretApply
  bundle_secret name values = record {
    name = name;
    namespace = hcp.namespace;
    labels = get_control_plane_labels cluster "";
    owner_references = get_owner_reference_apply_configuration id hcp ∷ [];
    values = values;
    type = "";
  }

  unfoldable pub write_bundle : String → Option Data → Exec S String
  write_bundle name none = pure ""
  write_bundle name (some values) = do
    wrapping "failed to apply CA bundle secret" (clients.apply_secret (bundle_secret name values))
    pure ""

  unfoldable pub with_bundle : String → String → Result Data → Exec S String
  unfolding write_bundle next_bundle
  with_bundle name current (ok bundle) = write_bundle name (next_bundle current (some bundle))
  with_bundle name current (err e) =
      if clients.errors.is_not_found e
      then write_bundle name (next_bundle current none)
      else fail (wrap "failed to get CA bundle secret" e)

  unfoldable pub with_ca_secret : String → Result Data → Exec S String
  unfolding with_bundle
  with_ca_secret name (err e) =
      if clients.errors.is_not_found e
      then pure "CA secret not yet available"
      else fail (wrap "failed to get CA secret" e)
  with_ca_secret name (ok secret) =
      let current = value_of ca_cert_name secret in
      if current == ""
      then pure "CA secret not yet populated"
      else attempt (clients.get_secret name) >>= with_bundle name current

  unfoldable pub reconcile_ca_bundle : String → String → Exec S String
  unfolding with_ca_secret
  reconcile_ca_bundle ca_secret_name ca_bundle_secret_name = do
    secret ← attempt (clients.get_secret ca_secret_name)
    with_ca_secret ca_bundle_secret_name secret

  unfoldable pub reconcile_ca_bundles : Exec S String
  unfolding reconcile_ca_bundle gather ca_definitions
  reconcile_ca_bundles = do
    reasons ←
        gather
          (λ (def : CaDefinition).
            wrapping ("failed to reconcile " <> def.kind <> " bundle")
              (reconcile_ca_bundle (def.secret_name cluster) (def.bundle_secret_name cluster)))
          ca_definitions
    pure (join_with "," reasons)
