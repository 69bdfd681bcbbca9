-- ===== src/Certificates/Authorities.antt =====
-- The certificate authorities: `caDefinitions`, `reconcileCA`, `ReconcileCACertificates` and
-- `ReconcileCertificates`.
pub mod Laws
use cluster_api_provider_hos.Prelude.{
  ℕ, ◌-◌, ◌<◌, String, Bool, true, false, not, List, [], ◌∷◌, map, arith, ◌==◌, string_eq, nat_eq,
  Eq, option_eq, if◌then◌else◌, ◌<>◌, join_with,
}
use cluster_api_provider_hos.Prelude.Exec.{Exec, pure, wrapping, ◌>>=◌, ◌>>◌}
use cluster_api_provider_hos.Prelude.Int.{ℤ}
use cluster_api_provider_hos.Api.{Cluster, HostedControlPlane}
use cluster_api_provider_hos.Names
use cluster_api_provider_hos.Objects.{Identity}
use cluster_api_provider_hos.Certificates.{
  CertificateReconciler, NamedSpec, Certificate, Clients, is_ready, create_certificate_spec,
  certificate_kind_label, create_issuer, reconcile_certificate,
}
use cluster_api_provider_hos.Certificates.Specs.{create_certificate_specs}
use cluster_api_provider_hos.Certificates.Orphans.{cleanup_orphaned_certificates}

pub record CaDefinition : Type 0 where
  pub kind : String
  pub common_name : String
  pub certificate_name : Cluster → String
  pub secret_name : Cluster → String
  pub bundle_secret_name : Cluster → String
  pub issuer_name : Cluster → String
  pub parent_issuer_name : Cluster → String
  pub duration : CertificateReconciler → ℤ

unfoldable pub ca_definitions : List CaDefinition
ca_definitions =
    record {
      kind = "kubernetes CA";
      common_name = "kubernetes";
      certificate_name = Names.get_ca_certificate_name;
      secret_name = Names.get_ca_secret_name;
      bundle_secret_name = Names.get_ca_bundle_secret_name;
      issuer_name = Names.get_ca_issuer_name;
      parent_issuer_name = Names.get_root_issuer_name;
      duration = λ cr. cr.root_ca_certificate_duration;
    }
    ∷ record {
      kind = "etcd CA";
      common_name = "etcd-ca";
      certificate_name = Names.get_etcd_ca_name;
      secret_name = Names.get_etcd_ca_secret_name;
      bundle_secret_name = Names.get_etcd_ca_bundle_secret_name;
      issuer_name = Names.get_etcd_ca_name;
      parent_issuer_name = Names.get_ca_issuer_name;
      duration = λ cr. cr.ca_certificate_duration;
    }
    ∷ record {
      kind = "front-proxy CA";
      common_name = "front-proxy-ca";
      certificate_name = Names.get_front_proxy_ca_name;
      secret_name = Names.get_front_proxy_ca_secret_name;
      bundle_secret_name = Names.get_front_proxy_ca_bundle_secret_name;
      issuer_name = Names.get_front_proxy_ca_name;
      parent_issuer_name = Names.get_ca_issuer_name;
      duration = λ cr. cr.ca_certificate_duration;
    }
    ∷ []

abbrev pub noted : String → List String → List String
noted reason reasons = if reason == "" then reasons else reason ∷ reasons

-- A loop that stops at an error, and gathers the reasons that are not empty.
unfoldable pub gather : {S A : Type 0} → (A → Exec S String) → List A → Exec S (List String)
gather step [] = pure []
gather step (x ∷ xs) = do reason ← step x; reasons ← gather step xs; pure (noted reason reasons)

module _ {Q : Type 0} {S : Type 0} (clients : Clients S) (cr : CertificateReconciler)
    (id : Identity) (hcp : HostedControlPlane Q) (cluster : Cluster) where
  unfoldable pub ca_spec : CaDefinition → NamedSpec
  ca_spec def = record {
    kind = def.kind;
    spec =
        record (create_certificate_spec cr (def.parent_issuer_name cluster) def.common_name
          (def.secret_name cluster) true []) { duration = def.duration cr };
    custom_labels = (certificate_kind_label, "ca") ∷ [];
  }

  unfoldable pub reconcile_ca_issuer : CaDefinition → Certificate → Exec S String
  reconcile_ca_issuer def certificate = do
    issuer ← wrapping ("failed to patch " <> def.kind <> " issuer") (
        clients.apply_issuer
          (create_issuer id hcp cluster (def.issuer_name cluster) certificate.secret_name))
    pure (if is_ready issuer then "" else def.kind <> " issuer not ready")

  unfoldable pub after_certificate : CaDefinition → Certificate × Bool → Exec S String
  unfolding reconcile_ca_issuer
  after_certificate def (certificate, false) = pure (def.kind <> " certificate not ready")
  after_certificate def (certificate, true) = reconcile_ca_issuer def certificate

  unfoldable pub reconcile_ca : CaDefinition → Exec S String
  unfolding ca_spec after_certificate
  reconcile_ca def = do
    certificate ←
        wrapping ("failed to reconcile " <> def.kind <> " certificate") (
          reconcile_certificate id hcp cluster clients (def.certificate_name cluster) (ca_spec def))
    after_certificate def certificate

  unfoldable pub reconcile_authorities : Exec S String
  unfolding reconcile_ca gather ca_definitions
  reconcile_authorities = do
    reasons ← gather reconcile_ca ca_definitions
    pure (join_with "," reasons)

  unfoldable pub reconcile_ca_certificates : Exec S String
  unfolding reconcile_authorities
  reconcile_ca_certificates = do
    root_issuer ← wrapping "failed to patch self-signed issuer" (
        clients.apply_issuer (create_issuer id hcp cluster (Names.get_root_issuer_name cluster) ""))
    if is_ready root_issuer then reconcile_authorities else pure "root issuer not ready"

  unfoldable pub reconcile_leaf : String × NamedSpec → Exec S String
  reconcile_leaf (name, certificate) = do
    stored ←
        wrapping ("failed to reconcile certificate " <> certificate.kind)
          (reconcile_certificate id hcp cluster clients name certificate)
    pure (if stored.1 then "" else "certificate " <> certificate.kind <> " not ready")

  unfoldable pub reconcile_certificates : Exec S String
  unfolding reconcile_leaf gather create_certificate_specs cleanup_orphaned_certificates
  reconcile_certificates = do
    let specs = create_certificate_specs cr hcp cluster
    reasons ← gather reconcile_leaf specs
    wrapping "failed to cleanup orphaned certificates" (
        cleanup_orphaned_certificates clients cluster (map (λ (e : String × NamedSpec). e.0) specs))
    pure (join_with "," reasons)
