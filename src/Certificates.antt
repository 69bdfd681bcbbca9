-- ===== src/Certificates.antt =====
-- pkg/reconcilers/certificates/reconciler.go: the certificate authorities of a control plane and
-- the certificates that they issue. A duration is a number of nanoseconds.
pub mod Specs
pub mod Authorities
pub mod Bundles
pub mod Orphans
use cluster_api_provider_hos.Prelude.{
  ℕ, ◌+◌, ◌-◌, ◌/◌, ◌<◌, String, Bool, ◌&&◌, Option, none, some, List, [], ◌∷◌, ◌++◌, arith, ◌==◌,
  string_eq, nat_eq, Eq, option_eq, if◌then◌else◌, ◌<>◌, some_by,
}
use cluster_api_provider_hos.Prelude.Exec.{Exec, pure, wrapping, ◌>>=◌, ◌>>◌}
use cluster_api_provider_hos.Prelude.Int.{ℤ}
use cluster_api_provider_hos.Prelude.Sorting.{assign}
use cluster_api_provider_hos.Api.{Cluster, HostedControlPlane}
use cluster_api_provider_hos.Names.{get_control_plane_labels}
use cluster_api_provider_hos.Objects.{
  Labels, OwnerReference, Identity, get_owner_reference_apply_configuration,
}
use cluster_api_provider_hos.Reconcilers.{ApiErrors}
use cluster_api_provider_hos.Reconcilers.Resources.{SecretApply}

-- `certificateReconciler`, without its clients.
pub record CertificateReconciler : Type 0 where
  pub kubernetes_service_ip : String
  pub root_ca_certificate_duration : ℤ
  pub ca_certificate_duration : ℤ
  pub certificate_duration : ℤ
  pub certificate_renew_before : ℕ
  pub konnectivity_server_audience : String

-- `CertificateSpecApplyConfiguration`.
pub record CertificateSpec : Type 0 where
  pub secret_name : String
  pub issuer_kind : String
  pub issuer_name : String
  pub usages : List String
  pub is_ca : Bool
  pub common_name : String
  pub duration : ℤ
  pub renew_before_percentage : ℕ
  pub rotation_policy : Option String  -- of the private key
  pub dns_names : List String
  pub ip_addresses : List String
  pub organizations : List String
  pub revision_history_limit : Option ℕ
  pub secret_labels : Option Labels

-- `certificateSpec`.
pub record NamedSpec : Type 0 where
  pub kind : String
  pub spec : CertificateSpec
  pub custom_labels : Labels

pub record CertificateApply : Type 0 where
  pub name : String
  pub namespace : String
  pub labels : Labels
  pub owner_references : List OwnerReference
  pub spec : CertificateSpec

-- An issuer of the CA in a Secret, or a self-signed one.
pub record IssuerApply : Type 0 where
  pub name : String
  pub namespace : String
  pub labels : Labels
  pub owner_references : List OwnerReference
  pub ca_secret : Option String

-- A condition: its type and its status.
abbrev pub Condition : Type 0
Condition = String × String

-- A stored certificate, as far as it is read.
pub record Certificate : Type 0 where
  pub secret_name : String
  pub conditions : List Condition

-- The clients of the namespace. A stored issuer is its conditions, and a listed certificate its name.
pub record Clients (S : Type 0) : Type 0 where
  pub errors : ApiErrors
  pub apply_issuer : IssuerApply → Exec S (List Condition)
  pub apply_certificate : CertificateApply → Exec S Certificate
  pub list_certificates : Labels → Exec S (List String)
  pub delete_certificate : String → Exec S (Unit {0})
  pub get_secret : String → Exec S (List (String × String))
  pub apply_secret : SecretApply → Exec S (Unit {0})

-- `isCertificateReady` and `isIssuerReady`.
unfoldable pub is_ready : List Condition → Bool
is_ready = some_by (λ (c : Condition). c.0 == "Ready" && c.1 == "True")

abbrev pub certificate_kind_label : String
certificate_kind_label = "controlplane.cluster.x-k8s.io/certificate-kind"

abbrev pub stable_private_key : String
stable_private_key = "Never"

unfoldable pub create_certificate_spec :
    CertificateReconciler → String → String → String → Bool → List String → CertificateSpec
create_certificate_spec cr ca_issuer_name common_name secret_name is_ca additional_usages =
    let usages = ("key encipherment" ∷ "digital signature" ∷ []) ++ additional_usages in
    record {
      secret_name = secret_name;
      issuer_kind = "Issuer";
      issuer_name = ca_issuer_name;
      usages = if is_ca then usages ++ ("cert sign" ∷ []) else usages;
      is_ca = is_ca;
      common_name = common_name;
      duration = if is_ca then cr.ca_certificate_duration else cr.certificate_duration;
      renew_before_percentage = cr.certificate_renew_before;
      rotation_policy = if is_ca then some stable_private_key else none;
      dns_names = [];
      ip_addresses = [];
      organizations = [];
      revision_history_limit = none;
      secret_labels = none;
    }

module _ {Q : Type 0} (id : Identity) (hcp : HostedControlPlane Q) (cluster : Cluster) where
  unfoldable pub create_issuer : String → String → IssuerApply
  create_issuer name issuer_secret_name = record {
    name = name;
    namespace = hcp.namespace;
    labels = get_control_plane_labels cluster "";
    owner_references = get_owner_reference_apply_configuration id hcp ∷ [];
    ca_secret = if issuer_secret_name == "" then none else some issuer_secret_name;
  }

  unfoldable pub certificate_configuration : String → NamedSpec → CertificateApply
  certificate_configuration name certificate =
      let labels = assign certificate.custom_labels (get_control_plane_labels cluster "") in
      record {
        name = name;
        namespace = hcp.namespace;
        labels = labels;
        owner_references = get_owner_reference_apply_configuration id hcp ∷ [];
        spec = record certificate.spec {
          revision_history_limit = some 1;
          secret_labels = some labels;
        };
      }

  unfoldable pub reconcile_certificate :
      {S : Type 0} → Clients S → String → NamedSpec → Exec S (Certificate × Bool)
  unfolding certificate_configuration is_ready
  reconcile_certificate clients name certificate = do
    stored ←
        wrapping ("failed to patch certificate " <> name)
          (clients.apply_certificate (certificate_configuration name certificate))
    pure (stored, is_ready stored.conditions)
