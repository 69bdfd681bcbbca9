-- ===== src/Webhook.antt =====
-- api/v1alpha1/webhook/hostedcontrolplane_webhook.go: the admission of a resource. The parser of
-- versions and their order are those of the semver libraries, given as parameters.
pub mod Laws
pub mod Update
use cluster_api_provider_hos.Prelude.{
  ℕ, ◌+◌, ◌/◌, ◌<◌, String, Bool, true, false, not, ◌&&◌, Option, none, some, List, [], ◌∷◌, ◌++◌,
  arith, ◌==◌, string_eq, nat_eq, Eq, option_eq, if◌then◌else◌, ◌<>◌,
}
use cluster_api_provider_hos.Prelude.Int.{ltb_ℤ}
use cluster_api_provider_hos.Quantity.{Quantities}
use cluster_api_provider_hos.Api.{
  HostedControlPlane, EtcdComponent, CertificatesSpec, auto_grow_enabled,
  root_ca_certificate_duration_or_default, ca_certificate_duration_or_default,
}

-- `field.Error`: the field, and what is wrong with it.
pub record FieldError : Type 0 where
  pub path : String
  pub detail : String

-- `importcycle.LocalClusterOIDCEndpoint`.
abbrev pub local_cluster_oidc_endpoint : String
local_cluster_oidc_endpoint = "https://kubernetes.default.svc.cluster.local"

-- `semver.ParseTolerant`, `version.Compare` with build tags and `Version.String`.
pub record Versions : Type 1 where
  pub Version : Type 0
  pub parse_tolerant : String → Option Version
  pub compare_less : Version → Version → Bool  -- `version.Compare(a, b, WithBuildTags()) == -1`
  pub to_text : Version → String

-- The answer of the webhook: the errors of the fields; none means that the resource is admitted.
abbrev pub Admission : Type 0
Admission = List FieldError

unfoldable pub when : Bool → String → String → List FieldError
when test path detail = if test then record { path = path; detail = detail } ∷ [] else []

-- The first errors there are: each check of the update returns.
unfoldable pub first_errors : List FieldError → List FieldError → List FieldError
first_errors [] rest = rest
first_errors (e ∷ es) rest = e ∷ es

module _ (q : Quantities) (v : Versions) where
  open q use {Quantity, less, is_zero}
  open v use {Version, parse_tolerant, compare_less, to_text}

  -- `VolumeSize != nil && !VolumeSize.IsZero()`.
  unfoldable pub has_size : Option Quantity → Bool
  has_size none = false
  has_size (some size) = not (is_zero size)

  unfoldable pub version_errors : Option Version → List FieldError
  version_errors none =
      record { path = "spec.version"; detail = "version must be a valid semantic version" } ∷ []
  version_errors (some w) = []

  -- The two tests of `autoGrow` against `volumeSize`.
  unfoldable pub growth_errors : EtcdComponent Quantity → List FieldError
  growth_errors etcd =
      when (auto_grow_enabled etcd && has_size etcd.volume_size) "spec.etcd.autoGrow"
        "autoGrow cannot be true when volumeSize is set"
      ++ when (not (auto_grow_enabled etcd) && not (has_size etcd.volume_size)) "spec.etcd.autoGrow"
          "autoGrow cannot be false when volumeSize is not set"

  -- `for issuerURL := range OIDCProviders`.
  unfoldable pub oidc_errors : List String → List FieldError
  oidc_errors [] = []
  oidc_errors (url ∷ urls) =
      when (url == local_cluster_oidc_endpoint) ("spec.oidcProviders[" <> url <> "]")
        "issuer URL cannot be the management Kubernetes service account issuer"
      ++ oidc_errors urls

  unfoldable pub certificate_errors : CertificatesSpec → List FieldError
  certificate_errors certs =
      when
        (ltb_ℤ (root_ca_certificate_duration_or_default certs)
          (ca_certificate_duration_or_default certs))
        "spec.certificates.rootCaCertificateDuration"
        "rootCaCertificateDuration must be greater than or equal to caCertificateDuration"

  unfoldable pub validate_create : HostedControlPlane Quantity → Admission
  validate_create hcp =
      version_errors (parse_tolerant hcp.spec.version)
      ++ growth_errors hcp.spec.etcd
      ++ oidc_errors hcp.spec.oidc_providers
      ++ certificate_errors hcp.spec.certificates

  -- Without the two sizes in its text.
  abbrev pub shrunk : List FieldError
  shrunk = record { path = "spec.etcd.volumeSize"; detail = "volume size cannot be decreased" } ∷ []

  unfoldable pub is_less_than : Quantity → Option Quantity → Bool
  is_less_than size none = false
  is_less_than size (some old_size) = less size old_size

  -- A fixed new size against the size that automatic growth reached, or the old fixed size.
  unfoldable pub shrink_errors :
      HostedControlPlane Quantity → EtcdComponent Quantity → Option Quantity → List FieldError
  shrink_errors old etcd none = []
  shrink_errors old etcd (some size) =
      if auto_grow_enabled etcd
      then []
      else if auto_grow_enabled old.spec.etcd && less size old.status.etcd_volume_size
      then shrunk
      else if is_less_than size old.spec.etcd.volume_size
      then shrunk
      else []

  unfoldable pub downgrade_errors : Version → Option Version → List FieldError
  downgrade_errors old_version none = []
  downgrade_errors old_version (some new_version) =
      when (compare_less new_version old_version) "spec.version" (
        "version cannot be decreased from \""
        <> to_text old_version
        <> "\" to \""
        <> to_text new_version
        <> "\"")

  unfoldable pub validate_changes :
      HostedControlPlane Quantity → HostedControlPlane Quantity → Option Version → Admission
  validate_changes old new none = version_errors none
  validate_changes old new (some old_version) = first_errors (validate_create new) (
      first_errors (downgrade_errors old_version (parse_tolerant new.spec.version))
        (shrink_errors old new.spec.etcd new.spec.etcd.volume_size))

  unfoldable pub validate_update :
      HostedControlPlane Quantity → HostedControlPlane Quantity → Admission
  validate_update old new = validate_changes old new (parse_tolerant old.spec.version)

  unfoldable pub validate_delete : HostedControlPlane Quantity → Admission
  validate_delete hcp = []
