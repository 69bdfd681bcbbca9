-- ===== src/Controller/Mapping.antt =====
-- The functions of pkg/hostedcontrolplane/controller.go that map a changed object to the
-- resources to reconcile: `clusterToHostedControlPlane`, `secretToHostedControlPlane`,
-- `configMapToHostedControlPlane`, `resolveOwnerRefsToHostedControlPlanes`.
pub mod Laws
use cluster_api_provider_hos.Prelude.{
  ℕ, ◌-◌, ◌/◌, String, Bool, ◌&&◌, Option, none, some, List, [], ◌∷◌, map, arith, ◌==◌, string_eq,
  nat_eq, Eq, option_eq, if◌then◌else◌, is_empty, filter, some_by, find,
}
use mathlib.Core.List.{flatten}
use cluster_api_provider_hos.Api.{HostedControlPlane, Mount}

pub record Request : Type 0 where
  pub namespace : String
  pub name : String

pub record OwnerReference : Type 0 where
  pub kind : String
  pub api_version : String
  pub name : String

pub record ControlPlaneRef : Type 0 where
  pub is_defined : Bool
  pub kind : String
  pub name : String

-- The client of the management cluster: the owner references of a certificate, none if it cannot
-- be got, and the resources in a namespace, none if they cannot be listed.
pub record Reader (Q : Type 0) : Type 0 where
  pub certificate_owners : String → String → Option (List OwnerReference)
  pub list : String → Option (List (HostedControlPlane Q))

unfoldable pub cluster_to_hosted_control_plane : String → ControlPlaneRef → List Request
cluster_to_hosted_control_plane namespace ref =
    if ref.is_defined && ref.kind == "HostedControlPlane"
    then record { namespace = namespace; name = ref.name } ∷ []
    else []

unfoldable pub is_certificate_ref : OwnerReference → Bool
is_certificate_ref r = r.kind == "Certificate" && r.api_version == "cert-manager.io/v1"

unfoldable pub is_hosted_control_plane_ref : OwnerReference → Bool
is_hosted_control_plane_ref r =
    r.kind == "HostedControlPlane" && r.api_version == "controlplane.cluster.x-k8s.io/v1alpha1"

abbrev pub request_for : String → OwnerReference → Request
request_for namespace r = record { namespace = namespace; name = r.name }

-- `return []reconcile.Request{…}`, or on with the next resource.
abbrev pub mount_request : {Q : Type 0} → Option (HostedControlPlane Q) → List Request
mount_request none = []
mount_request (some h) = record { namespace = h.namespace; name = h.name } ∷ []

module _ {Q : Type 0} (reader : Reader Q) where
  unfoldable pub owner_requests : String → Option (List OwnerReference) → List Request
  owner_requests namespace none = []
  owner_requests namespace (some owners) =
      map (request_for namespace) (filter is_hosted_control_plane_ref owners)

  -- The requests for one certificate; the flag of the source only drops empty lists.
  unfoldable pub resolve_owner_refs_to_hosted_control_planes : String → String → List Request
  unfolding owner_requests
  resolve_owner_refs_to_hosted_control_planes namespace name =
      owner_requests namespace (reader.certificate_owners namespace name)

  -- The first resource of the list that mounts the object.
  unfoldable pub first_mounting :
      (Mount → Bool) → Option (List (HostedControlPlane Q)) → List Request
  first_mounting uses none = []
  first_mounting uses (some hcps) =
      mount_request (find (λ h. some_by (λ m. uses (m.1)) h.spec.mounts) hcps)

  unfoldable pub secret_to_hosted_control_plane :
      String → String → List OwnerReference → List Request
  secret_to_hosted_control_plane namespace name owners =
      let refs = filter is_certificate_ref owners in
      if is_empty refs
      then first_mounting (λ m. m.secret == some name) (reader.list namespace)
      else flatten (map (λ r. resolve_owner_refs_to_hosted_control_planes namespace r.name) refs)

  unfoldable pub config_map_to_hosted_control_plane : String → String → List Request
  config_map_to_hosted_control_plane namespace name =
      first_mounting (λ m. m.config_map == some name) (reader.list namespace)
