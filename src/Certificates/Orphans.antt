-- ===== src/Certificates/Orphans.antt =====
-- `cleanupOrphanedCertificates`: the certificates of a cluster that are not wanted any more.
pub mod Laws
use cluster_api_provider_hos.Prelude.{
  ℕ, ◌<◌, String, Bool, List, [], ◌∷◌, arith, ◌==◌, string_eq, nat_eq, Eq, option_eq, if◌then◌else◌,
  ◌<>◌, some_by,
}
use cluster_api_provider_hos.Prelude.Exec.{Exec, pure, wrapping, ◌>>=◌, ◌>>◌}
use cluster_api_provider_hos.Prelude.Sorting.{assign}
use cluster_api_provider_hos.Api.{Cluster}
use cluster_api_provider_hos.Names.{get_control_plane_labels}
use cluster_api_provider_hos.Reconcilers.{delete_if_found}
use cluster_api_provider_hos.Certificates.{Clients, certificate_kind_label}

-- `slices.Contains`.
abbrev pub is_desired : List String → String → Bool
is_desired desired name = some_by (λ d. d == name) desired

module _ {S : Type 0} (clients : Clients S) where
  unfoldable pub delete_orphans : List String → List String → Exec S (Unit {0})
  delete_orphans desired [] = pure tt
  delete_orphans desired (name ∷ names) =
      let rest = delete_orphans desired names in
      if is_desired desired name
      then rest
      else delete_if_found clients.errors ("failed to delete orphaned certificate " <> name)
          (clients.delete_certificate name)
        >> rest

  unfoldable pub cleanup_orphaned_certificates : Cluster → List String → Exec S (Unit {0})
  unfolding delete_orphans
  cleanup_orphaned_certificates cluster desired = do
    names ← wrapping "failed to list certificates" (
        clients.list_certificates
          (assign ((certificate_kind_label, "client") ∷ []) (get_control_plane_labels cluster "")))
    delete_orphans desired names
