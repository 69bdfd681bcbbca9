-- ===== src/Certificates/Specs/Laws.antt =====
-- The certificates of a cluster: their names, their issuers and their labels.
use cluster_api_provider_hos.Prelude.{
  String, ◌≡◌, refl, sym, subst, ◌⊎◌, inl, inr, true, false, some, List, [], ◌∷◌, map, string_eq,
  nat_eq, option_eq, ◌<>◌, filter, some_by, All,
}
use cluster_api_provider_hos.Prelude.Distinct.{
  NoDuplicates, no_duplicates, no_duplicates_sound, NoDuplicates-map,
}
use cluster_api_provider_hos.Prelude.Sorting.{lookup, assign}
use cluster_api_provider_hos.Api.{Cluster, HostedControlPlane}
use cluster_api_provider_hos.Names
use cluster_api_provider_hos.Certificates.{
  CertificateReconciler, NamedSpec, create_certificate_spec, certificate_kind_label,
}
use cluster_api_provider_hos.Certificates.Specs.{
  plain_specs, create_certificate_specs, api_server_spec, get_kubeconfig_label,
  get_kubeconfig_labels,
}
use text.Mathlib.TextLemmas.{append_cancel_left}

abbrev suffixes : List String
suffixes =
    "-apiserver" ∷ "-apiserver-kubelet-client" ∷ "-front-proxy" ∷ "-service-account" ∷ "-admin"
    ∷ "-controller-manager" ∷ "-scheduler" ∷ "-konnectivity-client" ∷ "-control-plane-controller"
    ∷ "-etcd-server" ∷ "-etcd-peer" ∷ "-etcd-apiserver-client" ∷ "-etcd-controller-client" ∷ []

suffixes_distinct : no_duplicates suffixes ≡ true
unfolding no_duplicates some_by
suffixes_distinct = refl

module _ {Q : Type 0} (cr : CertificateReconciler) (hcp : HostedControlPlane Q)
    (cluster : Cluster) where
  abbrev pub specs : List (String × NamedSpec)
  specs = create_certificate_specs cr hcp cluster

  names-suffixes :
      map (λ (e : String × NamedSpec). e.0) specs ≡ map (λ s. cluster.name <> s) suffixes
  unfolding create_certificate_specs plain_specs Names.get_api_server_certificate_name
      Names.get_api_server_kubelet_client_certificate_name Names.get_front_proxy_certificate_name
      Names.get_service_account_certificate_name Names.get_admin_certificate_name
      Names.get_controller_manager_kubeconfig_certificate_name
      Names.get_scheduler_kubeconfig_certificate_name
      Names.get_konnectivity_client_kubeconfig_certificate_name
      Names.get_control_plane_controller_kubeconfig_certificate_name
      Names.get_etcd_server_certificate_name Names.get_etcd_peer_certificate_name
      Names.get_etcd_api_server_client_certificate_name
      Names.get_etcd_controller_client_certificate_name
  names-suffixes = refl

  -- One of the issuers of the three authorities.
  abbrev pub IsAuthority : String → Type 0
  IsAuthority issuer =
      (issuer ≡ Names.get_ca_issuer_name cluster)
      ⊎ (issuer ≡ Names.get_etcd_ca_name cluster)
      ⊎ (issuer ≡ Names.get_front_proxy_ca_name cluster)

  -- What holds of each certificate that is no authority.
  abbrev pub Leaf : String × NamedSpec → Type 0
  Leaf e =
      IsAuthority e.1.spec.issuer_name
      × (e.1.spec.is_ca ≡ false)
      × (lookup certificate_kind_label e.1.custom_labels ≡ some "client")

  -- For every cluster, the certificates have pairwise different names; each is issued by an issuer of
  -- the three authorities, is no authority itself, and carries the label by which the cleanup finds
  -- it.
  pub create_certificate_specs-Leaf :
      NoDuplicates (map (λ (e : String × NamedSpec). e.0) specs) × All Leaf specs
  unfolding create_certificate_specs plain_specs create_certificate_spec api_server_spec lookup
      assign get_kubeconfig_label get_kubeconfig_labels filter some_by
  create_certificate_specs-Leaf =
      let signed_by_ca : IsAuthority (Names.get_ca_issuer_name cluster) = inl refl in
      let signed_by_etcd : IsAuthority (Names.get_etcd_ca_name cluster) = inr (inl refl) in
      let signed_by_proxy : IsAuthority (Names.get_front_proxy_ca_name cluster) = inr (inr refl) in
      (
        subst NoDuplicates (sym names-suffixes) (
            NoDuplicates-map (λ s. cluster.name <> s) (append_cancel_left cluster.name) suffixes
              (no_duplicates_sound suffixes suffixes_distinct)),
        (
          (signed_by_ca, refl, refl),
          (
            (signed_by_ca, refl, refl),
            (
              (signed_by_proxy, refl, refl),
              (
                (signed_by_ca, refl, refl),
                (
                  (signed_by_ca, refl, refl),
                  (
                    (signed_by_ca, refl, refl),
                    (
                      (signed_by_ca, refl, refl),
                      (
                        (signed_by_ca, refl, refl),
                        (
                          (signed_by_ca, refl, refl),
                          (
                            (signed_by_etcd, refl, refl),
                            (
                              (signed_by_etcd, refl, refl),
                              ((signed_by_etcd, refl, refl), ((signed_by_etcd, refl, refl), tt)),
                            ),
                          ),
                        ),
                      ),
                    ),
                  ),
                ),
              ),
            ),
          ),
        ),
      )
