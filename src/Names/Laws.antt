-- ===== src/Names/Laws.antt =====
-- Which names are distinct, within a cluster and across clusters.
use cluster_api_provider_hos.Prelude.{
  String, ◌≡◌, refl, sym, ap, ◌∙◌, subst, true, List, [], ◌∷◌, map, string_eq, nat_eq, option_eq,
  ◌<>◌, some_by,
}
use text.Mathlib.TextLemmas.{append_cancel_left, append_assoc}
use cluster_api_provider_hos.Prelude.Distinct.{
  NoDuplicates, no_duplicates, no_duplicates_sound, NoDuplicates-map,
}
use cluster_api_provider_hos.Api.{Cluster}
use cluster_api_provider_hos.Names.{
  get_ca_secret_name, get_ca_bundle_secret_name, get_api_server_secret_name,
  get_api_server_kubelet_client_secret_name, get_front_proxy_secret_name,
  get_front_proxy_ca_secret_name, get_front_proxy_ca_bundle_secret_name,
  get_service_account_secret_name, get_admin_kubeconfig_certificate_secret_name,
  get_controller_manager_kubeconfig_certificate_secret_name,
  get_scheduler_kubeconfig_certificate_secret_name, get_audit_webhook_secret_name,
  get_konnectivity_client_kubeconfig_certificate_secret_name,
  get_control_plane_controller_kubeconfig_certificate_secret_name, get_etcd_ca_secret_name,
  get_etcd_ca_bundle_secret_name, get_etcd_server_secret_name, get_etcd_peer_secret_name,
  get_etcd_api_server_client_certificate_secret_name,
  get_etcd_controller_client_certificate_secret_name,
}

-- The names of all secrets of a cluster but the kubeconfigs, in the order of the source.
abbrev pub secret_names : List (Cluster → String)
secret_names =
    get_ca_secret_name ∷ get_ca_bundle_secret_name ∷ get_api_server_secret_name
    ∷ get_api_server_kubelet_client_secret_name ∷ get_front_proxy_secret_name
    ∷ get_front_proxy_ca_secret_name ∷ get_front_proxy_ca_bundle_secret_name
    ∷ get_service_account_secret_name ∷ get_admin_kubeconfig_certificate_secret_name
    ∷ get_controller_manager_kubeconfig_certificate_secret_name
    ∷ get_scheduler_kubeconfig_certificate_secret_name ∷ get_audit_webhook_secret_name
    ∷ get_konnectivity_client_kubeconfig_certificate_secret_name
    ∷ get_control_plane_controller_kubeconfig_certificate_secret_name ∷ get_etcd_ca_secret_name
    ∷ get_etcd_ca_bundle_secret_name ∷ get_etcd_server_secret_name ∷ get_etcd_peer_secret_name
    ∷ get_etcd_api_server_client_certificate_secret_name
    ∷ get_etcd_controller_client_certificate_secret_name ∷ []

abbrev suffixes : List String
suffixes =
    "-ca" ∷ "-ca-bundle" ∷ "-apiserver" ∷ "-apiserver-kubelet-client" ∷ "-front-proxy"
    ∷ "-front-proxy-ca" ∷ "-front-proxy-ca-bundle" ∷ "-service-account" ∷ "-admin"
    ∷ "-controller-manager" ∷ "-scheduler" ∷ "-audit-webhook" ∷ "-konnectivity-client"
    ∷ "-control-plane-controller" ∷ "-etcd-ca" ∷ "-etcd-ca-bundle" ∷ "-etcd-server" ∷ "-etcd-peer"
    ∷ "-etcd-apiserver-client" ∷ "-etcd-controller-client" ∷ []

suffixes_distinct : no_duplicates suffixes ≡ true
unfolding no_duplicates some_by
suffixes_distinct = refl

secret_names-suffixes :
    (cluster : Cluster)
    → map (λ (f : Cluster → String). f cluster) secret_names
      ≡ map (λ suffix. cluster.name <> suffix) suffixes
unfolding get_ca_secret_name get_ca_bundle_secret_name get_api_server_secret_name
    get_api_server_kubelet_client_secret_name get_front_proxy_secret_name
    get_front_proxy_ca_secret_name get_front_proxy_ca_bundle_secret_name
    get_service_account_secret_name get_admin_kubeconfig_certificate_secret_name
    get_controller_manager_kubeconfig_certificate_secret_name
    get_scheduler_kubeconfig_certificate_secret_name get_audit_webhook_secret_name
    get_konnectivity_client_kubeconfig_certificate_secret_name
    get_control_plane_controller_kubeconfig_certificate_secret_name get_etcd_ca_secret_name
    get_etcd_ca_bundle_secret_name get_etcd_server_secret_name get_etcd_peer_secret_name
    get_etcd_api_server_client_certificate_secret_name
    get_etcd_controller_client_certificate_secret_name
secret_names-suffixes cluster = refl

-- For every cluster, the names of its twenty secrets (the kubeconfigs apart) are pairwise
-- different, so that no two certificates or bundles of a cluster are written to one secret.
pub secret_names-NoDuplicates :
    (cluster : Cluster) → NoDuplicates (map (λ (f : Cluster → String). f cluster) secret_names)
secret_names-NoDuplicates cluster =
    subst (NoDuplicates {A = String}) (sym (secret_names-suffixes cluster)) (
      NoDuplicates-map (λ suffix. cluster.name <> suffix)
        (λ s t p. append_cancel_left cluster.name s t p) suffixes
        (no_duplicates_sound suffixes suffixes_distinct))

-- A cluster whose name is that of another one with `-etcd` behind it has as its CA secret the etcd
-- CA secret of the other one: the names of two clusters of a namespace can collide.
pub get_ca_secret_name-collision :
    (x y : Cluster)
    → y.name ≡ x.name <> "-etcd"
    → (get_ca_secret_name y ≡ get_etcd_ca_secret_name x)
      × (get_ca_bundle_secret_name y ≡ get_etcd_ca_bundle_secret_name x)
unfolding get_ca_secret_name get_etcd_ca_secret_name get_ca_bundle_secret_name
    get_etcd_ca_bundle_secret_name
get_ca_secret_name-collision x y h = (
  ap (λ n. n <> "-ca") h ∙ append_assoc x.name "-etcd" "-ca",
  ap (λ n. n <> "-ca-bundle") h ∙ append_assoc x.name "-etcd" "-ca-bundle",
)
