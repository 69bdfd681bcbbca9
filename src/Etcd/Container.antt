-- ===== src/Etcd/Container.antt =====
-- The container of etcd in pkg/reconcilers/etcd_cluster/reconciler.go: `createEtcdContainer`,
-- `buildEtcdArgs`, `buildInitialCluster` and `isEtcdVersionBefore37`. Versions are those of the
-- semver library.
pub mod Laws
use cluster_api_provider_hos.Prelude.{
  ℕ, zero, suc, ◌-◌, ◌*◌, ◌/◌, ◌%◌, ◌<◌, String, Bool, true, Option, none, some, List, [], ◌∷◌, map,
  arith, ◌==◌, string_eq, nat_eq, Eq, option_eq, if◌then◌else◌, ◌<>◌, ltb, deref, join_with,
  decimal, nat_beq,
}
use cluster_api_provider_hos.Prelude.Int.{ℤ, pos, negsuc}
use cluster_api_provider_hos.Prelude.Sorting.{sort_texts}
use cluster_api_provider_hos.Quantity.{Quantities}
use cluster_api_provider_hos.Api.{Cluster, HostedControlPlane, ImageSpec}
use cluster_api_provider_hos.Names.{
  get_etcd_service_name, get_etcd_dns_names, get_etcd_stateful_set_name,
}
use cluster_api_provider_hos.Args.{args_to_slice}
use cluster_api_provider_hos.Images.{default_etcd_version, resolve_etcd_image}
use cluster_api_provider_hos.Etcd.Calls.{EtcdSet}

-- What the code uses of github.com/blang/semver.
pub record Semver : Type 1 where
  pub Version : Type 0
  pub parse_tolerant : String → Option Version
  pub must_parse : String → Version
  pub less : Version → Version → Bool  -- `LT`
  pub etcd_client_version_37 : Version

-- The signed 64-bit number that a product of two has.
abbrev pub int64 : ℕ → ℤ
int64 n =
    let m = n % 18446744073709551616 in
    if ltb m 9223372036854775808 then pos m else negsuc (18446744073709551616 - m - 1)

-- Go's `/` of a signed number by 100, towards 0.
abbrev pub divided : ℤ → ℤ
divided (pos n) = pos (n / 100)
divided (negsuc n) = if ltb (suc n) 100 then pos 0 else negsuc (suc n / 100 - 1)

abbrev pub negated : ℤ → ℤ
negated (pos zero) = pos zero
negated (pos (suc n)) = negsuc n
negated (negsuc n) = if nat_beq (suc n) 9223372036854775808 then negsuc n else pos (suc n)

-- `Value() * 90 / 100` on `int64`.
unfoldable pub storage_quota : ℤ → ℤ
storage_quota (pos n) = divided (int64 (n * 90))
storage_quota (negsuc n) = divided (negated (int64 (suc n * 90)))

-- `strconv.FormatInt(n, 10)`.
abbrev pub format_int : ℤ → String
format_int (pos n) = decimal n
format_int (negsuc n) = "-" <> decimal (suc n)

unfoldable pub is_etcd_version_before_37 : Semver → Option ImageSpec → Bool
is_etcd_version_before_37 v spec =
    let tag : String = elim spec [ some image ↦ deref image.tag "" | none ↦ "" ] in
    if tag == ""
    then v.less (v.must_parse default_etcd_version) v.etcd_client_version_37
    else elim (v.parse_tolerant tag) [
      | none ↦ true
      | some parsed ↦ v.less parsed v.etcd_client_version_37
    ]

unfoldable pub build_initial_cluster : Cluster → ℕ → String
build_initial_cluster cluster peer_port = join_with "," (
    sort_texts (
      map
        (λ (entry : String × String). entry.0 <> "=https://" <> entry.1 <> ":" <> decimal peer_port)
        (get_etcd_dns_names cluster)))

-- The ports of etcd; the peers' is 2380 and that of the metrics 2381.
pub record Ports : Type 0 where
  pub server : ℕ
  pub peer : ℕ
  pub metrics : ℕ

abbrev pub certificates_dir : String
certificates_dir = "/etc/etcd"

-- `konstants.CACertName` of kubeadm.
abbrev pub ca_cert_name : String
ca_cert_name = "ca.crt"

module _ (q : Quantities) (v : Semver) where
  open q use {Quantity, value}

  -- The map `args` of `buildEtcdArgs`.
  unfoldable pub controller_args :
      HostedControlPlane Quantity → Cluster → Ports → Bool → List (String × String)
  controller_args hcp cluster ports before_37 =
      let pod_url =
        "https://$(POD_NAME)." <> get_etcd_service_name cluster <> "." <> hcp.namespace <> ".svc" in
      let quota = storage_quota (value hcp.status.etcd_volume_size) in
      let args =
        ("name", "$(POD_NAME)")
        ∷ ("data-dir", "/var/lib/etcd")
        ∷ ("listen-peer-urls", "https://0.0.0.0:" <> decimal ports.peer)
        ∷ ("listen-client-urls", "https://0.0.0.0:" <> decimal ports.server)
        ∷ ("advertise-client-urls", pod_url <> ":" <> decimal ports.server)
        ∷ ("initial-cluster-state", "new")
        ∷ ("initial-cluster-token", "etcd-cluster")
        ∷ ("initial-cluster", build_initial_cluster cluster ports.peer)
        ∷ ("initial-advertise-peer-urls", pod_url <> ":" <> decimal ports.peer)
        ∷ ("listen-metrics-urls", "http://0.0.0.0:" <> decimal ports.metrics)
        ∷ ("auto-compaction-mode", "periodic")
        ∷ ("auto-compaction-retention", "72h")
        ∷ ("client-cert-auth", "true")
        ∷ ("trusted-ca-file", certificates_dir <> "/" <> ca_cert_name)
        ∷ ("cert-file", certificates_dir <> "/server.crt")
        ∷ ("key-file", certificates_dir <> "/server.key")
        ∷ ("peer-client-cert-auth", "true")
        ∷ ("peer-trusted-ca-file", certificates_dir <> "/" <> ca_cert_name)
        ∷ ("peer-cert-file", certificates_dir <> "/peer.crt")
        ∷ ("peer-key-file", certificates_dir <> "/peer.key")
        ∷ ("quota-backend-bytes", format_int quota)
        ∷ [] in
      if before_37 then ("snapshot-count", "10000") ∷ args else args

  unfoldable pub build_etcd_args :
      HostedControlPlane Quantity → Cluster → Ports → Bool → List String
  unfolding controller_args
  build_etcd_args hcp cluster ports before_37 =
      args_to_slice hcp.spec.etcd.args (controller_args hcp cluster ports before_37)
        (record { prefix = none; delimiter = none })

  -- The part of `reconcileStatefulSet` that this model keeps.
  unfoldable pub etcd_set : HostedControlPlane Quantity → Cluster → Ports → EtcdSet Quantity
  unfolding build_etcd_args
  etcd_set hcp cluster ports = record {
    name = get_etcd_stateful_set_name cluster;
    image = resolve_etcd_image hcp.spec.etcd.image;
    args = build_etcd_args hcp cluster ports (is_etcd_version_before_37 v hcp.spec.etcd.image);
    storage = hcp.status.etcd_volume_size;
  }
