-- ===== src/Images.antt =====
-- pkg/operator/util/images.go: the images of the components.
pub mod Laws
use cluster_api_provider_hos.Prelude.{
  ℕ, ◌-◌, ◌/◌, ◌<◌, min, String, Option, none, some, arith, ◌==◌, string_eq, nat_eq, Eq, option_eq,
  if◌then◌else◌, ◌<>◌, deref, decimal,
}
use cluster_api_provider_hos.Api.{ImageSpec}

abbrev pub max_konnectivity_minor : ℕ
max_konnectivity_minor = 36

abbrev pub core_dns_tag : String
core_dns_tag = "v1.12.0"

abbrev pub nginx_tag : String
nginx_tag = "1.31.8"

abbrev pub etcd_tag : String
etcd_tag = "3.7.1"

unfoldable pub build_image_string : String → String → String → String
build_image_string registry repository tag =
    if registry == "" then repository <> ":" <> tag else registry <> "/" <> repository <> ":" <> tag

unfoldable pub resolve_image_from_spec : Option ImageSpec → String → String → String → String
unfolding build_image_string
resolve_image_from_spec none registry repository tag = build_image_string registry repository tag
resolve_image_from_spec (some spec) registry repository tag =
    build_image_string (deref spec.registry registry) (deref spec.repository repository)
      (deref spec.tag tag)

unfoldable pub resolve_kubernetes_component_image : Option ImageSpec → String → String → String
unfolding resolve_image_from_spec
resolve_kubernetes_component_image spec component version =
    resolve_image_from_spec spec "registry.k8s.io" component version

unfoldable pub resolve_etcd_image : Option ImageSpec → String
unfolding resolve_image_from_spec
resolve_etcd_image spec = resolve_image_from_spec spec "registry.k8s.io" "etcd" (etcd_tag <> "-0")

abbrev pub default_etcd_version : String
default_etcd_version = etcd_tag

unfoldable pub resolve_konnectivity_image : Option ImageSpec → String → ℕ → String
unfolding resolve_image_from_spec
resolve_konnectivity_image spec component minor =
    resolve_image_from_spec spec "registry.k8s.io" ("kas-network-proxy/" <> component)
      ("v0." <> decimal (min minor max_konnectivity_minor) <> ".0")

unfoldable pub resolve_kube_proxy_image : Option ImageSpec → String → String
unfolding resolve_image_from_spec
resolve_kube_proxy_image spec version =
    resolve_image_from_spec spec "k8s.gcr.io" "kube-proxy" version

unfoldable pub resolve_core_dns_image : Option ImageSpec → String
unfolding resolve_image_from_spec
resolve_core_dns_image spec =
    resolve_image_from_spec spec "registry.k8s.io" "coredns/coredns" core_dns_tag

unfoldable pub resolve_nginx_image : Option ImageSpec → String
unfolding resolve_image_from_spec
resolve_nginx_image spec = resolve_image_from_spec spec "docker.io" "nginx" nginx_tag
