-- ===== src/Images/Laws.antt =====
-- The tag of the konnectivity images.
use cluster_api_provider_hos.Prelude.{
  ℕ, ◌≤◌, min, String, ◌≡◌, refl, Option, arith, string_eq, nat_eq, option_eq,
}
use cluster_api_provider_hos.Api.{ImageSpec}
use cluster_api_provider_hos.Images.{max_konnectivity_minor, resolve_konnectivity_image}

-- Kubernetes minor versions from the newest konnectivity release on get the images of that
-- release, whatever the component and the image specification.
pub resolve_konnectivity_image-saturates :
    (spec : Option ImageSpec) (component : String) (minor : ℕ)
    → max_konnectivity_minor ≤ minor
    → resolve_konnectivity_image spec component minor
      ≡ resolve_konnectivity_image spec component max_konnectivity_minor
unfolding resolve_konnectivity_image
resolve_konnectivity_image-saturates spec component minor h =
    let m : min minor max_konnectivity_minor ≡ max_konnectivity_minor = omega arith in rw m refl
