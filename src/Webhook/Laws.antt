-- ===== src/Webhook/Laws.antt =====
-- What an admitted resource, and an admitted change of one, promise.
use cluster_api_provider_hos.Prelude.{
  String, ◌≡◌, refl, ◌≢◌, ◌↔◌, inl, inr, Bool, true, false, Option, none, some, List, [], ◌∷◌, ◌++◌,
  arith, string_eq, nat_eq, not_equal, option_eq, Bool-cases, is_some, All,
}
use cluster_api_provider_hos.Prelude.Int.{pos, ◌≤ℤ◌}
use cluster_api_provider_hos.Quantity.{Quantities}
use cluster_api_provider_hos.Api.{
  HostedControlPlane, HostedControlPlaneStatus, EtcdComponent, CertificatesSpec, auto_grow_enabled,
  root_ca_certificate_duration_or_default, ca_certificate_duration_or_default,
}
use cluster_api_provider_hos.Etcd.Space.{Storage, get_etcd_volume_size}
use cluster_api_provider_hos.Webhook.{
  Versions, local_cluster_oidc_endpoint, has_size, version_errors, growth_errors, oidc_errors,
  certificate_errors, validate_create, when,
}

append-empty : {A : Type 0} (xs ys : List A) → xs ++ ys ≡ [] → (xs ≡ []) × (ys ≡ [])
append-empty [] ys h = (refl, h)
append-empty (x ∷ xs) ys h = cc

pub when-empty : (b : Bool) (p d : String) → when b p d ≡ [] → b ≡ false
unfolding when
when-empty true p d h = cc
when-empty false p d h = refl

module _ (q : Quantities) (v : Versions) where
  open q use {Quantity, amount, less, is_zero}
  open v use {Version, parse_tolerant, compare_less}

  -- A size that is given, and not zero.
  abbrev pub Sized : Option Quantity → Type 0
  Sized none = ⊥
  Sized (some size) = ¬ (amount size ≡ pos 0)

  Sized-some : (o : Option Quantity) → Sized o → is_some o ≡ true
  Sized-some none h = absurd h
  Sized-some (some size) h = refl

  has_size_iff : (o : Option Quantity) → (has_size q v o ≡ true) ↔ Sized o
  unfolding has_size
  has_size_iff none = ((λ h. cc), (λ h. absurd h))
  has_size_iff (some size) = (
    (λ h p. cc (h, (q.is_zero_iff size).1 p)),
    (λ h. elim (Bool-cases (is_zero size)) [
      | inl e ↦ absurd (h ((q.is_zero_iff size).0 e))
      | inr e ↦ rw e refl
    ]),
  )

  -- What `ValidateCreate` demands.
  pub record Admissible (hcp : HostedControlPlane Quantity) : Type 0 where
    pub version : is_some (parse_tolerant hcp.spec.version) ≡ true
    pub size : (auto_grow_enabled hcp.spec.etcd ≡ false) ↔ Sized hcp.spec.etcd.volume_size
    pub issuers : All (λ url. url ≢ local_cluster_oidc_endpoint) hcp.spec.oidc_providers
    pub durations :
        ca_certificate_duration_or_default hcp.spec.certificates
        ≤ℤ root_ca_certificate_duration_or_default hcp.spec.certificates

  growth-size :
      (etcd : EtcdComponent Quantity)
      → growth_errors q v etcd ≡ []
      → (auto_grow_enabled etcd ≡ false) ↔ Sized etcd.volume_size
  unfolding growth_errors
  growth-size etcd h =
      let (first, second) = append-empty _ _ h in
      let grows = when-empty _ _ _ first in
      let fixed = when-empty _ _ _ second in
      let sized = has_size_iff etcd.volume_size in
      elim (Bool-cases (auto_grow_enabled etcd)) [
        | inl a ↦ ((λ e. cc (a, e)), (λ s. absurd (cc (sized.1 s, rw a at grows))))
        | inr a ↦ (
          (λ e. elim (Bool-cases (has_size q v etcd.volume_size)) [
            | inl t ↦ sized.0 t
            | inr f ↦ absurd (cc (f, rw a at fixed))
          ]),
          (λ s. a),
        )
      ]

  size-growth :
      (etcd : EtcdComponent Quantity)
      → (auto_grow_enabled etcd ≡ false) ↔ Sized etcd.volume_size
      → growth_errors q v etcd ≡ []
  unfolding growth_errors when
  size-growth etcd h =
      let sized = has_size_iff etcd.volume_size in
      elim (Bool-cases (auto_grow_enabled etcd)) [
        | inl a ↦ elim (Bool-cases (has_size q v etcd.volume_size)) [
          | inl t ↦ absurd (cc (a, h.1 (sized.0 t)))
          | inr f ↦ rw a (rw f refl)
        ]
        | inr a ↦ rw a (rw (sized.1 (h.0 a)) refl)
      ]

  oidc-issuers :
      (urls : List String)
      → oidc_errors q v urls ≡ []
      → All (λ url. url ≢ local_cluster_oidc_endpoint) urls
  unfolding oidc_errors
  oidc-issuers [] h = tt
  oidc-issuers (url ∷ urls) h =
      let (first, rest) = append-empty _ _ h in
      let differ = when-empty _ _ _ first in
      (
        (λ p. cc (differ, (string_eq.beq_iff url local_cluster_oidc_endpoint).1 p)),
        oidc-issuers urls rest,
      )

  issuers-oidc :
      (urls : List String)
      → All (λ url. url ≢ local_cluster_oidc_endpoint) urls
      → oidc_errors q v urls ≡ []
  unfolding oidc_errors when
  issuers-oidc [] h = refl
  issuers-oidc (url ∷ urls) h =
      rw (not_equal url local_cluster_oidc_endpoint h.0) (issuers-oidc urls h.1)

  version-some : (o : Option Version) → (version_errors q v o ≡ []) ↔ (is_some o ≡ true)
  unfolding version_errors
  version-some none = ((λ h. cc), (λ h. cc))
  version-some (some w) = ((λ h. refl), (λ h. refl))

  certificates-durations :
      (certs : CertificatesSpec)
      → (certificate_errors q v certs ≡ []) ↔ (
          ca_certificate_duration_or_default certs ≤ℤ root_ca_certificate_duration_or_default certs)
  unfolding certificate_errors when
  certificates-durations certs = ground arith

  -- `ValidateCreate` admits a resource exactly if its version is a semantic version, its etcd has
  -- a fixed size that is not zero exactly if automatic growth is off, none of its OIDC issuers is
  -- the one of the cluster itself, and its root CA lasts at least as long as its CA.
  pub validate_create-Admissible :
      (hcp : HostedControlPlane Quantity) → (validate_create q v hcp ≡ []) ↔ Admissible hcp
  unfolding validate_create
  validate_create-Admissible hcp = (
    (λ h.
        let (rest', no_duration) = append-empty _ _ h in
        let (rest, no_issuer) = append-empty _ _ rest' in
        let (no_version, no_growth) = append-empty _ _ rest in
        record {
          version = (version-some _).0 no_version;
          size = growth-size hcp.spec.etcd no_growth;
          issuers = oidc-issuers hcp.spec.oidc_providers no_issuer;
          durations = (certificates-durations hcp.spec.certificates).0 no_duration;
        }),
    (λ a. rw ((version-some _).1 a.version) (
        rw (size-growth hcp.spec.etcd a.size) (
          rw (issuers-oidc hcp.spec.oidc_providers a.issuers)
            ((certificates-durations hcp.spec.certificates).1 a.durations)))),
  )

  -- For an admitted resource the etcd reconciler finds a volume size, whatever the sizes that steer
  -- the growth and whatever the status: it never dereferences a nil `volumeSize`.
  pub validate_create-get_etcd_volume_size :
      (storage : Storage Quantity) (hcp : HostedControlPlane Quantity)
      → validate_create q v hcp ≡ []
      → (st : HostedControlPlaneStatus Quantity)
      → is_some (get_etcd_volume_size q storage hcp.spec.etcd st) ≡ true
  unfolding get_etcd_volume_size
  validate_create-get_etcd_volume_size storage hcp h st =
      let a = (validate_create-Admissible hcp).0 h in
      elim (Bool-cases (auto_grow_enabled hcp.spec.etcd)) [
        | inl grows ↦ rw grows refl
        | inr fixed ↦ rw fixed (Sized-some hcp.spec.etcd.volume_size (a.size.0 fixed))
      ]
