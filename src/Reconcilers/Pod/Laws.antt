-- ===== src/Reconcilers/Pod/Laws.antt =====
-- When a pod template is built, and the mounts of its containers.
use cluster_api_provider_hos.Prelude.{
  ◌≡◌, refl, ap, subst, ◌↔◌, inl, inr, Bool, true, false, not, ◌||◌, List, [], ◌∷◌, ◌++◌, arith,
  ◌==◌, string_eq, nat_eq, option_eq, Bool-cases, some_by, All,
}
use cluster_api_provider_hos.Prelude.Exec.{ok}
use cluster_api_provider_hos.Prelude.{flat_map, bool_eq}
use cluster_api_provider_hos.Prelude.Every.{All-map, All-append, All-flat_map, All-imp, filter-none}
use cluster_api_provider_hos.Objects.{
  Container, PodSpec, PodTemplateSpec, Volume, VolumeMount, read_only_mount, projected_volume,
}
use cluster_api_provider_hos.Reconcilers.Pod.{
  PodOptions, ContainerOptions, service_account_volume_name, default_api_token_mount_path,
  service_account_volume, convert_container, needs_service_account, pod_spec,
  create_pod_template_spec, is_invalid_mount, validate_mounts, check_mounts,
}

-- Each mount of a container has a path, and one of the volumes has its name.
unfoldable pub Mounted : {R : Type 0} → List Volume → Container R → Type 0
Mounted volumes c = All (λ m. is_invalid_mount volumes m ≡ false) c.volume_mounts

check_mounts-none : (ms : List VolumeMount) → check_mounts ms ≡ ok tt → ms ≡ []
unfolding check_mounts
check_mounts-none [] h = refl
check_mounts-none (m ∷ ms) h = cc

pub validate_mounts-Mounted :
    {R : Type 0} (spec : PodSpec R)
    → (validate_mounts spec ≡ ok tt) ↔ All (Mounted spec.volumes) spec.containers
unfolding validate_mounts Mounted check_mounts
validate_mounts-Mounted {R} spec =
    let mounts = flat_map (λ (c : Container R). c.volume_mounts) spec.containers in
    let none_left = filter-none (is_invalid_mount spec.volumes) mounts in
    let each =
      All-flat_map (λ m. is_invalid_mount spec.volumes m ≡ false)
        (λ (c : Container R). c.volume_mounts) spec.containers in
    (
      (λ h. each.0 (none_left.0 (check_mounts-none _ h))),
      (λ h. ap check_mounts (none_left.1 (each.1 h))),
    )

some_by-append :
    {A : Type 0} (p : A → Bool) (xs ys : List A)
    → some_by p (xs ++ ys) ≡ (some_by p xs || some_by p ys)
unfolding some_by
some_by-append p [] ys = refl
some_by-append p (x ∷ xs) ys = elim (Bool-cases (p x)) [
  | inl hit ↦ rw hit refl
  | inr miss ↦ rw miss (some_by-append p xs ys)
]

more_volumes :
    (m : VolumeMount) (vs ws : List Volume)
    → is_invalid_mount vs m ≡ false
    → is_invalid_mount (vs ++ ws) m ≡ false
unfolding is_invalid_mount
more_volumes m vs ws h =
    let both = some_by-append (λ (v : Volume). m.name == v.name) vs ws in ground (arith, both, h)

All-more :
    (vs ws : List Volume) (ms : List VolumeMount)
    → All (λ m. is_invalid_mount vs m ≡ false) ms
    → All (λ m. is_invalid_mount (vs ++ ws) m ≡ false) ms
All-more vs ws [] h = tt
All-more vs ws (m ∷ ms) h = (more_volumes m vs ws h.0, All-more vs ws ms h.1)

not_or_true : (b : Bool) → not (b || true) ≡ false
not_or_true true = refl
not_or_true false = refl

token_mount-valid :
    (vs : List Volume)
    → is_invalid_mount
        (vs ++ (service_account_volume ∷ []))
        (read_only_mount service_account_volume_name default_api_token_mount_path)
      ≡ false
unfolding is_invalid_mount service_account_volume read_only_mount projected_volume some_by
token_mount-valid vs =
    rw
      (some_by-append (λ (v : Volume). service_account_volume_name == v.name) vs
        (service_account_volume ∷ []))
      (not_or_true _)

unequal : (a b : Bool) → ((a == b) ≡ false) ↔ ((a ≡ true) ↔ (b ≡ false))
unequal true true = ((λ h. cc), (λ h. cc (h.0 refl)))
unequal true false = ((λ h. ((λ _. refl), (λ _. refl))), (λ h. refl))
unequal false true = ((λ h. ((λ p. cc), (λ p. cc))), (λ h. refl))
unequal false false = ((λ h. cc), (λ h. cc (h.1 refl)))

module _ {R : Type 0} where
  convert-more :
      (vs : List Volume) (c : Container R × ContainerOptions)
      → Mounted vs c.0
      → Mounted (vs ++ (service_account_volume ∷ [])) (convert_container c)
  unfolding Mounted convert_container
  convert-more vs (c, o) h =
      let extra = service_account_volume ∷ [] in
      let kept = All-more vs extra c.volume_mounts h in
      elim (Bool-cases o.needs_service_account) [
        | inl needs ↦ rw needs (
            (All-append (λ m. is_invalid_mount (vs ++ extra) m ≡ false) c.volume_mounts _).1
              (kept, (token_mount-valid vs, tt)))
        | inr free ↦ rw free kept
      ]

  convert-same :
      (vs : List Volume) (cs : List (Container R × ContainerOptions))
      → needs_service_account cs ≡ false
      → All (λ c. Mounted vs c.0) cs
      → All (λ c. Mounted vs (convert_container c)) cs
  unfolding Mounted convert_container some_by
  convert-same vs [] h m = tt
  convert-same vs (c ∷ cs) h m = elim (Bool-cases c.1.needs_service_account) [
    | inl needs ↦ absurd (cc (rw needs at h))
    | inr free ↦ (rw free (m.0), convert-same vs cs (rw free at h) m.1)
  ]

  module _ (options : PodOptions)
      (init_containers containers : List (Container R × ContainerOptions))
      (volumes : List Volume) where
    abbrev template : PodTemplateSpec R
    template = record {
      labels = [];
      annotations = options.annotations;
      spec = pod_spec options init_containers containers volumes;
    }

    abbrev mismatch : Bool
    mismatch = (options.service_account_name == "") == needs_service_account containers

    built :
        (t : PodTemplateSpec R)
        → create_pod_template_spec options init_containers containers volumes ≡ ok t
        → (mismatch ≡ false) × (template ≡ t)
    unfolding create_pod_template_spec
    built t h = elim (Bool-cases mismatch) [
      | inl bad ↦ absurd (cc (rw bad at h))
      | inr good ↦ (good, cc (rw good at h))
    ]

    mounts :
        mismatch ≡ false
        → All (λ c. Mounted volumes c.0) containers
        → All (Mounted template.spec.volumes) template.spec.containers
    unfolding pod_spec
    mounts good h = elim (Bool-cases (options.service_account_name == "")) [
      | inl anonymous ↦
          let free : needs_service_account containers ≡ false =
            ((unequal _ _).0 good).0 anonymous in
          rw anonymous (
            (All-map (Mounted volumes) convert_container containers).1
              (convert-same volumes containers free h))
      | inr named ↦ rw named (
          (All-map (Mounted (volumes ++ (service_account_volume ∷ []))) convert_container
              containers).1
            (All-imp _ _ (convert-more volumes) containers h))
    ]

    -- A template is built exactly if a service account is named and a container needs one, or
    -- neither; and where each mount of the given containers has a path and a given volume, the mounts
    -- of the template that is built are valid.
    pub create_pod_template_spec-mounts :
        (((t : PodTemplateSpec R) × (create_pod_template_spec options init_containers containers
                volumes
              ≡ ok t))
          ↔ ((options.service_account_name ≡ "") ↔ (needs_service_account containers ≡ false)))
        × ((t : PodTemplateSpec R)
            → create_pod_template_spec options init_containers containers volumes ≡ ok t
            → All (λ c. Mounted volumes c.0) containers
            → validate_mounts t.spec ≡ ok tt)
    unfolding create_pod_template_spec
    create_pod_template_spec-mounts =
        let anonymous_iff = string_eq.beq_iff options.service_account_name "" in
        (
          (
            (λ made.
                let differ = (unequal _ _).0 (built made.0 made.1).0 in
                ((λ p. differ.0 (anonymous_iff.1 p)), (λ p. anonymous_iff.0 (differ.1 p)))),
            (λ both.
                let good : mismatch ≡ false =
                  (unequal _ _).1
                    ((λ p. both.0 (anonymous_iff.0 p)), (λ p. anonymous_iff.1 (both.1 p))) in
                (template, rw good refl)),
          ),
          λ t h m.
              let (good, same) = built t h in
              subst (λ (u : PodTemplateSpec R). validate_mounts u.spec ≡ ok tt) same
                ((validate_mounts-Mounted template.spec).1 (mounts good m)),
        )
