-- ===== src/Controller/Mapping/Laws.antt =====
-- The requests that a changed object leads to.
use cluster_api_provider_hos.Prelude.{
  String, ◌≡◌, refl, ap, subst, ◌⊎◌, inl, inr, Bool, true, false, Option, none, some, List, [], ◌∷◌,
  ◌++◌, map, ◌==◌, string_eq, nat_eq, some_inj, option_eq, Bool-cases, Option-cases, is_empty,
  filter, some_by, find, All,
}
use mathlib.Core.List.{flatten}
use cluster_api_provider_hos.Api.{HostedControlPlane, Mount}
use cluster_api_provider_hos.Controller.Mapping.{
  Request, OwnerReference, Reader, is_certificate_ref, is_hosted_control_plane_ref, owner_requests,
  resolve_owner_refs_to_hosted_control_planes, first_mounting, mount_request,
  secret_to_hosted_control_plane, config_map_to_hosted_control_plane,
}

-- A listing is of the namespace that was asked for.
abbrev pub ListsNamespace : {Q : Type 0} → Reader Q → Type 0
ListsNamespace {Q} reader =
    (ns : String) (hs : List (HostedControlPlane Q))
    → reader.list ns ≡ some hs
    → All (λ h. h.namespace ≡ ns) hs

abbrev pub InNamespace : String → List Request → Type 0
InNamespace ns rs = All (λ r. r.namespace ≡ ns) rs

All-append {ℓ κ} :
    {A : Type ℓ} (P : A → Type κ) (xs ys : List A) → All P xs → All P ys → All P (xs ++ ys)
All-append P [] ys hx hy = hy
All-append P (x ∷ xs) ys hx hy = (hx.0, All-append P xs ys hx.1 hy)

find-All {ℓ κ} :
    {A : Type ℓ} (P : A → Type κ) (test : A → Bool) (xs : List A) (a : A)
    → All P xs
    → find test xs ≡ some a
    → (test a ≡ true) × P a
unfolding find
find-All P test [] a h e = cc
find-All P test (x ∷ xs) a h e = elim (Bool-cases (test x)) [
  | inl t ↦
      let same : x ≡ a = some_inj x a (rw t at e) in
      (subst (λ y. test y ≡ true) same t, subst P same h.0)
  | inr f ↦ find-All P test xs a h.1 (rw f at e)
]

find-none {ℓ} :
    {A : Type ℓ} (test : A → Bool) (xs : List A)
    → find test xs ≡ none
    → All (λ x. test x ≡ false) xs
unfolding find
find-none test [] e = tt
find-none test (x ∷ xs) e = elim (Bool-cases (test x)) [
  | inl t ↦ cc (rw t at e)
  | inr f ↦ (f, find-none test xs (rw f at e))
]

find-split {ℓ} :
    {A : Type ℓ} (test : A → Bool) (xs : List A) (a : A)
    → find test xs ≡ some a
    → (before after : List A) × (xs ≡ before ++ a ∷ after) × All (λ x. test x ≡ false) before
unfolding find
find-split test [] a e = cc
find-split test (x ∷ xs) a e = elim (Bool-cases (test x)) [
  | inl t ↦ ([], xs, ap (λ y. y ∷ xs) (some_inj x a (rw t at e)), tt)
  | inr f ↦
      let (before, after, split, missed) = find-split test xs a (rw f at e) in
      (x ∷ before, after, ap (λ ys. x ∷ ys) split, (f, missed))
]

find-test {ℓ} :
    {A : Type ℓ} (test : A → Bool) (xs : List A) (a : A) → find test xs ≡ some a → test a ≡ true
find-test {A = A} test xs a e = (find-All (λ x. Unit {0}) test xs a (trivial xs) e).0
  where
    trivial : (ys : List A) → All (λ y. Unit {0}) ys
    trivial [] = tt
    trivial (y ∷ ys) = (tt, trivial ys)

owner_requests-InNamespace :
    {Q : Type 0} (reader : Reader Q) (ns : String) (o : Option (List OwnerReference))
    → InNamespace ns (owner_requests reader ns o)
unfolding owner_requests
owner_requests-InNamespace reader ns none = tt
owner_requests-InNamespace reader ns (some owners) = all (filter is_hosted_control_plane_ref owners)
  where
    all :
        (rs : List OwnerReference)
        → InNamespace ns (map (λ r. record { namespace = ns; name = r.name }) rs)
    all [] = tt
    all (r ∷ rs) = (refl, all rs)

abbrev mounts : {Q : Type 0} → (Mount → Bool) → HostedControlPlane Q → Bool
mounts uses h = some_by (λ m. uses (m.1)) h.spec.mounts

first_mounting-InNamespace :
    {Q : Type 0} (reader : Reader Q) (ns : String) (uses : Mount → Bool)
    → ListsNamespace reader
    → InNamespace ns (first_mounting reader uses (reader.list ns))
unfolding first_mounting
first_mounting-InNamespace {Q} reader ns uses h = go (reader.list ns) refl
  where
    chosen :
        (hs : List (HostedControlPlane Q)) (o : Option (HostedControlPlane Q))
        → find (mounts uses) hs ≡ o
        → All (λ h. h.namespace ≡ ns) hs
        → InNamespace ns (mount_request o)
    chosen hs none e all = tt
    chosen hs (some c) e all = ((find-All _ (mounts uses) hs c all e).1, tt)

    go :
        (o : Option (List (HostedControlPlane Q)))
        → reader.list ns ≡ o
        → InNamespace ns (first_mounting reader uses o)
    go none e = tt
    go (some hs) e = chosen hs (find (mounts uses) hs) refl (h ns hs e)

module _ {Q : Type 0} (reader : Reader Q) where
  resolved-InNamespace :
      (ns : String) (refs : List OwnerReference)
      → InNamespace ns
          (flatten (map (λ r. resolve_owner_refs_to_hosted_control_planes reader ns r.name) refs))
  unfolding resolve_owner_refs_to_hosted_control_planes flatten
  resolved-InNamespace ns [] = tt
  resolved-InNamespace ns (r ∷ refs) =
      All-append _ _ _ (owner_requests-InNamespace reader ns (reader.certificate_owners ns r.name))
        (resolved-InNamespace ns refs)

  -- A changed Secret leads only to requests for resources in its own namespace, both when it
  -- belongs to certificates and when it is looked up among the mounts, provided that a listing
  -- holds only resources of the namespace that was asked for.
  pub secret_to_hosted_control_plane-InNamespace :
      (ns name : String) (owners : List OwnerReference)
      → ListsNamespace reader
      → InNamespace ns (secret_to_hosted_control_plane reader ns name owners)
  unfolding secret_to_hosted_control_plane
  secret_to_hosted_control_plane-InNamespace ns name owners h =
      elim (Bool-cases (is_empty (filter is_certificate_ref owners))) [
        | inl e ↦ rw e (first_mounting-InNamespace reader ns _ h)
        | inr e ↦ rw e (resolved-InNamespace ns (filter is_certificate_ref owners))
      ]

  -- A changed ConfigMap, in a namespace whose resources can be listed, leads to no request if none
  -- of them mounts it, and otherwise to the single request for the first of the list that mounts it,
  -- by the name and the namespace of that resource.
  pub config_map_to_hosted_control_plane-cases :
      (ns name : String) (hs : List (HostedControlPlane Q))
      → reader.list ns ≡ some hs
      → (All (λ h. mounts (λ m. m.config_map == some name) h ≡ false) hs
          × (config_map_to_hosted_control_plane reader ns name ≡ []))
        ⊎ ((before after : List (HostedControlPlane Q)) × (h : HostedControlPlane Q) × (hs
              ≡ before ++ h ∷ after)
            × All (λ h. mounts (λ m. m.config_map == some name) h ≡ false) before
            × (mounts (λ m. m.config_map == some name) h ≡ true)
            × (config_map_to_hosted_control_plane reader ns name
                ≡ record { namespace = h.namespace; name = h.name } ∷ []))
  unfolding config_map_to_hosted_control_plane first_mounting
  config_map_to_hosted_control_plane-cases ns name hs e =
      rw e (elim (Option-cases (find (mounts (λ m. m.config_map == some name)) hs)) [
        | inl q ↦ inl (find-none _ hs q, rw q)
        | inr (h, q) ↦
            let (before, after, split, missed) = find-split _ hs h q in
            inr (before, after, h, split, missed, find-test _ hs h q, rw q)
      ])
