-- ===== src/Checksum/Laws.antt =====
-- The checksum depends on the contents alone, and the annotations change nothing else.
use cluster_api_provider_hos.Prelude.{
  String, ◌≡◌, refl, sym, ap, ◌∙◌, subst, inl, inr, true, false, none, List, [], ◌∷◌, map, ◌==◌,
  string_eq, nat_eq, option_eq, Bool-cases, is_empty,
}
use cluster_api_provider_hos.Prelude.Exec.{ok, Exec, wrapping}
use cluster_api_provider_hos.Prelude.Sorting.{
  text_less, lookup, sort_by_key, insert_text, sort_texts,
}
use cluster_api_provider_hos.Prelude.Sorting.Laws.{
  IsMap, Ascending-unique, sort_by_key-Ascending, lookup-sort_by_key, text_less_connex,
  text_less_trans, text_less_irrefl,
}
use cluster_api_provider_hos.Prelude.Sorting.Assign.{lookup-assign}
use cluster_api_provider_hos.Prelude.Succeeds.{bind-ok, pure-ok}
use cluster_api_provider_hos.Objects.{PodTemplateSpec}
use cluster_api_provider_hos.Checksum.{
  Data, map_checksum, calculate_checksum, annotated, annotate, set_checksum_annotations,
  calculate_secret_checksum, calculate_config_map_checksum, extract_secret_names,
  extract_config_map_names,
}

-- The same maps in another order, each with its entries in another order.
pub data Reordered : List Data → List Data → Type 0 where
  none_left : Reordered [] []
  same_entries :
      {m n : Data} {ms ns : List Data}
      → IsMap m
      → IsMap n
      → ((k : String) → lookup k m ≡ lookup k n)
      → Reordered ms ns
      → Reordered (m ∷ ms) (n ∷ ns)
  swapped : (m n : Data) (ms : List Data) → Reordered (m ∷ n ∷ ms) (n ∷ m ∷ ms)
  in_turn : {ms ns os : List Data} → Reordered ms ns → Reordered ns os → Reordered ms os

sorted_same :
    (m n : Data)
    → IsMap m
    → IsMap n
    → ((k : String) → lookup k m ≡ lookup k n)
    → sort_by_key m ≡ sort_by_key n
sorted_same m n p q same =
    Ascending-unique (sort_by_key m) (sort_by_key n) (sort_by_key-Ascending m p)
      (sort_by_key-Ascending n q)
      (λ k. lookup-sort_by_key k m ∙ same k ∙ sym (lookup-sort_by_key k n))

not_reversed : (s t : String) → text_less s t ≡ true → text_less t s ≡ false
not_reversed s t h = elim (Bool-cases (text_less t s)) [
  | inl e ↦ absurd (cc (text_less_trans s t s h e, text_less_irrefl s))
  | inr e ↦ e
]

insert_text_less :
    (s t : String) (ts : List String)
    → text_less s t ≡ true
    → insert_text s (insert_text t ts) ≡ insert_text t (insert_text s ts)
unfolding insert_text
insert_text_less s t [] h = rw (not_reversed s t h) (rw h refl)
insert_text_less s t (u ∷ us) h = elim (Bool-cases (text_less u s)) [
  | inl first ↦
      let before = text_less_trans u s t first h in
      rw before (rw first (rw before (ap (◌∷◌ u) (insert_text_less s t us h))))
  | inr later ↦ elim (Bool-cases (text_less u t)) [
    | inl between ↦ rw between (rw later (rw h (rw between refl)))
    | inr last ↦ rw last (rw later (rw (not_reversed s t h) (rw h (rw last refl))))
  ]
]

insert_text_comm :
    (s t : String) (ts : List String)
    → insert_text s (insert_text t ts) ≡ insert_text t (insert_text s ts)
insert_text_comm s t ts = elim (Bool-cases (text_less s t)) [
  | inl less ↦ insert_text_less s t ts less
  | inr more ↦ elim (Bool-cases (text_less t s)) [
    | inl less ↦ sym (insert_text_less t s ts less)
    | inr same ↦ rw (text_less_connex s t more same) refl
  ]
]

checksums_same :
    (md5_hex : String → String) (ms ns : List Data)
    → Reordered ms ns
    → (sort_texts (map (map_checksum md5_hex) ms) ≡ sort_texts (map (map_checksum md5_hex) ns))
      × (is_empty ms ≡ is_empty ns)
unfolding sort_texts map_checksum
checksums_same md5_hex ms ns none_left = (refl, refl)
checksums_same md5_hex (m ∷ ms) (n ∷ ns) (same_entries p q same rest) =
    (rw (sorted_same m n p q same) (ap (insert_text _) (checksums_same md5_hex ms ns rest).0), refl)
checksums_same md5_hex ms ns (swapped m n os) = (insert_text_comm _ _ _, refl)
checksums_same md5_hex ms os (in_turn {ns = ns} first second) =
    let (a, b) = checksums_same md5_hex ms ns first in
    let (c, d) = checksums_same md5_hex ns os second in (a ∙ c, b ∙ d)

empty_map : {A B : Type 0} (f : A → B) (xs : List A) → is_empty (map f xs) ≡ is_empty xs
empty_map f [] = refl
empty_map f (x ∷ xs) = refl

-- The checksum is the same for the same maps, in whichever order they are fetched and Go walks them.
pub calculate_checksum-Reordered :
    (md5_hex : String → String) (ms ns : List Data)
    → Reordered ms ns
    → calculate_checksum md5_hex ms ≡ calculate_checksum md5_hex ns
unfolding calculate_checksum
calculate_checksum-Reordered md5_hex ms ns r =
    let (sorted, empty) = checksums_same md5_hex ms ns r in
    rw sorted (
      rw (empty_map (map_checksum md5_hex) ms ∙ empty ∙ sym (empty_map (map_checksum md5_hex) ns))
        refl)

-- At most the annotation `key` has changed.
record Annotates {R : Type 0} (key : String) (before after : PodTemplateSpec R) : Type 0 where
  spec : after.spec ≡ before.spec
  labels : after.labels ≡ before.labels
  others :
      (k : String) → (key == k) ≡ false → lookup k after.annotations ≡ lookup k before.annotations

lookup-other : (k key value : String) → (key == k) ≡ false → lookup k ((key, value) ∷ []) ≡ none
unfolding lookup
lookup-other k key value d = rw d refl

module _ {R : Type 0} where
  annotated-Annotates :
      (key checksum : String) (template : PodTemplateSpec R)
      → Annotates key template (annotated key template checksum)
  annotated-Annotates key checksum template = elim (Bool-cases (checksum == "")) [
    | inl empty ↦ rw empty (record { spec = refl; labels = refl; others = λ k d. refl })
    | inr given ↦ rw given (record {
      spec = refl;
      labels = refl;
      others = λ k d.
          lookup-assign k template.annotations ((key, checksum) ∷ [])
          ∙ rw (lookup-other k key checksum d) refl;
    })
  ]

module _ {S R : Type 0} where
  annotate-Annotates :
      (key message : String) (calculate : List String → Exec S String) (names : List String)
      (template after : PodTemplateSpec R) (s t : S)
      → annotate key message calculate names template s ≡ (ok after, t)
      → Annotates key template after
  unfolding annotate
  annotate-Annotates key message calculate [] template after s t h =
      let (same, _) = pure-ok template s t after h in
      subst (Annotates key template) same
        (record { spec = refl; labels = refl; others = λ k d. refl })
  annotate-Annotates key message calculate (name ∷ names) template after s t h =
      let (checksum, _, h1) = bind-ok (wrapping message (calculate (name ∷ names))) _ s t after h in
      let (same, _) = pure-ok (annotated key template checksum) _ t after h1 in
      subst (Annotates key template) same (annotated-Annotates key checksum template)

  -- Where the checksums are set, the template keeps its specification and its labels, and each of its
  -- annotations but those of the two checksums.
  pub set_checksum_annotations-others :
      (md5_hex : String → String) (get_secret : String → Exec S Data)
      (get_config_map : String → Exec S (Data × Data)) (template after : PodTemplateSpec R)
      (s t : S)
      → set_checksum_annotations md5_hex get_secret get_config_map template s ≡ (ok after, t)
      → (after.spec ≡ template.spec)
        × (after.labels ≡ template.labels)
        × ((k : String)
            → ("checksum/secrets" == k) ≡ false
            → ("checksum/configmaps" == k) ≡ false
            → lookup k after.annotations ≡ lookup k template.annotations)
  unfolding set_checksum_annotations
  set_checksum_annotations-others md5_hex get_secret get_config_map template after s t h =
      let secrets = calculate_secret_checksum md5_hex get_secret in
      let config_maps = calculate_config_map_checksum md5_hex get_config_map in
      let add_secrets =
        annotate "checksum/secrets" "failed to calculate secret checksum" secrets
          (extract_secret_names template.spec.volumes) template in
      let (between, first, h1) = bind-ok add_secrets _ s t after h in
      let a =
        annotate-Annotates "checksum/secrets" "failed to calculate secret checksum" secrets
          (extract_secret_names template.spec.volumes) template between s (add_secrets s).1 first in
      let b =
        annotate-Annotates "checksum/configmaps" "failed to calculate configmap checksum"
          config_maps (extract_config_map_names between.spec.volumes) between after
          (add_secrets s).1 t h1 in
      (b.spec ∙ a.spec, b.labels ∙ a.labels, λ k p q. b.others k q ∙ a.others k p)
