-- ===== src/Reconcilers/Selectors/Laws.antt =====
-- The labels that are chosen keep the running pods selected, and reach the wanted labels.
use cluster_api_provider_hos.Prelude.{
  String, ◌≡◌, refl, sym, ap, ◌∙◌, ◌≢◌, ◌↔◌, ◌⊎◌, inl, inr, Bool, true, false, ◌&&◌, Option, none,
  some, [], ◌∷◌, ◌==◌, string_eq, nat_eq, beq_refl, some_inj, option_eq, Bool-cases, Option-cases,
  length, some_by,
}
use cluster_api_provider_hos.Prelude.Sorting.{lookup, assign}
use cluster_api_provider_hos.Prelude.Sorting.Laws.{IsMap}
use cluster_api_provider_hos.Prelude.Sorting.Assign.{lookup-assign, assign-IsMap}
use cluster_api_provider_hos.Objects.{Labels}
use cluster_api_provider_hos.Reconcilers.{every_by}
use cluster_api_provider_hos.Reconcilers.Selectors.{
  includes, elements_match, Chosen, choose_labels, waits,
}

-- Pods with the labels `pods` are selected by `selector`.
abbrev pub Selects : Labels → Labels → Type 0
Selects selector pods =
    (key value : String) → lookup key selector ≡ some value → lookup key pods ≡ some value

abbrev has_pair : Labels → String × String → Bool
has_pair labels e = some_by (λ (f : String × String). f.0 == e.0 && f.1 == e.1) labels

and_true : (a b : Bool) → (a && b) ≡ true → (a ≡ true) × (b ≡ true)
and_true true b h = (refl, h)
and_true false b h = cc

two_values :
    (key : String) (e : String × String) (es : Labels) (value : String)
    → lookup e.0 es ≡ none
    → (e.0 == key) ≡ true
    → lookup key es ≢ some value
two_values key e es value free hit found =
    cc (found, ap (λ k. lookup k es) ((string_eq.beq_iff e.0 key).0 hit), free)

has_pair-lookup :
    (labels : Labels) (key value : String)
    → IsMap labels
    → (has_pair labels (key, value) ≡ true) ↔ (lookup key labels ≡ some value)
unfolding some_by lookup
has_pair-lookup [] key value m = ((λ h. cc), (λ h. cc))
has_pair-lookup (e ∷ es) key value m =
    let rest = has_pair-lookup es key value m.1 in
    elim (Bool-cases (e.0 == key)) [
      | inr miss ↦ rw miss rest
      | inl hit ↦ elim (Bool-cases (e.1 == value)) [
        | inl same ↦
            let value_same = (string_eq.beq_iff e.1 value).0 same in
            rw hit (rw same ((λ h. ap some value_same), (λ h. refl)))
        | inr differ ↦ rw hit (
            rw differ (
              (λ h. absurd (two_values key e es value m.0 hit (rest.0 h))),
              (λ h. cc (differ, (string_eq.beq_iff e.1 value).1 (some_inj e.1 value h))),
            ))
      ]
    ]

lookup_behind :
    (key value : String) (e : String × String) (es : Labels)
    → lookup e.0 es ≡ none
    → lookup key es ≡ some value
    → lookup key (e ∷ es) ≡ some value
unfolding lookup
lookup_behind key value e es free h = elim (Bool-cases (e.0 == key)) [
  | inl hit ↦ absurd (two_values key e es value free hit h)
  | inr miss ↦ rw miss h
]

lookup_front : (e : String × String) (es : Labels) → lookup e.0 (e ∷ es) ≡ some e.1
unfolding lookup
lookup_front e es = rw (beq_refl e.0) refl

-- A key that is found stands in front, or behind.
split_found :
    {P : Type 0} (key value : String) (e : String × String) (es : Labels)
    → lookup key (e ∷ es) ≡ some value
    → (e.0 ≡ key → e.1 ≡ value → P)
    → (lookup key es ≡ some value → P)
    → P
unfolding lookup
split_found key value e es found front behind = elim (Bool-cases (e.0 == key)) [
  | inl hit ↦ front ((string_eq.beq_iff e.0 key).0 hit) (some_inj e.1 value (rw hit at found))
  | inr miss ↦ behind (rw miss at found)
]

pub includes-Selects :
    (collection subset : Labels)
    → IsMap collection
    → IsMap subset
    → (includes collection subset ≡ true) ↔ Selects subset collection
unfolding includes every_by lookup
includes-Selects collection [] m n = ((λ h key value found. cc), (λ h. refl))
includes-Selects collection (e ∷ es) m n =
    let rest = includes-Selects collection es m n.1 in
    let head = has_pair-lookup collection e.0 e.1 m in
    (
      (λ h key value found.
          let (in_front, behind) = and_true _ _ h in
          split_found key value e es found
            (λ k_same v_same. cc (head.0 in_front, ap (λ x. lookup x collection) k_same, v_same))
            (λ later. rest.0 behind key value later)),
      λ h.
          rw (head.1 (h e.0 e.1 (lookup_front e es)))
            (rest.1 (λ key value found. h key value (lookup_behind key value e es n.0 found))),
    )

merged-Selects :
    (labels pods selector : Labels) → Selects selector pods → Selects selector (assign labels pods)
merged-Selects labels pods selector h key value found =
    lookup-assign key labels pods ∙ rw (h key value found) refl

itself-Selects : (labels : Labels) → IsMap labels → includes labels labels ≡ true
itself-Selects labels m = (includes-Selects labels labels m m).1 (λ key value found. found)

abbrev pub all_wanted : Labels → Chosen
all_wanted labels = record { selector = labels; pods = labels }

wanted-covered :
    (labels pods selector : Labels)
    → includes pods labels ≡ true
    → choose_labels labels pods selector ≡ some (all_wanted labels)
unfolding choose_labels
wanted-covered labels pods selector covered = rw covered refl

never_waits :
    (labels : Labels) (ready : Bool) → IsMap labels → waits labels (all_wanted labels) ready ≡ false
unfolding waits elements_match
never_waits labels ready l = rw (beq_refl (length labels)) (rw (itself-Selects labels l) refl)

module _ (labels pods selector : Labels) (l : IsMap labels) (p : IsMap pods) (m : IsMap selector)
    (valid : Selects selector pods) where
  abbrev merged : Chosen
  merged = record { selector = selector; pods = assign labels pods }

  choose_labels-cases :
      ((includes pods labels ≡ true)
        × (choose_labels labels pods selector ≡ some (all_wanted labels)))
      ⊎ ((includes pods labels ≡ false) × (choose_labels labels pods selector ≡ some merged))
  unfolding choose_labels
  choose_labels-cases = elim (Bool-cases (includes pods labels)) [
    | inl covered ↦ inl (covered, wanted-covered labels pods selector covered)
    | inr other ↦
        let kept =
          (includes-Selects (assign labels pods) selector (assign-IsMap labels pods l p) m).1
            (merged-Selects labels pods selector valid) in
        inr (other, rw other (rw kept refl))
  ]

  -- Where the selector of a stateful set selects its own pods, as Kubernetes requires, the change is
  -- never refused: the labels that are chosen select both the pods that run and the pods to come.
  pub choose_labels-Selects :
      (chosen : Chosen) × (choose_labels labels pods selector ≡ some chosen)
      × Selects chosen.selector pods
      × Selects chosen.selector chosen.pods
  choose_labels-Selects = elim choose_labels-cases [
    | inl (covered, chosen) ↦ (
      all_wanted labels,
      chosen,
      (includes-Selects pods labels p l).0 covered,
      λ key value found. found,
    )
    | inr (other, chosen) ↦ (merged, chosen, valid, merged-Selects labels pods selector valid)
  ]

  -- Where the wanted labels agree with those of the pods, one more rollout reaches them: for the
  -- pods of the first choice, the selector and the pods of the next choice have just the wanted
  -- labels; for these the choice stays, and nothing waits.
  pub choose_labels-reaches :
      ((key v w : String) → lookup key labels ≡ some v → lookup key pods ≡ some w → v ≡ w)
      → (chosen : Chosen) × (choose_labels labels pods selector ≡ some chosen)
        × (choose_labels labels chosen.pods chosen.selector ≡ some (all_wanted labels))
        × (choose_labels labels labels labels ≡ some (all_wanted labels))
        × ((ready : Bool) → waits labels (all_wanted labels) ready ≡ false)
  choose_labels-reaches agree =
      let stays = wanted-covered labels labels labels (itself-Selects labels l) in
      let calm = λ (ready : Bool). never_waits labels ready l in
      elim choose_labels-cases [
        | inl (covered, chosen) ↦ (all_wanted labels, chosen, stays, stays, calm)
        | inr (other, chosen) ↦
            let covered =
              (includes-Selects (assign labels pods) labels (assign-IsMap labels pods l p) l).1
                (λ key value found.
                  lookup-assign key labels pods
                  ∙ agreed key value found (Option-cases (lookup key pods))) in
            (
              merged,
              chosen,
              wanted-covered labels (assign labels pods) selector covered,
              stays,
              calm,
            )
      ]
    where
      agreed :
          (key value : String)
          → lookup key labels ≡ some value
          → (lookup key pods ≡ none) ⊎ ((w : String) × (lookup key pods ≡ some w))
          → ◌≡◌ {A = Option String}
              (elim (lookup key pods) [ some v ↦ some v | none ↦ lookup key labels ])
              (some value)
      agreed key value found (inl missing) = rw missing found
      agreed key value found (inr (w, running)) =
          rw running (ap some (sym (agree key value w found running)))

  -- A wanted label whose value differs from that of the pods is not applied, and not reported
  -- either: the selector stays, and the pods to come keep the old value.
  pub choose_labels-keeps_value :
      (key new_value old_value : String)
      → lookup key labels ≡ some new_value
      → lookup key pods ≡ some old_value
      → new_value ≢ old_value
      → (choose_labels labels pods selector ≡ some merged)
        × (lookup key (assign labels pods) ≡ some old_value)
  choose_labels-keeps_value key new_value old_value wanted running differ =
      elim choose_labels-cases [
        | inl (covered, chosen) ↦
            let same = (includes-Selects pods labels p l).0 covered key new_value wanted in
            absurd (differ (some_inj new_value old_value (sym same ∙ running)))
        | inr (other, chosen) ↦ (chosen, lookup-assign key labels pods ∙ rw running refl)
      ]
