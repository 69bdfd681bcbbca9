-- ===== src/Prelude/Sorting/Assign.antt =====
-- What `assign` gives: the entries of the second map win, and the result is a map.
use Prim.Native.String.{String}
use mathlib.Core.Path.{◌≡◌, refl, sym, ap, ◌∙◌, subst}
use mathlib.Core.Logic.{inl, inr}
use mathlib.Core.Bool.{Bool, true, false, not}
use mathlib.Core.Option.{none, some}
use mathlib.Core.List.{List, [], ◌∷◌, ◌++◌}
use cluster_api_provider_hos.Prelude.Tests.{Bool-cases, Option-cases}
use cluster_api_provider_hos.Prelude.Lists.{filter, some_by}
use cluster_api_provider_hos.Prelude.Equality.{◌==◌, string_eq, beq_refl, not_equal}
use cluster_api_provider_hos.Prelude.Sorting.{lookup, assign}
use cluster_api_provider_hos.Prelude.Sorting.Laws.{IsMap, lookup-append, lookup-none}

module _ {ℓ} {V : Type ℓ} where
  has_key : String → List (String × V) → Bool
  has_key k b = some_by (λ (f : String × V). f.0 == k) b

  has_key-none : (k : String) (b : List (String × V)) → lookup k b ≡ none → has_key k b ≡ false
  unfolding has_key some_by
  has_key-none k [] h = refl
  has_key-none k (f ∷ fs) h =
      let (miss, rest) = lookup-none k f fs h in rw miss (has_key-none k fs rest)

  has_key-some :
      (k : String) (v : V) (b : List (String × V)) → lookup k b ≡ some v → has_key k b ≡ true
  unfolding has_key some_by lookup
  has_key-some k v [] h = cc
  has_key-some k v (f ∷ fs) h = elim (Bool-cases (f.0 == k)) [
    | inl hit ↦ rw hit refl
    | inr miss ↦ rw miss (has_key-some k v fs (rw miss at h))
  ]

  abbrev others : List (String × V) → List (String × V) → List (String × V)
  others b a = filter (λ e. not (some_by (λ (f : String × V). f.0 == e.0) b)) a

  -- A key that `b` lacks is looked up in `a`.
  lookup-others :
      (k : String) (b a : List (String × V))
      → has_key k b ≡ false
      → lookup k (others b a) ≡ lookup k a
  unfolding lookup filter has_key
  lookup-others k b [] h = refl
  lookup-others k b (e ∷ es) h = elim (Bool-cases (e.0 == k)) [
    | inl hit ↦
        let kept = subst (λ u. has_key u b ≡ false) (sym ((string_eq.beq_iff e.0 k).0 hit)) h in
        rw kept (rw hit refl)
    | inr miss ↦ elim (Bool-cases (has_key e.0 b)) [
      | inl taken ↦ rw taken (rw miss (lookup-others k b es h))
      | inr kept ↦ rw kept (rw miss (lookup-others k b es h))
    ]
  ]

  -- The entries of `b` win.
  pub lookup-assign :
      (k : String) (a b : List (String × V))
      → lookup k (assign a b) ≡ elim (lookup k b) [ some v ↦ some v | none ↦ lookup k a ]
  unfolding assign
  lookup-assign k a b = lookup-append k b (others b a) ∙ elim (Option-cases (lookup k b)) [
    | inl missing ↦ rw missing (lookup-others k b a (has_key-none k b missing))
    | inr (v, found) ↦ rw found refl
  ]

  others-none :
      (k : String) (b a : List (String × V)) → lookup k a ≡ none → lookup k (others b a) ≡ none
  unfolding lookup filter has_key
  others-none k b [] h = refl
  others-none k b (e ∷ es) h =
      let (miss, rest) = lookup-none k e es h in
      elim (Bool-cases (has_key e.0 b)) [
        | inl taken ↦ rw taken (others-none k b es rest)
        | inr kept ↦ rw kept (rw miss (others-none k b es rest))
      ]

  others-taken :
      (k : String) (b a : List (String × V)) → has_key k b ≡ true → lookup k (others b a) ≡ none
  unfolding lookup filter has_key
  others-taken k b [] h = refl
  others-taken k b (e ∷ es) h = elim (Bool-cases (has_key e.0 b)) [
    | inl taken ↦ rw taken (others-taken k b es h)
    | inr kept ↦
        let differ = not_equal e.0 k (λ p. cc (kept, h, ap (λ u. has_key u b) p)) in
        rw kept (rw differ (others-taken k b es h))
  ]

  others-IsMap : (b a : List (String × V)) → IsMap a → IsMap (others b a)
  unfolding filter has_key
  others-IsMap b [] m = tt
  others-IsMap b (e ∷ es) m = elim (Bool-cases (has_key e.0 b)) [
    | inl taken ↦ rw taken (others-IsMap b es m.1)
    | inr kept ↦ rw kept (others-none e.0 b es m.0, others-IsMap b es m.1)
  ]

  append-IsMap :
      (es fs : List (String × V))
      → IsMap es
      → IsMap fs
      → ((k : String) → has_key k es ≡ true → lookup k fs ≡ none)
      → IsMap (es ++ fs)
  unfolding has_key some_by
  append-IsMap [] fs m n h = n
  append-IsMap (e ∷ es) fs m n h = (
    lookup-append e.0 es fs ∙ rw (m.0) (h e.0 (rw (beq_refl e.0) refl)),
    append-IsMap es fs m.1 n (λ k p.
        h k (elim (Bool-cases (e.0 == k)) [ inl hit ↦ rw hit refl | inr miss ↦ rw miss p ])),
  )

  pub assign-IsMap : (a b : List (String × V)) → IsMap a → IsMap b → IsMap (assign a b)
  unfolding assign
  assign-IsMap a b m n =
      append-IsMap b (others b a) n (others-IsMap b a m) (λ k h. others-taken k b a h)
