-- ===== src/Prelude/Sorting/Laws.antt =====
-- Sorting by key keeps the map, and yields one list for each map.
use Prim.Native.Nat.{◌<◌}
use Prim.Native.Char.{Char, code}
use Prim.Native.String.{String}
use text.Mathlib.TextEquality.{Char-path}
use mathlib.Core.Path.{◌≡◌, refl, sym, ap, ◌∙◌, subst}
use mathlib.Core.Logic.{◌⊎◌, inl, inr}
use mathlib.Core.Bool.{true, false}
use mathlib.Core.Option.{none, some}
use mathlib.Core.List.{List, [], ◌∷◌, ◌++◌}
use native.Mathlib.Omega.{arith}
use cluster_api_provider_hos.Prelude.Tests.{if◌then◌else◌, ltb, Bool-cases}
use cluster_api_provider_hos.Prelude.Equality.{◌==◌, string_eq, beq_refl, not_equal, some_inj}
use cluster_api_provider_hos.Prelude.Sorting.{text_less, lookup, insert, sort_by_key, Below}

pub text_less_irrefl : (s : String) → text_less s s ≡ false
unfolding text_less
text_less_irrefl String.[] = refl
text_less_irrefl (String.◌∷◌ c s) = elim (Bool-cases (ltb (code c) (code c))) [
  | inl e ↦ absurd (ground (arith, e))
  | inr e ↦ rw e (text_less_irrefl s)
]

cons_same : (c d : Char) (s t : String) → code c ≡ code d → s ≡ t → String.◌∷◌ c s ≡ String.◌∷◌ d t
cons_same c d s t p q = λ i. String.◌∷◌ (Char-path c d p i) (q i)

pub text_less_connex : (s t : String) → text_less s t ≡ false → text_less t s ≡ false → s ≡ t
unfolding text_less
text_less_connex String.[] String.[] h k = refl
text_less_connex String.[] (String.◌∷◌ d t) h k = cc
text_less_connex (String.◌∷◌ c s) String.[] h k = cc
text_less_connex (String.◌∷◌ c s) (String.◌∷◌ d t) h k = elim (Bool-cases (ltb (code c) (code d))) [
  | inl e ↦ absurd (cc (rw e at h))
  | inr e ↦ elim (Bool-cases (ltb (code d) (code c))) [
    | inl f ↦ absurd (cc (rw f at k))
    | inr f ↦
        cons_same c d s t (ground (arith, e, f))
          (text_less_connex s t (rw f at (rw e at h)) (rw e at (rw f at k)))
  ]
]

cons-cases :
    (c d : Char) (s t : String)
    → text_less (String.◌∷◌ c s) (String.◌∷◌ d t) ≡ true
    → (code c < code d) ⊎ ((code c ≡ code d) × (text_less s t ≡ true))
unfolding text_less
cons-cases c d s t h = elim (Bool-cases (ltb (code c) (code d))) [
  | inl e ↦ inl (ground (arith, e))
  | inr e ↦ elim (Bool-cases (ltb (code d) (code c))) [
    | inl f ↦ absurd (cc (rw f at (rw e at h)))
    | inr f ↦ inr (ground (arith, e, f), rw f at (rw e at h))
  ]
]

cons_less :
    (c d : Char) (s t : String)
    → (code c < code d) ⊎ ((code c ≡ code d) × (text_less s t ≡ true))
    → text_less (String.◌∷◌ c s) (String.◌∷◌ d t) ≡ true
unfolding text_less
cons_less c d s t (inl l) = ground (arith, l)
cons_less c d s t (inr (e, r)) = ground (arith, e, r)

pub text_less_trans :
    (s t u : String) → text_less s t ≡ true → text_less t u ≡ true → text_less s u ≡ true
unfolding text_less
text_less_trans String.[] String.[] u h k = cc
text_less_trans String.[] (String.◌∷◌ d t) String.[] h k = cc
text_less_trans String.[] (String.◌∷◌ d t) (String.◌∷◌ e u) h k = refl
text_less_trans (String.◌∷◌ c s) String.[] u h k = cc
text_less_trans (String.◌∷◌ c s) (String.◌∷◌ d t) String.[] h k = cc
text_less_trans (String.◌∷◌ c s) (String.◌∷◌ d t) (String.◌∷◌ e u) h k =
    cons_less c e s u (elim (cons-cases c d s t h) [
      | inl l ↦ elim (cons-cases d e t u k) [
        | inl m ↦ inl (omega arith)
        | inr (q, m) ↦ inl (omega arith)
      ]
      | inr (p, l) ↦ elim (cons-cases d e t u k) [
        | inl m ↦ inl (omega arith)
        | inr (q, m) ↦ inr (p ∙ q, text_less_trans s t u l m)
      ]
    ])

pub less-differ : (s t : String) → text_less s t ≡ true → (s == t) ≡ false
less-differ s t h =
    not_equal s t (λ p. cc (subst (λ u. text_less s u ≡ true) (sym p) h, text_less_irrefl s))

not-less : (s t : String) → text_less s t ≡ false → (s == t) ≡ false → text_less t s ≡ true
not-less s t h d = elim (Bool-cases (text_less t s)) [
  | inl e ↦ e
  | inr e ↦ absurd (cc ((string_eq.beq_iff s t).1 (text_less_connex s t h e), d))
]

module _ {ℓ} {V : Type ℓ} where
  -- Each key is below the ones behind it.
  abbrev pub Ascending : List (String × V) → Type 0
  Ascending [] = Unit
  Ascending (e ∷ es) = Below e.0 es × Ascending es

  lookup-insert :
      (k : String) (e : String × V) (es : List (String × V))
      → lookup k (insert e es) ≡ (if e.0 == k then some e.1 else lookup k es)
  unfolding lookup insert
  lookup-insert k e [] = refl
  lookup-insert k e (f ∷ fs) = elim (Bool-cases (text_less f.0 e.0)) [
    | inl before ↦ rw before (elim (Bool-cases (f.0 == k)) [
      | inl hit ↦ rw hit (
          rw
            (subst (λ u. (e.0 == u) ≡ false) ((string_eq.beq_iff f.0 k).0 hit)
              (not_equal e.0 f.0
                (λ p. cc (less-differ f.0 e.0 before, (string_eq.beq_iff f.0 e.0).1 (sym p)))))
            refl)
      | inr miss ↦ rw miss (lookup-insert k e fs)
    ])
    | inr after ↦ rw after refl
  ]

  pub lookup-sort_by_key :
      (k : String) (es : List (String × V)) → lookup k (sort_by_key es) ≡ lookup k es
  unfolding lookup sort_by_key
  lookup-sort_by_key k [] = refl
  lookup-sort_by_key k (e ∷ es) =
      lookup-insert k e (sort_by_key es) ∙ rw (lookup-sort_by_key k es) refl

  Below-trans :
      (k m : String) (es : List (String × V)) → text_less k m ≡ true → Below m es → Below k es
  Below-trans k m [] h b = tt
  Below-trans k m (e ∷ es) h b = (text_less_trans k m e.0 h b.0, Below-trans k m es h b.1)

  Below-insert :
      (k : String) (e : String × V) (es : List (String × V))
      → text_less k e.0 ≡ true
      → Below k es
      → Below k (insert e es)
  unfolding insert
  Below-insert k e [] h b = (h, tt)
  Below-insert k e (f ∷ fs) h b = elim (Bool-cases (text_less f.0 e.0)) [
    | inl before ↦ rw before (b.0, Below-insert k e fs h b.1)
    | inr after ↦ rw after (h, b)
  ]

  pub lookup-none :
      (k : String) (f : String × V) (fs : List (String × V))
      → lookup k (f ∷ fs) ≡ none
      → ((f.0 == k) ≡ false) × (lookup k fs ≡ none)
  unfolding lookup
  lookup-none k f fs h = elim (Bool-cases (f.0 == k)) [
    | inl e ↦ absurd (cc (rw e at h))
    | inr e ↦ (e, rw e at h)
  ]

  insert-Ascending :
      (e : String × V) (es : List (String × V))
      → lookup e.0 es ≡ none
      → Ascending es
      → Ascending (insert e es)
  unfolding insert lookup
  insert-Ascending e [] h a = (tt, tt)
  insert-Ascending e (f ∷ fs) h a =
      let (differ, absent) = lookup-none e.0 f fs h in
      elim (Bool-cases (text_less f.0 e.0)) [
        | inl before ↦
            rw before (Below-insert f.0 e fs before a.0, insert-Ascending e fs absent a.1)
        | inr after ↦
            let less = not-less f.0 e.0 after differ in
            rw after ((less, Below-trans e.0 f.0 fs less a.0), a)
      ]

  -- A map: no key stands twice.
  abbrev pub IsMap : List (String × V) → Type ℓ
  IsMap [] = Unit
  IsMap (e ∷ es) = (lookup e.0 es ≡ none) × IsMap es

  pub sort_by_key-Ascending : (es : List (String × V)) → IsMap es → Ascending (sort_by_key es)
  unfolding sort_by_key
  sort_by_key-Ascending [] m = tt
  sort_by_key-Ascending (e ∷ es) m =
      insert-Ascending e (sort_by_key es) (lookup-sort_by_key e.0 es ∙ m.0)
        (sort_by_key-Ascending es m.1)

  lookup-Below : (k : String) (es : List (String × V)) → Below k es → lookup k es ≡ none
  unfolding lookup
  lookup-Below k [] b = refl
  lookup-Below k (e ∷ es) b =
      rw (not_equal e.0 k (λ p. cc (less-differ k e.0 b.0, (string_eq.beq_iff k e.0).1 (sym p))))
        (lookup-Below k es b.1)

  lookup_self : (e : String × V) (es : List (String × V)) → lookup e.0 (e ∷ es) ≡ some e.1
  unfolding lookup
  lookup_self e es = rw (beq_refl e.0) refl

  not_smaller :
      (e f : String × V) (es fs : List (String × V))
      → Ascending (f ∷ fs)
      → lookup e.0 (e ∷ es) ≡ lookup e.0 (f ∷ fs)
      → text_less e.0 f.0 ≡ false
  not_smaller e f es fs b h = elim (Bool-cases (text_less e.0 f.0)) [
    | inl less ↦ absurd (
        cc (lookup_self e es, h, lookup-Below e.0 (f ∷ fs) (less, Below-trans e.0 f.0 fs less b.0)))
    | inr larger ↦ larger
  ]

  lookup-tail :
      (k : String) (e f : String × V) (es fs : List (String × V))
      → e.0 ≡ f.0
      → Below e.0 es
      → Below f.0 fs
      → lookup k (e ∷ es) ≡ lookup k (f ∷ fs)
      → lookup k es ≡ lookup k fs
  unfolding lookup
  lookup-tail k e f es fs p a b h = elim (Bool-cases (e.0 == k)) [
    | inl hit ↦
        let q = (string_eq.beq_iff e.0 k).0 hit in
        lookup-Below k es (subst (λ u. Below u es) q a)
        ∙ sym (lookup-Below k fs (subst (λ u. Below u fs) (sym p ∙ q) b))
    | inr miss ↦ (rw (subst (λ u. (u == k) ≡ false) p miss) at (rw miss at h))
  ]

  -- Two ascending lists that give the same map are the same list.
  pub Ascending-unique :
      (es fs : List (String × V))
      → Ascending es
      → Ascending fs
      → ((k : String) → lookup k es ≡ lookup k fs)
      → es ≡ fs
  Ascending-unique [] [] a b h = refl
  Ascending-unique [] (f ∷ fs) a b h = absurd (cc (h f.0, lookup_self f fs, lookup-Below f.0 [] tt))
  Ascending-unique (e ∷ es) [] a b h = absurd (cc (h e.0, lookup_self e es, lookup-Below e.0 [] tt))
  Ascending-unique (e ∷ es) (f ∷ fs) a b h =
      let keys =
        text_less_connex e.0 f.0 (not_smaller e f es fs b (h e.0))
          (not_smaller f e fs es a (sym (h f.0))) in
      let value =
        some_inj e.1 f.1
          (sym (lookup_self e es) ∙ h e.0 ∙ ap (λ k. lookup k (f ∷ fs)) keys ∙ lookup_self f fs) in
      let rest = Ascending-unique es fs a.1 b.1 (λ k. lookup-tail k e f es fs keys a.0 b.0 (h k)) in
      λ i. (keys i, value i) ∷ rest i

  pub lookup-append :
      (k : String) (es fs : List (String × V))
      → lookup k (es ++ fs) ≡ elim (lookup k es) [ some v ↦ some v | none ↦ lookup k fs ]
  unfolding lookup
  lookup-append k [] fs = refl
  lookup-append k (e ∷ es) fs = elim (Bool-cases (e.0 == k)) [
    | inl hit ↦ rw hit refl
    | inr miss ↦ rw miss (lookup-append k es fs)
  ]
