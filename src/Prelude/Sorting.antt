-- ===== src/Prelude/Sorting.antt =====
-- Maps with text keys as association lists, and their entries sorted by key: the order is that of
-- Go's strings, on the codes of the characters.
pub mod Laws
pub mod Assign
use Prim.Native.Char.{code}
use Prim.Native.String.{String}
use mathlib.Core.Path.{◌≡◌}
use mathlib.Core.Bool.{Bool, true, false, not}
use mathlib.Core.Option.{Option, none, some}
use mathlib.Core.List.{List, [], ◌∷◌, ◌++◌}
use cluster_api_provider_hos.Prelude.Tests.{if◌then◌else◌, ltb}
use cluster_api_provider_hos.Prelude.Lists.{All, filter, some_by}
use cluster_api_provider_hos.Prelude.Equality.{◌==◌, string_eq}

-- `cmp.Compare(s, t) < 0`.
unfoldable pub text_less : String → String → Bool
text_less String.[] String.[] = false
text_less String.[] (String.◌∷◌ d t) = true
text_less (String.◌∷◌ c s) String.[] = false
text_less (String.◌∷◌ c s) (String.◌∷◌ d t) =
    let rest = text_less s t in
    if ltb (code c) (code d) then true else if ltb (code d) (code c) then false else rest

module _ {ℓ} {V : Type ℓ} where
  unfoldable pub lookup : String → List (String × V) → Option V
  lookup k [] = none
  lookup k (e ∷ es) = let rest = lookup k es in if e.0 == k then some e.1 else rest

  unfoldable pub insert : String × V → List (String × V) → List (String × V)
  insert e [] = e ∷ []
  insert e (f ∷ fs) = let rest = insert e fs in if text_less f.0 e.0 then f ∷ rest else e ∷ f ∷ fs

  -- `slices.SortFunc` by the keys, where each key stands once.
  unfoldable pub sort_by_key : List (String × V) → List (String × V)
  sort_by_key [] = []
  sort_by_key (e ∷ es) = insert e (sort_by_key es)

  -- `slices.Assign(a, b)` of samber/lo: the entries of `b` win.
  unfoldable pub assign : List (String × V) → List (String × V) → List (String × V)
  assign a b = b ++ filter (λ e. not (some_by (λ (f : String × V). f.0 == e.0) b)) a

  abbrev pub Below : String → List (String × V) → Type 0
  Below k es = All (λ (e : String × V). text_less k e.0 ≡ true) es

-- `sort.Strings`.
unfoldable pub insert_text : String → List String → List String
insert_text s [] = s ∷ []
insert_text s (t ∷ ts) =
    let rest = insert_text s ts in if text_less t s then t ∷ rest else s ∷ t ∷ ts

unfoldable pub sort_texts : List String → List String
sort_texts [] = []
sort_texts (s ∷ ss) = insert_text s (sort_texts ss)
