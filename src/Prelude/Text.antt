-- ===== src/Prelude/Text.antt =====
-- Texts: Go's `+` on strings, and the functions of its package `strings` that the code calls.
use Prim.Native.Char.{Char, code}
use Prim.Native.Nat.{ℕ, zero, suc, ◌/◌, ◌%◌}
use Prim.Native.String.{String, ◌++◌}
use mathlib.Core.Bool.{Bool}
use mathlib.Core.List.{List, [], ◌∷◌}
use text.Mathlib.Text.{starts_with}
use cluster_api_provider_hos.Prelude.Tests.{if◌then◌else◌, ltb}
use cluster_api_provider_hos.Prelude.Equality.{nat_beq}

infixr 65 ◌<>◌
abbrev pub ◌<>◌ : String → String → String
s <> t = s ++ t

-- `strings.HasPrefix`.
abbrev pub has_prefix : String → String → Bool
has_prefix s p = starts_with s p

abbrev pub in_front : Char → List String → List String
in_front c [] = (String.◌∷◌ c String.[]) ∷ []
in_front c (s ∷ ss) = (String.◌∷◌ c s) ∷ ss

-- `strings.Split(s, sep)` for a separator of one character.
unfoldable pub split : ℕ → String → List String
split sep String.[] = "" ∷ []
split sep (String.◌∷◌ c s) =
    let rest = split sep s in if nat_beq (code c) sep then "" ∷ rest else in_front c rest

-- `strings.Join`.
unfoldable pub join_with : String → List String → String
join_with sep [] = ""
join_with sep (s ∷ []) = s
join_with sep (s ∷ t ∷ ss) = s ++ sep ++ join_with sep (t ∷ ss)

-- `strings.ReplaceAll(s, " ", "_")`.
unfoldable pub underscored : String → String
underscored String.[] = ""
underscored (String.◌∷◌ c s) =
    let rest = underscored s in if nat_beq (code c) 32 then "_" ++ rest else String.◌∷◌ c rest

abbrev pub digit : ℕ → String
digit zero = "0"
digit (suc zero) = "1"
digit (suc (suc zero)) = "2"
digit (suc (suc (suc zero))) = "3"
digit (suc (suc (suc (suc zero)))) = "4"
digit (suc (suc (suc (suc (suc zero))))) = "5"
digit (suc (suc (suc (suc (suc (suc zero)))))) = "6"
digit (suc (suc (suc (suc (suc (suc (suc zero))))))) = "7"
digit (suc (suc (suc (suc (suc (suc (suc (suc zero)))))))) = "8"
digit _ = "9"

-- Decimal digits, with one more unit of fuel than there are digits; a number has at most as many
-- digits as its value, or one.
unfoldable pub decimal_from : ℕ → ℕ → String
decimal_from zero n = ""
decimal_from (suc fuel) n =
    let rest = decimal_from fuel (n / 10) in if ltb n 10 then digit n else rest ++ digit (n % 10)

-- `%d`.
unfoldable pub decimal : ℕ → String
unfolding decimal_from
decimal n = decimal_from (suc n) n
