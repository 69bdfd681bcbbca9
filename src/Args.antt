-- ===== src/Args.antt =====
-- pkg/operator/util/args.go: the command line of a component, of the user's arguments and the
-- controller's. A Go map is an association list; the order in which Go walks it is not fixed.
pub mod Laws
use cluster_api_provider_hos.Prelude.{
  ℕ, ◌<◌, String, Option, List, [], ◌∷◌, arith, ◌==◌, string_eq, nat_eq, Eq, option_eq,
  if◌then◌else◌, ◌<>◌, deref,
}
use cluster_api_provider_hos.Prelude.{flat_map}
use cluster_api_provider_hos.Prelude.Sorting.{assign, sort_by_key}

pub record ArgOption : Type 0 where
  pub prefix : Option String
  pub delimiter : Option String

-- The arguments of one entry.
unfoldable pub render : String → String → String × String → List String
render prefix joiner (key, value) =
    if joiner == " " then (prefix <> key) ∷ value ∷ [] else (prefix <> key <> joiner <> value) ∷ []

unfoldable pub sorted_args :
    List (String × String) → List (String × String) → List (String × String)
sorted_args user_args controller_args = sort_by_key (assign user_args controller_args)

-- `argsToSlice`; `ArgsToSlice` adds events for the overridden arguments.
unfoldable pub args_to_slice :
    List (String × String) → List (String × String) → ArgOption → List String
unfolding sorted_args render flat_map
args_to_slice user_args controller_args opts =
    let prefix = deref opts.prefix "--" in
    let joiner = deref opts.delimiter "=" in
    flat_map (render prefix joiner) (sorted_args user_args controller_args)
