-- ===== src/Types/Registry.antt =====
-- types/registry.go: the provider registry, as the map that the package variable holds. Each
-- function takes the lock for its whole body, so a call is one step.
use Prim.Native.Nat.{Ordering}
use Prim.Native.String.{compare}
use saka.Base.{String, List, [], ◌∷◌, map, Option, none, some, Dict, get, put}
use saka.Types.{Outcome, Provider, ProviderConfig}

abbrev pub ProviderFactory : Type 0
ProviderFactory = ProviderConfig → Outcome Provider

abbrev pub Registry : Type 0
Registry = Dict ProviderFactory

pub data Registered : Type 0 where
  added : Registry → Registered
  nil_factory : String → Registered
  already_registered : String → Registered

-- Register; a nil factory is `none`.
unfoldable pub register : String → Option ProviderFactory → Registry → Registered
register name none r = nil_factory name
register name (some factory) r = elim (get r name) [
  | some _ ↦ already_registered name
  | none ↦ added (put r name factory)
]

-- sort.Strings
insert_sorted : String → List String → List String
insert_sorted s [] = s ∷ []
insert_sorted s (t ∷ ts) = elim (compare s t) [
  | Ordering.gt ↦ t ∷ insert_sorted s ts
  | _ ↦ s ∷ t ∷ ts
]

sort_strings : List String → List String
unfolding insert_sorted
sort_strings [] = []
sort_strings (s ∷ ss) = insert_sorted s (sort_strings ss)

unfoldable pub registered : Registry → List String
unfolding sort_strings
registered r = sort_strings (map (λ e. e.0) r)
