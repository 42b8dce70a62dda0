-- ===== src/Engine.antt =====
-- saka.go: the engine, with a chain of providers for each vertical and a fetcher. The order in
-- which New goes over the map of verticals is that in which the configuration names them first.
pub mod Names
pub mod Verticals
pub mod Answers
mod Tests
use Prim.Native.Char.{code}
use saka.Base.{
  ℕ, zero, suc, ◌+◌, ◌-◌, ◌<>◌, ◌*◌, ◌%◌, ◌^◌, ltb, Bool, true, false, not, ◌&&◌, String, Option,
  none, some, List, [], ◌∷◌, ◌++◌, map, ℤ, pos, negsuc, pos_part, ◌==◌, str_eq, is_empty, Dict, get,
  put, take, if◌then◌else◌,
}
use saka.World.{World}
use saka.Types.{
  second, Query, with_defaults, Result, Results, Error, no_vertical, Outcome, ok, err, Provider,
  ProviderConfig,
}
use saka.Types.Contract.{Flow, Ended, finished, broken, left}
use saka.Types.Registry.{Registry}
use saka.Config.{Config, ConfigError, DiskCacheConfig, validate}
use saka.Chain
use saka.Chain.{Entry}
use saka.Fetch
use saka.Fetch.{Fetcher, set_disk_cache}
use saka.Fetch.DiskCache.{DiskCache}

pub record Engine : Type 0 where
  pub chains : Dict (List Entry)
  pub fetcher : Fetcher

-- The errors of New.
pub data NewError : Type 0 where
  invalid : ConfigError → NewError
  unregistered : String → NewError
  failed_factory : String → Error → NewError
  no_directory : String → NewError

pub data Made {ℓ} (A : Type ℓ) : Type ℓ where
  made : A → Made A
  refused : NewError → Made A

-- The loop over the factories.
unfoldable pub instantiate : Registry → List ProviderConfig → Made (List Provider)
instantiate registry [] = made []
instantiate registry (pc ∷ pcs) =
    let later = instantiate registry pcs in
    elim (get registry pc.name) [
      | none ↦ refused (unregistered pc.name)
      | some factory ↦ elim (factory pc) [
        | err x ↦ refused (failed_factory pc.name x)
        | ok p ↦ elim later [ refused x ↦ refused x | made ps ↦ made (p ∷ ps) ]
      ]
    ]

-- `byVertical[pc.Vertical] = append(byVertical[pc.Vertical], pc)`
unfoldable pub add_config : Dict (List ProviderConfig) → ProviderConfig → Dict (List ProviderConfig)
add_config m pc =
    put m pc.vertical ((elim (get m pc.vertical) [ none ↦ [] | some cfgs ↦ cfgs ]) ++ pc ∷ [])

unfoldable pub group : Dict (List ProviderConfig) → List ProviderConfig → Dict (List ProviderConfig)
unfolding add_config
group m [] = m
group m (pc ∷ pcs) = group (add_config m pc) pcs

-- The chains of the verticals, built from event `k` on.
unfoldable pub build : World → List Provider → Dict (List ProviderConfig) → ℕ → Dict (List Entry)
build w ps [] k = []
build w ps (g ∷ gs) k =
    let (entries, k') = Chain.new w g.1 ps k in (g.0, entries) ∷ build w ps gs k'

-- An int64 with the bits of an integer.
unfoldable pub int64 : ℤ → ℤ
int64 (pos n) =
    let bits = n % 2 ^ 64 in if ltb bits (2 ^ 63) then pos bits else negsuc (2 ^ 64 - bits - 1)
int64 (negsuc n) =
    let bits = n % 2 ^ 64 in if ltb bits (2 ^ 63) then negsuc bits else pos (2 ^ 64 - bits - 1)

-- time.Duration(s) * time.Second, in nanoseconds.
unfoldable pub seconds : ℤ → ℤ
unfolding int64
seconds (pos n) = int64 (pos (n * second))
seconds (negsuc n) = int64 (negsuc (suc n * second - 1))

-- The time to live of a disk cache; 0 stands for a day.
unfoldable pub disk_ttl : ℤ → ℤ
unfolding seconds
disk_ttl ttl_seconds = elim (seconds ttl_seconds) [
  | pos n ↦ if n == 0 then pos (24 * 3600 * second) else pos n
  | negsuc n ↦ negsuc n
]

-- strings.ReplaceAll(dir, "~", home)
unfoldable pub expand : String → String → String
expand home String.[] = ""
expand home (String.◌∷◌ c s) =
    let rest = expand home s in if code c == 126 then home <> rest else String.◌∷◌ c rest

-- The world outside New: the home directory, "" where it is not known, and whether a directory
-- can be made.
pub record Place : Type 0 where
  pub home : String
  pub can_make : String → Bool

unfoldable pub attach : Place → Fetcher → DiskCacheConfig → Made Fetcher
unfolding expand disk_ttl
attach place f c =
    let dir = expand place.home c.dir in
    if is_empty c.dir
    then made f
    else if place.can_make dir
    then made (set_disk_cache f (record { dir = dir; ttl = disk_ttl c.ttl_seconds }))
    else refused (no_directory dir)

unfoldable pub with_disk : Place → Fetcher → Option DiskCacheConfig → Made Fetcher
unfolding attach
with_disk place f none = made f
with_disk place f (some c) = attach place f c

module _ (w : World) (place : Place) where
  -- New past the validation, from event `k`: the fetcher's limiter reads the clock first. A time
  -- to live that wraps to a negative one is 0: either way no page is answered from memory.
  unfoldable pub assemble : Registry → Config → ℕ → Made Engine
  unfolding with_disk build group
  assemble registry c k = elim (instantiate registry c.providers) [
    | refused x ↦ refused x
    | made ps ↦
        let f =
          Fetch.new c.fetch.rps (pos_part (seconds c.fetch.cache_ttl_seconds))
            c.fetch.respect_robots (w.clock k) in
        elim (with_disk place f c.fetch.disk_cache) [
          | refused x ↦ refused x
          | made f' ↦
              made (record { chains = build w ps (group [] c.providers) (suc k); fetcher = f' })
        ]
  ]

  -- New
  unfoldable pub new : Registry → Config → ℕ → Made Engine
  new registry c k = elim (validate registry c) [
    | some x ↦ refused (invalid x)
    | none ↦ assemble registry c k
  ]

-- How a search of the engine ends.
pub record Search : Type 0 where
  pub engine : Engine
  pub outcome : Chain.Searched
  pub event : ℕ

module _ (w : World) (fuel : ℕ) where
  -- Search, from event `k`: the chain's breakers and buckets are left in the engine.
  unfoldable pub search : Engine → Query → ℕ → Search
  unfolding with_defaults
  search e q k =
      let q' = with_defaults q in
      elim (get e.chains q'.vertical) [
        | none ↦ record { engine = e; outcome = Chain.failure (no_vertical q'.vertical); event = k }
        | some entries ↦
            let r = Chain.search w fuel q' entries k in
            record {
              engine = record e { chains = put e.chains q'.vertical r.entries };
              outcome = r.outcome;
              event = r.event;
            }
      ]

-- What the channels of SearchStream carry for a search that has ended; `cut` is the number of
-- items sent when the context is done, if it is done before the end.
unfoldable pub stream_outcome : Option ℕ → Chain.Searched → Flow Result Results
stream_outcome cut (Chain.success res) = elim cut [
  | none ↦ record { items = res.results; ended = finished res }
  | some n ↦ record { items = take n res.results; ended = left }
]
stream_outcome cut (Chain.failure x) = record { items = []; ended = broken x }
stream_outcome cut Chain.hangs = record { items = []; ended = left }
