-- ===== src/Config.antt =====
-- saka.go: the configuration and its validation. Rates are in thousandths of a request per second.
pub mod Valid
pub mod Load
mod Tests
use text.Mathlib.Text.{starts_with}
use saka.Base.{
  ℕ, suc, String, Bool, true, false, ◌||◌, not, Option, none, some, List, [], ◌∷◌, ℤ, pos, is_neg,
  exceeds, is_empty, str_eq, Dict, get, put, if◌then◌else◌,
}
use saka.Types.{ProviderConfig}
use saka.Types.Registry.{Registry}

pub record DiskCacheConfig : Type 0 where
  pub dir : String
  pub ttl_seconds : ℤ

pub record FetchConfig : Type 0 where
  pub rps : ℤ
  pub cache_ttl_seconds : ℤ
  pub respect_robots : Bool
  pub disk_cache : Option DiskCacheConfig

pub record Config : Type 0 where
  pub providers : List ProviderConfig
  pub fetch : FetchConfig

unfoldable pub default_config : Config
default_config = record {
  providers =
      record {
        name = "searxng";
        url = "http://localhost:8888";
        rps = pos 5000;
        retries = pos 2;
        vertical = "";
      }
      ∷ record { name = "duckduckgo"; url = ""; rps = pos 1000; retries = pos 2; vertical = "" }
      ∷ record { name = "startpage"; url = ""; rps = pos 200; retries = pos 1; vertical = "" }
      ∷ [];
  fetch = record {
    rps = pos 2000;
    cache_ttl_seconds = pos 3600;
    respect_robots = true;
    disk_cache = none;
  };
}

-- The messages of Validate; a number is the index of the provider.
pub data ConfigError : Type 0 where
  no_providers : ConfigError
  name_required : ℕ → ConfigError
  duplicate : ℕ → String → ConfigError
  reused : ℕ → String → String → String → ConfigError
  not_registered : ℕ → String → ConfigError
  url_required : ℕ → ConfigError
  bad_scheme : ℕ → ConfigError
  rps_range : ℕ → ℤ → ConfigError
  retries_range : ℕ → ℤ → ConfigError
  fetch_rps_range : ℤ → ConfigError
  negative_ttl : ConfigError

-- The checks of a provider after its name is entered in `seenVertical`.
unfoldable pub check_url : ℕ → ProviderConfig → Option ConfigError
check_url i p =
    if str_eq p.name "searxng"
    then if is_empty p.url
      then some (url_required i)
      else if not (starts_with p.url "http")
      then some (bad_scheme i)
      else none
    else none

unfoldable pub check_limits : ℕ → ProviderConfig → Option ConfigError
check_limits i p =
    if is_neg p.rps || exceeds 10000 p.rps
    then some (rps_range i p.rps)
    else if is_neg p.retries || exceeds 5 p.retries
    then some (retries_range i p.retries)
    else none

infixr 30 ◌<|>◌
abbrev pub ◌<|>◌ : Option ConfigError → Option ConfigError → Option ConfigError
some e <|> later = some e
none <|> later = later

unfoldable pub check_name : ℕ → Dict String → ProviderConfig → Option ConfigError
check_name i seen p = if is_empty p.name then some (name_required i) else elim (get seen p.name) [
  | some first ↦
      some
        (if str_eq first p.vertical then duplicate i p.name else reused i p.name first p.vertical)
  | none ↦ none
]

unfoldable pub check_registered : Registry → ℕ → ProviderConfig → Option ConfigError
check_registered registry i p = elim (get registry p.name) [
  | none ↦ some (not_registered i p.name)
  | some _ ↦ none
]

-- The loop of Validate from provider `i`, with the verticals seen so far by name.
unfoldable pub check_from : Registry → ℕ → Dict String → List ProviderConfig → Option ConfigError
check_from registry i seen [] = none
check_from registry i seen (p ∷ ps) =
    check_name i seen p
    <|> check_registered registry i p
    <|> check_url i p
    <|> check_limits i p
    <|> check_from registry (suc i) (put seen p.name p.vertical) ps

unfoldable pub check_fetch : FetchConfig → Option ConfigError
check_fetch f =
    if is_neg f.rps || exceeds 10000 f.rps
    then some (fetch_rps_range f.rps)
    else if is_neg f.cache_ttl_seconds
    then some negative_ttl
    else none

-- Validate: `none` is a nil error.
unfoldable pub validate : Registry → Config → Option ConfigError
validate registry c = elim c.providers [
  | [] ↦ some no_providers
  | p ∷ ps ↦ check_from registry 0 [] (p ∷ ps) <|> check_fetch c.fetch
]
