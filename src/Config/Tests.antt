-- ===== src/Config/Tests.antt =====
-- Tests of the validation in saka.go and an instance of its theorem.
use saka.Base.{◌≡◌, refl, ◌↔◌, [], ◌∷◌, none, some, pos, false, get, put}
use saka.Types.{ok, err, status}
use saka.Types.Registry.{Registry, ProviderFactory}
use saka.Config.{
  Config, default_config, validate, check_from, check_name, check_registered, check_url,
  check_limits, check_fetch, reused,
}
use saka.Config.Valid.{IsValid, validate_iff}
use saka.Config.Load.{Document, loaded, load_config}

abbrev factory : ProviderFactory
factory cfg = ok (record { name = cfg.name; search = λ k q. err (status "a" 500) })

abbrev registry : Registry
registry = ("searxng", factory) ∷ ("duckduckgo", factory) ∷ ("startpage", factory) ∷ []

accepts : validate registry default_config ≡ none
unfolding validate default_config check_from check_name get check_registered check_url check_limits
    put check_fetch
accepts = refl

-- One provider for two verticals is refused.
abbrev doubled : Config
doubled = record {
  providers =
      record { name = "duckduckgo"; url = ""; rps = pos 1; retries = pos 0; vertical = "" }
      ∷ record { name = "duckduckgo"; url = ""; rps = pos 1; retries = pos 0; vertical = "news" }
      ∷ [];
  fetch = record {
    rps = pos 1;
    cache_ttl_seconds = pos 1;
    respect_robots = false;
    disk_cache = none;
  };
}

refuses : validate registry doubled ≡ some (reused 1 "duckduckgo" "" "news")
unfolding validate check_from check_name get check_registered check_url check_limits put
refuses = refl

validate_iff_example : (validate registry default_config ≡ none) ↔ IsValid registry default_config
validate_iff_example = validate_iff registry default_config

-- A file with one provider, which sets nothing but its name: it is asked five times a second at
-- the address of the default's first provider.
abbrev lone : Document
lone = record {
  providers = some (
      record { name = some "duckduckgo"; url = none; rps = none; retries = none; vertical = none }
      ∷ []);
  fetch = none;
}

inherits :
    load_config registry (λ path. some "") (λ text. some lone) "saka.json"
    ≡ loaded (record default_config {
      providers =
          record {
            name = "duckduckgo";
            url = "http://localhost:8888";
            rps = pos 5000;
            retries = pos 2;
            vertical = "";
          }
          ∷ [];
    })
unfolding load_config validate default_config check_from check_name
    saka.Config.Load.overlay_provider get check_registered check_url check_limits check_fetch
inherits = refl
