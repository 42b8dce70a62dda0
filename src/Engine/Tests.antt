-- ===== src/Engine/Tests.antt =====
-- Tests of the engine of saka.go and an instance of its theorem.
use saka.Base.{
  ◌≡◌, refl, [], ◌∷◌, none, some, pos, false, true, get, put, arith, Bool-cases, Option, inl, inr,
  ap, ◌∙◌, str_eq, Bool,
}
use saka.World.{settled}
use saka.Html.{Node, node, nil, cons, element, text}
use saka.Chain.{Searched, success, failure, hangs}
use saka.Types.{Query, with_defaults, Provider, ProviderConfig, Outcome, ok, err, status}
use saka.Types.Registry.{Registry, ProviderFactory}
use saka.Config.{Config}
use saka.Fetch
use saka.Engine.{Engine, Made, made, refused, Place, new, search}
use saka.Engine.Names.{AreNamed}
use saka.Engine.Answers.{AnswerFits, searched, search-AnswerFits}
use saka.Provider.{Web}
use saka.Provider.Builtin.{Outside, inits}
use saka.Engine.Verticals.{HoldsVertical, new-HoldsVertical}

abbrev factory : ProviderFactory
factory c = ok (record { name = c.name; search = λ k q. err (status c.name 500) })

abbrev registry : Registry
registry = ("duckduckgo", factory) ∷ ("gdelt", factory) ∷ []

abbrev config : Config
config = record {
  providers =
      record { name = "duckduckgo"; url = ""; rps = pos 1000; retries = pos 0; vertical = "" }
      ∷ record { name = "gdelt"; url = ""; rps = pos 1000; retries = pos 0; vertical = "news" }
      ∷ [];
  fetch = record {
    rps = pos 1000;
    cache_ttl_seconds = pos 60;
    respect_robots = true;
    disk_cache = none;
  };
}

abbrev place : Place
place = record { home = "/root"; can_make = λ d. true }

abbrev ask_factory : ProviderConfig → Option ProviderFactory → Outcome Provider
ask_factory c none = err (status "" 0)
ask_factory c (some f) = f c

names_it :
    (c : ProviderConfig) (f : ProviderFactory) (p : Provider)
    → some factory ≡ some f
    → f c ≡ ok p
    → p.name ≡ c.name
names_it c f p same made_ =
    let e : factory c ≡ ok p = ap (ask_factory c) same ∙ made_ in ground arith

registry-AreNamed : AreNamed registry
unfolding get
registry-AreNamed c f p known made_ = elim (Bool-cases (str_eq "duckduckgo" c.name)) [
  | inl e ↦ names_it c f p (rw e at known) made_
  | inr e ↦ elim (Bool-cases (str_eq "gdelt" c.name)) [
    | inl e' ↦ names_it c f p (rw (e, e') at known) made_
    | inr e' ↦ absurd (ground arith)
  ]
]

abbrev engine : Engine
engine = elim (new settled place registry config 0) [
  | made e ↦ e
  | refused x ↦ record { chains = []; fetcher = Fetch.new (pos 0) 0 false 0 }
]

is_made : new settled place registry config 0 ≡ made engine
unfolding new saka.Config.validate saka.Config.check_from saka.Config.check_name get
    saka.Config.check_registered saka.Config.check_url saka.Config.check_limits put
    saka.Config.check_fetch saka.Engine.assemble saka.Engine.instantiate
is_made = refl

new-HoldsVertical_example : HoldsVertical config engine "news"
new-HoldsVertical_example =
    new-HoldsVertical settled place registry config 0 engine "news" registry-AreNamed is_made

abbrev web : Web
web = record {
  encode = λ form. "";
  is_request = λ address. true;
  client = λ address form. some (record { status_code = 200; body = "" });
}

-- A page with one result.
abbrev page : Node
page =
    node element "a"
      (record { key = "class"; val = "result__a" }
        ∷ record { key = "href"; val = "https://go.dev" }
        ∷ [])
      (cons (node text "Go" [] nil) nil)

abbrev outside : Outside
outside = record {
  web = λ k. web;
  web_items = λ s. none;
  image_items = λ s. none;
  articles = λ s. none;
  document = λ s. some page;
  urls = record { uddg = λ s. none; unescape = λ s. none };
  atoi = λ s. none;
}

abbrev real_engine : Engine
real_engine = elim (new settled place (inits outside) config 0) [
  | made e ↦ e
  | refused x ↦ record { chains = []; fetcher = Fetch.new (pos 0) 0 false 0 }
]

is_real : new settled place (inits outside) config 0 ≡ made real_engine
unfolding new saka.Config.validate saka.Config.check_from saka.Config.check_name get
    saka.Config.check_registered saka.Config.check_url saka.Config.check_limits put
    saka.Config.check_fetch saka.Engine.assemble saka.Engine.instantiate
    saka.Provider.Builtin.duckduckgo_factory saka.Provider.Builtin.gdelt_factory
is_real = refl

abbrev go : Query
go = record {
  text = "go";
  max_results = pos 0;
  region = "";
  safe_search = false;
  site = "";
  vertical = "";
}

abbrev is_success : Searched → Bool
is_success (success r) = true
is_success (failure x) = false
is_success hangs = false

-- The engine answers it, also after an earlier search.
answered :
    is_success (search settled 3 (searched settled 3 real_engine ((go, 5) ∷ [])) go 9).outcome
    ≡ true
unfolding search get put new saka.Config.validate saka.Config.check_from saka.Config.check_name
    saka.Config.check_registered saka.Config.check_url saka.Config.check_limits
    saka.Config.check_fetch saka.Engine.assemble saka.Engine.instantiate
    saka.Provider.Builtin.duckduckgo_factory saka.Provider.Builtin.gdelt_factory saka.Chain.search
    saka.Chain.new saka.Chain.entries_for saka.Chain.entry_for saka.Chain.round saka.Chain.try_entry
    saka.RateLimit.new saka.RateLimit.take_token saka.RateLimit.wait saka.Html.has_class
    saka.Html.text_of saka.Html.walk saka.Provider.Duckduckgo.search_ddg
    saka.Provider.Duckduckgo.parse_results saka.Provider.ask saka.Provider.check_status
    saka.Strings.contains saka.Strings.has_prefix saka.Strings.fields saka.Strings.trim_space
    with_defaults
answered = refl

search-AnswerFits_example :
    AnswerFits
      (with_defaults go)
      (search settled 3 (searched settled 3 real_engine ((go, 5) ∷ [])) go 9).outcome
search-AnswerFits_example =
    search-AnswerFits settled 3 place outside config 0 real_engine ((go, 5) ∷ []) go 9 is_real
