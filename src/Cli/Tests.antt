-- ===== src/Cli/Tests.antt =====
-- Tests of the commands of cli/saka and instances of the theorems about them.
use saka.Base.{
  ◌≡◌, refl, ap, subst, ◌⊎◌, inl, inr, true, false, String, Option, none, some, List, [], ◌∷◌, ℤ,
  pos, str_eq, get, put, if◌then◌else◌,
}
use saka.World.{settled}
use saka.Types.{Result, Results, ok, err, no_results}
use saka.Types.Contract.{Searcher, finished, left}
use saka.Strings.{has_prefix}
use saka.Provider.{Web}
use saka.Provider.Builtin.{Outside, inits}
use saka.Config.Load.{Document}
use saka.Engine.{no_directory, Place}
use saka.Cli.Flags.{parse}
use saka.Cli.Search.CommandLine.{Asked, command_line, meant, run_search-command_line}
use saka.Cli.Exit.{Fatal, fatal, not_one_url, new_failed, exits, returned}
use saka.Cli.Output.{Printing}
use saka.Cli.Search.{search_flags, search_with, run_search}
use saka.Cli.Search.Stream.{
  IsStreaming, AreStreaming, is_framed, format_in, Agree, run_search-stream,
}
use saka.Cli.Search.Words.{plain_query, IsSilent, run_search-words, run_search-IsSilent}
use saka.Cli.Page.{do_fetch}
use saka.Cli.Setup.{Setting, load_engine, IsOutside, load_engine-IsOutside}

abbrev args : List String
args = "-n" ∷ "5" ∷ "go" ∷ []

abbrev parse_int : String → Option ℤ
parse_int s = if str_eq s "5" then some (pos 5) else none

abbrev go_hit : Result
go_hit = record {
  title = "Go";
  url = "https://go.dev";
  snippet = "The Go language";
  source = "a";
  position = 1;
  thumbnail_url = "";
  width = pos 0;
  height = pos 0;
}

abbrev found : Results
found = record { query = "go"; results = go_hit ∷ []; provider = "a"; took_ms = 3 }

abbrev engine : Searcher
engine = record {
  search = λ q. ok found;
  fetch = λ url. err no_results;
  search_stream = λ q. record { items = go_hit ∷ []; ended = finished found };
  fetch_stream = λ url. record { items = []; ended = left };
}

abbrev printing : Printing
printing = record {
  quote = λ s. s;
  result = λ r. r.url;
  results = λ res. res.query;
  page = λ p. p.title;
}

streams : AreStreaming (λ path. inl engine)
unfolding saka.Engine.stream_outcome
streams path e same =
    subst IsStreaming (ap (λ (s : Searcher ⊎ Fatal). elim s [ inl e ↦ e | inr x ↦ engine ]) same)
      (λ q. refl)

prints :
    run_search printing parse_int (λ path. inl engine) ("-n" ∷ "5" ∷ "go" ∷ [])
    ≡ record { stdout = " 1. Go\n    https://go.dev\n    The Go language\n\n"; status = returned }
unfolding run_search parse get put
prints = refl

abbrev sought : Asked
sought = record {
  config = "";
  count = "5";
  n = pos 5;
  format = "json";
  site = "go.dev";
  vertical = "";
  streams = true;
}

run_search-command_line_example :
    run_search printing parse_int (λ path. inl engine) (command_line sought ("-go" ∷ []))
    ≡ search_with printing true "json" (meant sought ("-go" ∷ [])) (inl engine)
run_search-command_line_example =
    run_search-command_line printing parse_int (λ path. inl engine) sought "-go" [] refl

run_search-stream_example :
    Agree
      (is_framed (format_in (parse parse_int search_flags ("go" ∷ []))))
      (run_search printing parse_int (λ path. inl engine) ("--stream" ∷ "go" ∷ []))
      (run_search printing parse_int (λ path. inl engine) ("go" ∷ []))
run_search-stream_example =
    run_search-stream printing parse_int (λ path. inl engine) ("go" ∷ []) streams

-- The flags of README.md behind the query are words of the query.
run_search-words_example :
    (run_search printing parse_int (λ path. inl engine) ("go" ∷ "-n" ∷ "5" ∷ "--markdown" ∷ [])
      ≡ search_with printing false "table"
          (plain_query ("go" ∷ "-n" ∷ "5" ∷ "--markdown" ∷ []))
          (inl engine))
    × (do_fetch printing parse_int (λ path. inl engine) ("go" ∷ "-n" ∷ "5" ∷ "--markdown" ∷ [])
        ≡ exits (fatal not_one_url))
unfolding has_prefix run_search saka.Strings.join_with parse
run_search-words_example =
    run_search-words printing parse_int (λ path. inl engine) "go" "-n" ("5" ∷ "--markdown" ∷ [])
      refl

run_search-IsSilent_example :
    IsSilent (run_search printing parse_int (λ path. inl engine) ("https://go.dev" ∷ []))
    × IsSilent (do_fetch printing parse_int (λ path. inl engine) ("https://go.dev" ∷ []))
run_search-IsSilent_example =
    run_search-IsSilent printing parse_int (λ path. inl engine) ("https://go.dev" ∷ []) streams

abbrev web : Web
web = record { encode = λ form. ""; is_request = λ address. true; client = λ address form. none }

abbrev outside : Outside
outside = record {
  web = λ k. web;
  web_items = λ s. none;
  image_items = λ s. none;
  articles = λ s. none;
  document = λ s. none;
  urls = record { uddg = λ s. none; unescape = λ s. none };
  atoi = λ s. none;
}

-- A file that only sets a disk cache, whose directory cannot be made.
abbrev file : Document
file = record {
  providers = none;
  fetch = some (record {
    rps = none;
    cache_ttl_seconds = none;
    respect_robots = none;
    disk_cache = some (record { dir = some "/cache"; ttl_seconds = none });
  });
}

abbrev setting : Setting
setting = record {
  world = settled;
  place = record { home = "/root"; can_make = λ dir. false };
  outside = outside;
  read = λ path. some "{}";
  json = λ content. some file;
}

fails : load_engine setting "saka.json" 0 ≡ inr (new_failed (no_directory "/cache"))
unfolding load_engine saka.Config.validate saka.Config.default_config saka.Config.check_from
    saka.Config.check_name get saka.Config.check_registered saka.Config.check_url
    saka.Config.check_limits put saka.Config.check_fetch saka.Engine.assemble
    saka.Engine.instantiate saka.Provider.Builtin.searxng_factory
    saka.Provider.Builtin.duckduckgo_factory saka.Provider.Builtin.startpage_factory
fails = refl

load_engine-IsOutside_example : IsOutside (no_directory "/cache")
load_engine-IsOutside_example =
    load_engine-IsOutside setting "saka.json" 0 (no_directory "/cache") fails
