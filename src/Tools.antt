-- ===== src/Tools.antt =====
-- tools/tools.go: the tools that a model may call. The JSON of the arguments and the printing of a
-- date are parameters.
pub mod Schemas
use Prim.Native.String.{char_at}
use saka.Base.{
  ℕ, zero, suc, ◌/◌, ◌%◌, false, String, ◌<>◌, Option, none, some, List, [], ◌∷◌, ℤ, ltb, ◌==◌,
  str_eq, if◌then◌else◌,
}
use saka.Types.{Query, Result, Results, Page, bad_args, unknown_tool, Outcome, ok, err}
use saka.Types.Contract.{Searcher}

pub record SearchArgs : Type 0 where
  pub query : String
  pub max_results : ℤ
  pub site : String
  pub vertical : String

-- The query for the arguments of web_search.
abbrev pub tool_query : SearchArgs → Query
tool_query a = record {
  text = a.query;
  max_results = a.max_results;
  region = "";
  safe_search = false;
  site = a.site;
  vertical = a.vertical;
}

-- The decoding of the arguments of both tools, and time.Format("2006-01-02").
pub record Codec : Type 0 where
  pub search_args : String → Option SearchArgs
  pub fetch_args : String → Option String
  pub date : ℕ → String

abbrev digit : ℕ → String
digit n = String.◌∷◌ (char_at "0123456789" n) ""

decimal_from : ℕ → ℕ → String
decimal_from zero n = ""
decimal_from (suc fuel) n =
    let before = decimal_from fuel (n / 10) in
    if ltb n 10 then digit n else before <> digit (n % 10)

-- The verb %d.
unfoldable pub decimal : ℕ → String
unfolding decimal_from
decimal n = decimal_from (suc n) n

unfoldable pub render_hits : List Result → String
unfolding decimal
render_hits [] = ""
render_hits (r ∷ rs) =
    (decimal r.position
      <> (". " <> (r.title <> ("\n   URL: " <> (r.url <> ("\n   " <> (r.snippet <> "\n\n")))))))
    <> render_hits rs

unfoldable pub render_search : Results → String
unfolding render_hits
render_search r = render_hits r.results

module _ (codec : Codec) where
  unfoldable pub render_page : Page → String
  render_page p =
      (if p.published_at == 0
        then p.title
        else p.title <> (" (" <> (codec.date p.published_at <> ")")))
      <> ("\n\n" <> p.text)

  unfoldable pub web_search : Searcher → String → Outcome String
  unfolding render_search
  web_search engine args = elim (codec.search_args args) [
    | none ↦ err (bad_args "web_search")
    | some a ↦ elim (engine.search (tool_query a)) [
      | err x ↦ err x
      | ok res ↦ ok (render_search res)
    ]
  ]

  unfoldable pub fetch_page : Searcher → String → Outcome String
  unfolding render_page
  fetch_page engine args = elim (codec.fetch_args args) [
    | none ↦ err (bad_args "fetch_page")
    | some url ↦ elim (engine.fetch url) [ err x ↦ err x | ok page ↦ ok (render_page page) ]
  ]

  -- ExecuteTool
  unfoldable pub execute_tool : Searcher → String → String → Outcome String
  unfolding web_search fetch_page
  execute_tool engine name args =
      if str_eq name "web_search"
      then web_search engine args
      else if str_eq name "fetch_page"
      then fetch_page engine args
      else err (unknown_tool name)
