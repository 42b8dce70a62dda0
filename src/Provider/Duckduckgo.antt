-- ===== src/Provider/Duckduckgo.antt =====
-- provider/duckduckgo/duckduckgo.go: the HTML page of DuckDuckGo.
pub mod Snippets
use saka.Base.{
  ℕ, suc, ◌*◌, Bool, true, false, ◌&&◌, ◌||◌, String, ◌<>◌, Option, none, some, List, [], ◌∷◌, ◌++◌,
  ℤ, pos, negsuc, ltb, Dict, is_empty, str_eq, length, if◌then◌else◌,
}
use saka.Strings.{has_prefix, contains, trim_prefix}
use saka.Types.{second, Query, Result, Error, decode, Outcome, ok, err}
use saka.Html.{Node, kind, content, is_element, walk, attr, has_class, text_of}
use saka.Provider.{Web, ask, or_else}

-- url.Parse with the query's Get("uddg"), and url.QueryUnescape.
pub record Urls : Type 0 where
  pub uddg : String → Option String
  pub unescape : String → Option String

abbrev pub html_endpoint : String
html_endpoint = "https://html.duckduckgo.com/html/"

unfoldable pub region_or_default : String → String
region_or_default r = or_else "us-en" r

unfoldable pub ddg_form : Query → Dict String
unfolding region_or_default
ddg_form q =
    let form : Dict String = ("q", q.text) ∷ ("kl", region_or_default q.region) ∷ [] in
    if q.safe_search then form ++ ("kp", "1") ∷ [] else form

-- unwrapDDG
unfoldable pub unwrap_ddg : Urls → String → String
unwrap_ddg urls href =
    if is_empty href
    then ""
    else if has_prefix href "//duckduckgo.com/l/" || contains href "duckduckgo.com/l/"
    then elim (urls.uddg ("https:" <> trim_prefix href "//duckduckgo.com/l/")) [
      | none ↦ ""
      | some uddg ↦ elim (urls.unescape uddg) [ none ↦ uddg | some decoded ↦ decoded ]
    ]
    else if has_prefix href "http"
    then href
    else ""

-- `n.Type == html.ElementNode && n.Data == "a" && htmd.HasClass(n, class)`
abbrev pub is_link : String → Node → Bool
is_link class n = is_element (kind n) && str_eq (content n) "a" && has_class n class

-- `len(results) < max`
abbrev pub has_room : ℤ → ℕ → Bool
has_room (pos max) n = ltb n max
has_room (negsuc max) n = false

abbrev pub titled : String → String → Result
titled title url = record {
  title = title;
  url = url;
  snippet = "";
  source = "";
  position = 0;
  thumbnail_url = "";
  width = pos 0;
  height = pos 0;
}

-- The first walk, at a node.
unfoldable pub visit_result : Urls → ℤ → Node → List Result → List Result
unfolding unwrap_ddg
visit_result urls max n results =
    let target = unwrap_ddg urls (attr n "href") in
    if is_link "result__a" n
    then if is_empty target
      then results
      else if has_room max (length results)
      then results ++ titled (text_of n) target ∷ []
      else results
    else results

unfoldable pub visit_snippet : Node → List String → List String
visit_snippet n snips = if is_link "result__snippet" n then snips ++ text_of n ∷ [] else snips

unfoldable pub collect_snippets : Node → List String
unfolding visit_snippet
collect_snippets doc = walk visit_snippet doc []

-- The loop over the results from index `i`, with the snippets from that index on.
unfoldable pub attach : ℕ → List Result → List String → List Result
attach i [] snips = []
attach i (r ∷ rs) [] = record r { source = "duckduckgo"; position = suc i } ∷ attach (suc i) rs []
attach i (r ∷ rs) (s ∷ snips) =
    record r { snippet = s; source = "duckduckgo"; position = suc i } ∷ attach (suc i) rs snips

unfoldable pub found_results : Urls → ℤ → Node → List Result
unfolding visit_result
found_results urls max doc = walk (visit_result urls max) doc []

-- parseResults on a parsed document.
unfoldable pub parse_results : Urls → ℤ → Node → List Result
unfolding attach found_results collect_snippets
parse_results urls max doc = attach 0 (found_results urls max doc) (collect_snippets doc)

-- Search; `parse` is the parser of documents.
unfoldable pub search_ddg : Web → Urls → (String → Option Node) → Query → Outcome (List Result)
unfolding ddg_form parse_results
search_ddg web urls parse q =
    elim (ask web "duckduckgo" (30 * second) html_endpoint (web.encode (ddg_form q))) [
      | err x ↦ err x
      | ok body ↦ elim (parse body) [
        | none ↦ err (decode "duckduckgo")
        | some doc ↦ ok (parse_results urls q.max_results doc)
      ]
    ]
