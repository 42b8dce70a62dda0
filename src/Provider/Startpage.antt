-- ===== src/Provider/Startpage.antt =====
-- provider/startpage/startpage.go: the HTML page of Startpage.
use saka.Base.{
  ℕ, suc, ◌*◌, Bool, ◌&&◌, String, ◌<>◌, Option, none, some, List, [], ◌∷◌, ◌++◌, ℤ, pos, pos_part,
  Dict, put, is_empty, str_eq, length, if◌then◌else◌,
}
use saka.Strings.{has_prefix, contains}
use saka.Types.{second, Query, Result, decode, rate_limit, Outcome, ok, err}
use saka.Html.{Node, kind, content, is_element, walk, attr, class, text_of}
use saka.Tools.{decimal}
use saka.Provider.{Web, ask, or_else, is_positive}
use saka.Provider.Duckduckgo.{has_room}

abbrev pub endpoint : String
endpoint = "https://www.startpage.com/sp/search"

unfoldable pub language_or_default : String → String
language_or_default r = or_else "english" r

unfoldable pub startpage_form : Query → Dict String
unfolding language_or_default
startpage_form q =
    let form : Dict String =
      ("query", q.text) ∷ ("cat", "web") ∷ ("language", language_or_default q.region) ∷ [] in
    let counted =
      if is_positive q.max_results
      then put form "num" (decimal (pos_part q.max_results))
      else form in
    if is_empty q.site then counted else put counted "query" (q.text <> (" site:" <> q.site))

-- `results[len(results)-1]`, with a snippet where it has none.
unfoldable pub describe_last : String → List Result → List Result
describe_last s [] = []
describe_last s (r ∷ []) = (if is_empty r.snippet then record r { snippet = s } else r) ∷ []
describe_last s (r ∷ r' ∷ rs) = r ∷ describe_last s (r' ∷ rs)

abbrev pub is_tag : String → String → Node → Bool
is_tag tag part n = is_element (kind n) && str_eq (content n) tag && contains (class n) part

abbrev pub hit : Node → Result
hit n = record {
  title = text_of n;
  url = attr n "href";
  snippet = "";
  source = "startpage";
  position = 0;
  thumbnail_url = "";
  width = pos 0;
  height = pos 0;
}

unfoldable pub visit_title : ℤ → Node → List Result → List Result
visit_title max n results =
    if is_tag "a" "w-gl__result-title" n
    then if has_room max (length results)
      then if has_prefix (attr n "href") "http" then results ++ hit n ∷ [] else results
      else results
    else results

-- The walk, at a node.
unfoldable pub visit : ℤ → Node → List Result → List Result
unfolding visit_title describe_last
visit max n results =
    let results' = visit_title max n results in
    if is_tag "p" "w-gl__description" n then describe_last (text_of n) results' else results'

unfoldable pub number : ℕ → List Result → List Result
number i [] = []
number i (r ∷ rs) = record r { position = suc i } ∷ number (suc i) rs

-- parseResults on a parsed document.
unfoldable pub parse_page : ℤ → Node → List Result
unfolding visit number
parse_page max doc = number 0 (walk (visit max) doc [])

-- A page without results is a challenge, and counts as a refusal.
unfoldable pub or_refused : List Result → Outcome (List Result)
or_refused [] = err (rate_limit "startpage" (60 * second))
or_refused (r ∷ rs) = ok (r ∷ rs)

-- Search
unfoldable pub search_startpage : Web → (String → Option Node) → Query → Outcome (List Result)
unfolding startpage_form parse_page or_refused
search_startpage web parse q =
    elim (ask web "startpage" (60 * second) (endpoint <> ("?" <> web.encode (startpage_form q)))
      "") [
        | err x ↦ err x
        | ok body ↦ elim (parse body) [
          | none ↦ err (decode "startpage")
          | some doc ↦ or_refused (parse_page q.max_results doc)
        ]
      ]
