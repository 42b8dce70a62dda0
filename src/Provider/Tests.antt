-- ===== src/Provider/Tests.antt =====
-- Tests of provider/ and instances of its theorems.
use saka.Base.{◌≡◌, refl, true, false, String, none, some, List, [], ◌∷◌, pos, get_elem?, map, take}
use saka.Types.{Query, Result, ok}
use saka.Html.{Node, Nodes, node, nil, cons, element, text}
use saka.Html.Walk.{preorder}
use saka.Provider.{Web, ask}
use saka.Provider.Searxng.{WebItem, search_web}
use saka.Provider.Duckduckgo.{Urls, search_ddg, parse_results}
use saka.Provider.Duckduckgo.Snippets.{place, links, snippets, parse_results-get_elem}
use saka.Provider.Startpage.{search_startpage}
use saka.Provider.Builtin.{Outside}

abbrev link : String → String → String → Node
link class href words =
    node element "a"
      (record { key = "class"; val = class } ∷ record { key = "href"; val = href } ∷ [])
      (cons (node text words [] nil) nil)

-- A page with an advertisement, whose link leads nowhere, and one result.
abbrev ddg_page : Node
ddg_page = node element "html" [] (
    cons (link "result__a" "/y.js" "Ad") (
      cons (link "result__snippet" "" "Buy") (
        cons (link "result__a" "https://go.dev" "Go")
          (cons (link "result__snippet" "" "The Go language") nil))))

abbrev urls : Urls
urls = record { uddg = λ s. none; unescape = λ s. some s }

-- The one result gets the snippet of the advertisement.
mismatched : map (λ (r : Result). r.snippet) (parse_results urls (pos 10) ddg_page) ≡ "Buy" ∷ []
unfolding parse_results saka.Html.walk saka.Html.has_class saka.Strings.has_prefix
    saka.Strings.contains saka.Html.text_of
mismatched = refl

parse_results-get_elem_example :
    get_elem? (parse_results urls (pos 10) ddg_page) 0
    ≡ place 0
        (get_elem? (snippets (preorder ddg_page)) 0)
        (get_elem? (take 10 (links urls (preorder ddg_page))) 0)
parse_results-get_elem_example = parse_results-get_elem urls (pos 10) ddg_page 0

abbrev web : Web
web = record {
  encode = λ form. "q=go";
  is_request = λ address. true;
  client = λ address form. some (record { status_code = 200; body = "<html>" });
}

abbrev query : Query
query = record {
  text = "go";
  max_results = pos 10;
  region = "";
  safe_search = false;
  site = "";
  vertical = "";
}

abbrev ddg_results : List Result
ddg_results =
    record {
      title = "Go";
      url = "https://go.dev";
      snippet = "Buy";
      source = "duckduckgo";
      position = 1;
      thumbnail_url = "";
      width = pos 0;
      height = pos 0;
    }
    ∷ []

ddg_answers : search_ddg web urls (λ s. some ddg_page) query ≡ ok ddg_results
unfolding search_ddg ask saka.Html.walk saka.Html.has_class saka.Strings.has_prefix
    saka.Strings.contains saka.Html.text_of
ddg_answers = refl

abbrev startpage_page : Node
startpage_page = node element "html" [] (
    cons (link "w-gl__result-title" "https://go.dev" "Go") (
      cons
        (node element "p" (record { key = "class"; val = "w-gl__description" } ∷ [])
          (cons (node text "The Go language" [] nil) nil))
        nil))

abbrev startpage_results : List Result
startpage_results =
    record {
      title = "Go";
      url = "https://go.dev";
      snippet = "The Go language";
      source = "startpage";
      position = 1;
      thumbnail_url = "";
      width = pos 0;
      height = pos 0;
    }
    ∷ []

startpage_answers : search_startpage web (λ s. some startpage_page) query ≡ ok startpage_results
unfolding search_startpage ask saka.Html.walk saka.Strings.contains saka.Html.class
    saka.Html.text_of
startpage_answers = refl

abbrev items : List WebItem
items = record { title = "Go"; url = "https://go.dev"; content = "The Go language" } ∷ []

abbrev web_page : List Result
web_page =
    record {
      title = "Go";
      url = "https://go.dev";
      snippet = "The Go language";
      source = "searxng";
      position = 1;
      thumbnail_url = "";
      width = pos 0;
      height = pos 0;
    }
    ∷ []

web_answers : search_web web "http://localhost:8888" (λ s. some items) query ≡ ok web_page
unfolding search_web ask
web_answers = refl

abbrev outside : Outside
outside = record {
  web = λ k. web;
  web_items = λ s. some items;
  image_items = λ s. none;
  articles = λ s. none;
  document = λ s. some ddg_page;
  urls = urls;
  atoi = λ s. none;
}
