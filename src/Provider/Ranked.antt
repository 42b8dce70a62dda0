-- ===== src/Provider/Ranked.antt =====
-- What every answer of a provider of provider/ keeps to: its places and its length.
use saka.Base.{
  ℕ, suc, ◌-◌, ◌*◌, ◌≤◌, ◌≡◌, ◌≢◌, refl, ap, sym, subst, true, false, String, ◌<>◌, Option, List,
  [], ◌∷◌, ℤ, pos, negsuc, pos_part, length, length-append, Bool-cases, Option-cases, inl, inr,
  arith, is_empty,
}
use saka.Types.{second, Query, Result, Outcome-cases, ok}
use saka.Html.{Node, attr, text_of, walk}
use saka.Html.Walk.{preorder, visit_each, walk_lem}
use saka.Provider.{Web, ask, reaches}
use saka.Provider.Searxng.{WebItem, web_results, web_form, search_web}
use saka.Provider.Duckduckgo
use saka.Provider.Duckduckgo.{
  Urls, has_room, visit_result, attach, found_results, collect_snippets, parse_results, search_ddg,
  is_link, unwrap_ddg, titled,
}
use saka.Provider.Startpage
use saka.Provider.Startpage.{
  hit, or_refused, describe_last, visit_title, visit, number, parse_page, search_startpage, is_tag,
  startpage_form,
}

-- The positions are those from `suc i` on.
abbrev pub IsRanked : ℕ → List Result → Type 0
IsRanked i [] = Unit
IsRanked i (r ∷ rs) = (r.position ≡ suc i) × IsRanked (suc i) rs

web_results-Ranked :
    (max : ℤ) (i : ℕ) (items : List WebItem)
    → IsRanked i (web_results max i items) × (length (web_results max i items) ≤ pos_part max - i)
unfolding web_results
web_results-Ranked max i [] = (tt, omega arith)
web_results-Ranked max i (r ∷ rs) = elim (Bool-cases (reaches i max)) [
  | inl over ↦ rw over (tt, omega arith)
  | inr room ↦
      let (ranks, bound) = web_results-Ranked max (suc i) rs in
      rw room ((refl, ranks), fits max room bound)
]
  where
    fits :
        (max : ℤ)
        → reaches i max ≡ false
        → length (web_results max (suc i) rs) ≤ pos_part max - suc i
        → suc (length (web_results max (suc i) rs)) ≤ pos_part max - i
    fits (pos m) room bound = ground arith
    fits (negsuc m) room bound = absurd (ground arith)

attach-Ranked :
    (i : ℕ) (rs : List Result) (snips : List String)
    → IsRanked i (attach i rs snips) × (length (attach i rs snips) ≡ length rs)
unfolding attach
attach-Ranked i [] snips = (tt, refl)
attach-Ranked i (r ∷ rs) [] =
    let (ranks, same) = attach-Ranked (suc i) rs [] in ((refl, ranks), ap suc same)
attach-Ranked i (r ∷ rs) (s ∷ snips) =
    let (ranks, same) = attach-Ranked (suc i) rs snips in ((refl, ranks), ap suc same)

number-Ranked :
    (i : ℕ) (rs : List Result) → IsRanked i (number i rs) × (length (number i rs) ≡ length rs)
unfolding number
number-Ranked i [] = (tt, refl)
number-Ranked i (r ∷ rs) =
    let (ranks, same) = number-Ranked (suc i) rs in ((refl, ranks), ap suc same)

-- A visit that keeps a list within a bound keeps it over a document.
walk-bound :
    (step : Node → List Result → List Result) (max : ℕ)
    → ((n : Node) (rs : List Result) → length rs ≤ max → length (step n rs) ≤ max)
    → (doc : Node) → length (walk step doc []) ≤ max
unfolding visit_each
walk-bound step max keeps doc =
    subst (λ rs. length rs ≤ max) (sym (walk_lem step doc []))
      (each (preorder doc) [] (omega arith))
  where
    each :
        (ns : List Node) (rs : List Result) → length rs ≤ max → length (visit_each step ns rs) ≤ max
    each [] rs h = h
    each (n ∷ ns) rs h = each ns (step n rs) (keeps n rs h)

room-bound : (max : ℤ) (n : ℕ) → has_room max n ≡ true → suc n ≤ pos_part max
room-bound (pos m) n h = ground arith
room-bound (negsuc m) n h = absurd (ground arith)

visit_result-bound :
    (urls : Urls) (max : ℤ) (n : Node) (rs : List Result)
    → length rs ≤ pos_part max
    → length (visit_result urls max n rs) ≤ pos_part max
unfolding visit_result
visit_result-bound urls max n rs h = elim (Bool-cases (is_link "result__a" n)) [
  | inr plain ↦ rw plain h
  | inl link ↦ elim (Bool-cases (is_empty (unwrap_ddg urls (attr n "href")))) [
    | inl lost ↦ rw (link, lost) h
    | inr target ↦ elim (Bool-cases (has_room max (length rs))) [
      | inr over ↦ rw (link, target, over) h
      | inl room ↦
          rw (link, target, room)
            (omega (
              arith,
              room-bound max (length rs) room,
              length-append rs (titled (text_of n) (unwrap_ddg urls (attr n "href")) ∷ []),
            ))
    ]
  ]
]

-- The results of DuckDuckGo are numbered from 1 on and at most as many as asked for.
pub search_ddg-Ranked :
    (web : Web) (urls : Urls) (parse : String → Option Node) (q : Query) (rs : List Result)
    → search_ddg web urls parse q ≡ ok rs
    → IsRanked 0 rs × (length rs ≤ pos_part q.max_results)
unfolding search_ddg parse_results found_results
search_ddg-Ranked web urls parse q rs h =
    elim (Outcome-cases (
      ask web "duckduckgo" (30 * second) Duckduckgo.html_endpoint
        (web.encode (Duckduckgo.ddg_form q)))) [
          | inr (x, e) ↦ absurd (ground arith)
          | inl (body, e) ↦ elim (Option-cases (parse body)) [
            | inl e' ↦ absurd (ground arith)
            | inr (doc, e') ↦
                let found = found_results urls q.max_results doc in
                let same : attach 0 found (collect_snippets doc) ≡ rs = ground arith in
                let (ranks, len) = attach-Ranked 0 found (collect_snippets doc) in
                let few =
                  walk-bound (visit_result urls q.max_results) (pos_part q.max_results)
                    (visit_result-bound urls q.max_results) doc in
                (
                  subst (IsRanked 0) same ranks,
                  subst (λ ys. length ys ≤ pos_part q.max_results) same (omega arith),
                )
          ]
        ]

describe_last-length : (s : String) (rs : List Result) → length (describe_last s rs) ≡ length rs
unfolding describe_last
describe_last-length s [] = refl
describe_last-length s (r ∷ []) = refl
describe_last-length s (r ∷ r' ∷ rs) = ap suc (describe_last-length s (r' ∷ rs))

visit-bound :
    (max : ℤ) (n : Node) (rs : List Result)
    → length rs ≤ pos_part max
    → length (visit max n rs) ≤ pos_part max
unfolding visit visit_title
visit-bound max n rs h = elim (Bool-cases (is_tag "p" "w-gl__description" n)) [
  | inl p ↦
      rw p (omega (arith, describe_last-length (text_of n) (visit_title max n rs), titled_bound))
  | inr other ↦ rw other titled_bound
]
  where
    titled_bound : length (visit_title max n rs) ≤ pos_part max
    titled_bound = ground (arith, room-bound max (length rs), length-append rs (hit n ∷ []))

or_refused-ok : (xs ys : List Result) → or_refused xs ≡ ok ys → (xs ≡ ys) × (ys ≢ [])
unfolding or_refused
or_refused-ok [] ys h = absurd (ground arith)
or_refused-ok (x ∷ xs) ys h = let same : x ∷ xs ≡ ys = ground arith in (same, λ e. ground arith)

-- Startpage never answers with no results; those that it gives are numbered from 1 on and at
-- most as many as asked for.
pub search_startpage-Ranked :
    (web : Web) (parse : String → Option Node) (q : Query) (rs : List Result)
    → search_startpage web parse q ≡ ok rs
    → (rs ≢ []) × IsRanked 0 rs × (length rs ≤ pos_part q.max_results)
unfolding search_startpage parse_page
search_startpage-Ranked web parse q rs h =
    elim (Outcome-cases (
      ask web "startpage" (60 * second)
        (Startpage.endpoint <> ("?" <> web.encode (startpage_form q))) "")) [
          | inr (x, e) ↦ absurd (ground arith)
          | inl (body, e) ↦ elim (Option-cases (parse body)) [
            | inl e' ↦ absurd (ground arith)
            | inr (doc, e') ↦
                let found = walk (visit q.max_results) doc [] in
                let (same, full) = or_refused-ok (number 0 found) rs (ground arith) in
                let (ranks, len) = number-Ranked 0 found in
                let few =
                  walk-bound (visit q.max_results) (pos_part q.max_results)
                    (visit-bound q.max_results) doc in
                (
                  full,
                  subst (IsRanked 0) same ranks,
                  subst (λ ys. length ys ≤ pos_part q.max_results) same (omega arith),
                )
          ]
        ]

-- The pages of SearXNG are numbered from 1 on and at most as many as asked for.
pub search_web-Ranked :
    (web : Web) (base_url : String) (parse : String → Option (List WebItem)) (q : Query)
    (rs : List Result)
    → search_web web base_url parse q ≡ ok rs
    → IsRanked 0 rs × (length rs ≤ pos_part q.max_results)
unfolding search_web
search_web-Ranked web base_url parse q rs h =
    elim (Outcome-cases
      (ask web "searxng" (30 * second) (base_url <> ("/search?" <> web.encode (web_form q))) "")) [
        | inr (x, e) ↦ absurd (ground arith)
        | inl (body, e) ↦ elim (Option-cases (parse body)) [
          | inl e' ↦ absurd (ground arith)
          | inr (items, e') ↦
              let same : web_results q.max_results 0 items ≡ rs = ground arith in
              let (ranks, few) = web_results-Ranked q.max_results 0 items in
              (
                subst (IsRanked 0) same ranks,
                subst (λ ys. length ys ≤ pos_part q.max_results) same (omega arith),
              )
        ]
      ]
