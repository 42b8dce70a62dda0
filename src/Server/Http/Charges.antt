-- ===== src/Server/Http/Charges.antt =====
-- To whom the handlers of server/http.go charge a request.
use saka.Base.{
  ◌≡◌, ◌≢◌, refl, ◌∙◌, inl, inr, String, Option, is_empty, str_eq, Option-cases, Bool-cases, ℤ,
}
use saka.Strings.{trim_space}
use saka.Types.{Outcome-cases, Results, Page}
use saka.Server.{Request}
use saka.Server.Usage.{UsageStats, KeyUsage, add_search, add_fetch, add_stream, add_4xx, add_5xx}
use saka.Types.Contract.{Ended-cases}
use saka.Server.Http.{
  Site, count_use, results_wanted, write_results, answer_search, handle_search,
  handle_search_stream, stream_search, write_page, answer_fetch, handle_fetch, stream_fetch,
  handle_stream, handle_usage, route, or_default, query_of,
}
use saka.Server.Http.Counts.{seen, count_use-others}

-- The usage after some charges to one key.
pub data AreCharges (key : String) (u : Option UsageStats) : Option UsageStats → Type 0 where
  none_yet : AreCharges key u u
  one_more :
      (u' : Option UsageStats) (field : KeyUsage → KeyUsage)
      → AreCharges key u u'
      → AreCharges key u (count_use u' key field)

pub AreCharges-others :
    (key other : String) (u u' : Option UsageStats)
    → other ≢ key
    → AreCharges key u u'
    → seen u' other ≡ seen u other
AreCharges-others key other u u' apart AreCharges.none_yet = refl
AreCharges-others key other u u'' apart (AreCharges.one_more u' field before) =
    count_use-others u' key other field apart ∙ AreCharges-others key other u u' apart before

module _ (site : Site) (key : String) (usage : Option UsageStats) where
  once : (field : KeyUsage → KeyUsage) → AreCharges key usage (count_use usage key field)
  once field = AreCharges.one_more usage field AreCharges.none_yet

  -- The formats: what is written after `u` charges at most once more.
  write_results-AreCharges :
      (r : Request) (res : Results) (u : Option UsageStats)
      → AreCharges key usage u
      → AreCharges key usage (write_results site key usage r res u).usage
  unfolding write_results
  write_results-AreCharges r res u before =
      let format = or_default "json" (r.param "format") in
      elim (Bool-cases (str_eq format "markdown")) [
        | inl md ↦ rw (md, write_results) before
        | inr other ↦ elim (Bool-cases (str_eq format "json")) [
          | inl json ↦ rw (other, json, write_results) before
          | inr neither ↦ rw (other, neither, write_results) (AreCharges.one_more u add_4xx before)
        ]
      ]

  write_page-AreCharges :
      (r : Request) (page : Page) (u : Option UsageStats)
      → AreCharges key usage u
      → AreCharges key usage (write_page site key usage r page u).usage
  unfolding write_page
  write_page-AreCharges r page u before =
      let format = or_default "text" (r.param "format") in
      elim (Bool-cases (str_eq format "json")) [
        | inl json ↦ rw (json, write_page) before
        | inr other ↦ elim (Bool-cases (str_eq format "markdown")) [
          | inl md ↦ rw (other, md, write_page) before
          | inr third ↦ elim (Bool-cases (str_eq format "text")) [
            | inl txt ↦ rw (other, third, txt, write_page) before
            | inr none_of ↦
                rw (other, third, none_of, write_page) (AreCharges.one_more u add_4xx before)
          ]
        ]
      ]

  answer_search-AreCharges :
      (r : Request) (q : String) (n : ℤ)
      → AreCharges key usage (answer_search site key usage r q n).usage
  unfolding answer_search
  answer_search-AreCharges r q n =
      elim (Outcome-cases (site.engine.search (query_of site key usage r q n))) [
        | inr (x, e) ↦ rw (e, answer_search) (once add_5xx)
        | inl (res, e) ↦
            rw (e, answer_search)
              (write_results-AreCharges r res (count_use usage key add_search) (once add_search))
      ]

  handle_search-AreCharges :
      (r : Request) → AreCharges key usage (handle_search site key usage r).usage
  unfolding handle_search
  handle_search-AreCharges r = elim (Bool-cases (str_eq r.method "GET")) [
    | inr post ↦ rw (post, handle_search) AreCharges.none_yet
    | inl get_ ↦ elim (Bool-cases (is_empty (trim_space (r.param "q")))) [
      | inl empty ↦ rw (get_, empty, handle_search) (once add_4xx)
      | inr some_text ↦ elim (Option-cases (results_wanted site key usage r)) [
        | inl e ↦ rw (get_, some_text, handle_search, e) (once add_4xx)
        | inr (n, e) ↦ rw (get_, some_text, handle_search, e) (answer_search-AreCharges r _ n)
      ]
    ]
  ]

  stream_search-AreCharges :
      (r : Request) (q : String) (n : ℤ)
      → AreCharges key usage (stream_search site key usage r q n).usage
  unfolding stream_search
  stream_search-AreCharges r q n =
      elim (Ended-cases (site.engine.search_stream (query_of site key usage r q n)).ended) [
        | inl (res, e) ↦ rw (e, stream_search) (once add_stream)
        | inr (inl (x, e)) ↦
            rw (e, stream_search)
              (AreCharges.one_more (count_use usage key add_stream) add_5xx (once add_stream))
        | inr (inr e) ↦ rw (e, stream_search) (once add_stream)
      ]

  handle_search_stream-AreCharges :
      (r : Request) → AreCharges key usage (handle_search_stream site key usage r).usage
  unfolding handle_search_stream
  handle_search_stream-AreCharges r = elim (Bool-cases (str_eq r.method "GET")) [
    | inr post ↦ rw (post, handle_search_stream) AreCharges.none_yet
    | inl get_ ↦ elim (Bool-cases (is_empty (trim_space (r.param "q")))) [
      | inl empty ↦ rw (get_, empty, handle_search_stream) (once add_4xx)
      | inr some_text ↦ elim (Option-cases (results_wanted site key usage r)) [
        | inl e ↦ rw (get_, some_text, handle_search_stream, e) (once add_4xx)
        | inr (n, e) ↦ elim (Bool-cases site.flusher) [
          | inl flushes ↦
              rw (get_, some_text, handle_search_stream, e, flushes)
                (stream_search-AreCharges r _ n)
          | inr plain_writer ↦
              rw (get_, some_text, handle_search_stream, e, plain_writer) AreCharges.none_yet
        ]
      ]
    ]
  ]

  answer_fetch-AreCharges :
      (r : Request) (url : String) → AreCharges key usage (answer_fetch site key usage r url).usage
  unfolding answer_fetch
  answer_fetch-AreCharges r url = elim (Outcome-cases (site.engine.fetch url)) [
    | inr (x, e) ↦ rw (e, answer_fetch) (once add_5xx)
    | inl (page, e) ↦
        rw (e, answer_fetch)
          (write_page-AreCharges r page (count_use usage key add_fetch) (once add_fetch))
  ]

  handle_fetch-AreCharges :
      (r : Request) → AreCharges key usage (handle_fetch site key usage r).usage
  unfolding handle_fetch
  handle_fetch-AreCharges r = elim (Bool-cases (str_eq r.method "GET")) [
    | inr post ↦ rw (post, handle_fetch) AreCharges.none_yet
    | inl get_ ↦ elim (Bool-cases (is_empty (trim_space (r.param "url")))) [
      | inl empty ↦ rw (get_, empty, handle_fetch) (once add_4xx)
      | inr some_text ↦ rw (get_, some_text, handle_fetch) (answer_fetch-AreCharges r _)
    ]
  ]

  stream_fetch-AreCharges :
      (url : String) → AreCharges key usage (stream_fetch site key usage url).usage
  unfolding stream_fetch
  stream_fetch-AreCharges url = elim (Ended-cases (site.engine.fetch_stream url).ended) [
    | inl (page, e) ↦ rw (e, stream_fetch) (once add_stream)
    | inr (inr e) ↦ rw (e, stream_fetch) (once add_stream)
    | inr (inl (x, e)) ↦ elim (Bool-cases site.takes_close) [
      | inl closed ↦ rw (e, stream_fetch, closed) (once add_stream)
      | inr open_still ↦
          rw (e, stream_fetch, open_still)
            (AreCharges.one_more (count_use usage key add_stream) add_5xx (once add_stream))
    ]
  ]

  handle_stream-AreCharges :
      (r : Request) → AreCharges key usage (handle_stream site key usage r).usage
  unfolding handle_stream
  handle_stream-AreCharges r = elim (Bool-cases (is_empty (r.param "url"))) [
    | inl empty ↦ rw (empty, handle_stream) (once add_4xx)
    | inr some_text ↦ elim (Bool-cases site.flusher) [
      | inl flushes ↦ rw (some_text, handle_stream, flushes) (stream_fetch-AreCharges _)
      | inr plain_writer ↦ rw (some_text, handle_stream, plain_writer) AreCharges.none_yet
    ]
  ]

  handle_usage-AreCharges :
      (admin_key today : String) (r : Request)
      → AreCharges key usage (handle_usage site key usage admin_key today r).usage
  unfolding handle_usage
  handle_usage-AreCharges admin_key today r = elim (Option-cases usage) [
    | inl e ↦ rw (e, handle_usage) AreCharges.none_yet
    | inr (u, e) ↦ rw (e, handle_usage) AreCharges.none_yet
  ]

  -- Whatever its path, a request is charged to its own key alone.
  pub route-AreCharges :
      (admin_key today : String) (r : Request)
      → AreCharges key usage (route site key usage admin_key today r).usage
  unfolding route
  route-AreCharges admin_key today r = elim (Bool-cases (str_eq r.path "/v1/search")) [
    | inl a ↦ rw (a, route) (handle_search-AreCharges r)
    | inr a ↦ elim (Bool-cases (str_eq r.path "/v1/search/stream")) [
      | inl b ↦ rw (a, b, route) (handle_search_stream-AreCharges r)
      | inr b ↦ elim (Bool-cases (str_eq r.path "/v1/fetch")) [
        | inl c ↦ rw (a, b, c, route) (handle_fetch-AreCharges r)
        | inr c ↦ elim (Bool-cases (str_eq r.path "/v1/stream")) [
          | inl d ↦ rw (a, b, c, d, route) (handle_stream-AreCharges r)
          | inr d ↦ elim (Bool-cases (str_eq r.path "/v1/usage")) [
            | inl f ↦ rw (a, b, c, d, f, route) (handle_usage-AreCharges admin_key today r)
            | inr f ↦ elim (Bool-cases (str_eq r.path "/health")) [
              | inl g ↦ rw (a, b, c, d, f, g, route) AreCharges.none_yet
              | inr g ↦ rw (a, b, c, d, f, g, route) AreCharges.none_yet
            ]
          ]
        ]
      ]
    ]
  ]
