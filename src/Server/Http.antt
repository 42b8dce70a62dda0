-- ===== src/Server/Http.antt =====
-- server/http.go: the handlers and the mux. The engine is a parameter, an
-- implementation of types.Searcher at one moment; strconv.Atoi is another.
pub mod Counts
pub mod Charges
use saka.Base.{
  ℕ, ◌+◌, Bool, true, false, not, ◌&&◌, ◌||◌, String, Option, none, some, List, [], ◌∷◌, ◌++◌, map,
  ◌≡◌, refl, ◌⊎◌, inl, inr, ℤ, pos, le_zero, is_empty, str_eq, Dict, get, put, if◌then◌else◌,
}
use saka.Strings.{trim_space, cut_prefix}
use saka.Types.{Error, Outcome, ok, err, Query, Result, Results, Page, Chunk}
use saka.Types.Contract.{Ended, finished, broken, left, Flow, Searcher}
use saka.Server.{
  Request, Reply, Body, plain, problem, failure, results_json, results_markdown, page_json,
  page_markdown, usage_json, events, Event, result_event, results_event, chunk_event, end_event,
  error_event,
}
use saka.Server.Auth.{
  Bucket, Decision, missing_key, invalid_key, too_many, no_stream, pass, KeyTier, authenticate,
  Checked,
}
use saka.Server.Usage.{
  UsageStats, KeyUsage, add_search, add_fetch, add_stream, add_4xx, add_5xx, record_usage,
  show_usage, recording_lookup,
}

-- What a handler leaves: the reply and the usage.
pub record Handled : Type 0 where
  pub reply : Reply
  pub usage : Option UsageStats

-- Options. `keys` is the Lookup of the key source at this moment.
pub record Options : Type 0 where
  pub keys : Option (String → Option String)
  pub admin_key : String

abbrev pub error_reply : ℕ → String → Reply
error_reply status message = record { status = status; body = problem message }

abbrev pub ok_reply : Body → Reply
ok_reply body = record { status = 200; body = body }

-- record: `key` is the key in the request's context, "" for none.
unfoldable pub count_use : Option UsageStats → String → (KeyUsage → KeyUsage) → Option UsageStats
count_use none key field = none
count_use (some u) key field = if is_empty key then some u else some (record_usage u key field)

-- The value of a query's parameter, or a default.
abbrev pub or_default : String → String → String
or_default default s = if is_empty s then default else s

-- What a request meets: the engine, strconv.Atoi, whether the writer is an http.Flusher, and
-- whether a `select` between a closed channel of chunks and a waiting error takes the former.
pub record Site : Type 0 where
  pub engine : Searcher
  pub atoi : String → Option ℤ
  pub flusher : Bool
  pub takes_close : Bool

abbrev pub end_of_search : Ended Results → List Event
end_of_search (finished res) = results_event res ∷ []
end_of_search (broken x) = error_event x ∷ []
end_of_search left = []

module _ (site : Site) (key : String) (usage : Option UsageStats) where
  abbrev pub handled : Reply → Option UsageStats → Handled
  handled reply u = record { reply = reply; usage = u }

  -- A reply that counts as an error of the client.
  abbrev pub rejected : String → Option UsageStats → Handled
  rejected message u = handled (error_reply 400 message) (count_use u key add_4xx)

  -- The number of results that the request asks for.
  unfoldable pub results_wanted : Request → Option ℤ
  results_wanted r =
      let ns = r.param "n" in
      if is_empty ns
      then some (pos 10)
      else elim (site.atoi ns) [ none ↦ none | some v ↦ if le_zero v then none else some v ]

  -- The query of a request for `q` and `n`.
  abbrev pub query_of : Request → String → ℤ → Query
  query_of r q n = record {
    text = q;
    max_results = n;
    region = "";
    safe_search = false;
    site = "";
    vertical = r.param "vertical";
  }

  unfoldable pub write_results : Request → Results → Option UsageStats → Handled
  write_results r res u =
      let format = or_default "json" (r.param "format") in
      if str_eq format "markdown"
      then handled (ok_reply (results_markdown res)) u
      else if str_eq format "json"
      then handled (ok_reply (results_json res)) u
      else rejected "format must be json or markdown" u

  unfoldable pub answer_search : Request → String → ℤ → Handled
  unfolding write_results
  answer_search r q n = elim (site.engine.search (query_of r q n)) [
    | err x ↦ handled (record { status = 502; body = failure x }) (count_use usage key add_5xx)
    | ok res ↦ write_results r res (count_use usage key add_search)
  ]

  -- handleSearch
  unfoldable pub handle_search : Request → Handled
  unfolding results_wanted
  handle_search r =
      let q = trim_space (r.param "q") in
      if not (str_eq r.method "GET")
      then handled (error_reply 405 "method not allowed") usage
      else if is_empty q
      then rejected "missing q param" usage
      else elim (results_wanted r) [
        | none ↦ rejected "invalid n param" usage
        | some n ↦ answer_search r q n
      ]

  -- The loop of handleSearchStream over the results, and the `select` behind it.
  unfoldable pub stream_search : Request → String → ℤ → Handled
  stream_search r q n =
      let flow = site.engine.search_stream (query_of r q n) in
      let u = count_use usage key add_stream in
      handled (ok_reply (events (map result_event flow.items ++ end_of_search flow.ended)))
        (elim flow.ended [ finished res ↦ u | broken x ↦ count_use u key add_5xx | left ↦ u ])

  -- handleSearchStream
  unfoldable pub handle_search_stream : Request → Handled
  unfolding results_wanted stream_search
  handle_search_stream r =
      let q = trim_space (r.param "q") in
      if not (str_eq r.method "GET")
      then handled (error_reply 405 "method not allowed") usage
      else if is_empty q
      then rejected "missing q param" usage
      else elim (results_wanted r) [
        | none ↦ rejected "invalid n param" usage
        | some n ↦
            if site.flusher
            then stream_search r q n
            else handled (error_reply 500 "streaming unsupported") usage
      ]

  unfoldable pub write_page : Request → Page → Option UsageStats → Handled
  write_page r page u =
      let format = or_default "text" (r.param "format") in
      if str_eq format "json"
      then handled (ok_reply (page_json page)) u
      else if str_eq format "markdown"
      then handled (ok_reply (page_markdown page)) u
      else if str_eq format "text"
      then handled (ok_reply (plain page.text)) u
      else rejected "format must be text, json, or markdown" u

  unfoldable pub answer_fetch : Request → String → Handled
  unfolding write_page
  answer_fetch r url = elim (site.engine.fetch url) [
    | err x ↦ handled (record { status = 502; body = failure x }) (count_use usage key add_5xx)
    | ok page ↦ write_page r page (count_use usage key add_fetch)
  ]

  -- handleFetch
  unfoldable pub handle_fetch : Request → Handled
  unfolding answer_fetch
  handle_fetch r =
      let url = trim_space (r.param "url") in
      if not (str_eq r.method "GET")
      then handled (error_reply 405 "method not allowed") usage
      else if is_empty url
      then rejected "missing url param" usage
      else answer_fetch r url

  -- The loop of handleStream.
  unfoldable pub stream_fetch : String → Handled
  stream_fetch url =
      let flow = site.engine.fetch_stream url in
      let u = count_use usage key add_stream in
      let sent = map chunk_event flow.items in
      elim flow.ended [
        | finished page ↦ handled (ok_reply (events (sent ++ end_event ∷ []))) u
        | left ↦ handled (ok_reply (events sent)) u
        | broken x ↦
            if site.takes_close
            then handled (ok_reply (events (sent ++ end_event ∷ []))) u
            else handled (ok_reply (events (sent ++ error_event x ∷ []))) (count_use u key add_5xx)
      ]

  -- handleStream
  unfoldable pub handle_stream : Request → Handled
  unfolding stream_fetch
  handle_stream r =
      let url = r.param "url" in
      if is_empty url
      then rejected "missing url param" usage
      else if site.flusher
      then stream_fetch url
      else handled (error_reply 500 "streaming unsupported") usage

  unfoldable pub handle_usage : String → String → Request → Handled
  handle_usage admin_key today r = elim usage [
    | none ↦ handled (error_reply 404 "404 page not found") none
    | some u ↦
        handled (ok_reply (usage_json (show_usage admin_key u r.authorization today))) (some u)
  ]

  -- The mux.
  unfoldable pub route : String → String → Request → Handled
  unfolding handle_search handle_search_stream handle_fetch handle_stream handle_usage
  route admin_key today r =
      if str_eq r.path "/v1/search"
      then handle_search r
      else if str_eq r.path "/v1/search/stream"
      then handle_search_stream r
      else if str_eq r.path "/v1/fetch"
      then handle_fetch r
      else if str_eq r.path "/v1/stream"
      then handle_stream r
      else if str_eq r.path "/v1/usage"
      then handle_usage admin_key today r
      else if str_eq r.path "/health"
      then handled (ok_reply (plain "ok")) usage
      else handled (error_reply 404 "404 page not found") usage
