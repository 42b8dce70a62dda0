-- ===== src/Fetch.antt =====
-- fetch/fetch.go: pages fetched, extracted and cached, with the rest of fetch/ in the modules
-- below. The lock guards single reads and writes of the cache, each of which is one step.
pub mod DiskCache
pub mod Extract
pub mod Robots
pub mod Stream
pub mod Genuine
pub mod Sound
pub mod Cache
pub mod Again
pub mod Concurrent
mod Tests
use Prim.Native.Char.{Char}
use Prim.Native.String.{slice}
use saka.Base.{
  ℕ, suc, ◌+◌, ◌*◌, Bool, true, false, not, String, Option, none, some, List, [], ◌∷◌, ltb, ◌==◌,
  ◌^◌, ℤ, Dict, get, put, if◌then◌else◌,
}
use saka.World.{World}
use saka.RateLimit
use saka.RateLimit.{Limiter, passed, cancelled, waiting, wait}
use saka.Types.{
  Page, Chunk, Error, context_done, bad_url, disallowed, bad_request, transport, status,
  origin_limited, Outcome, ok, err,
}
use saka.Html.{Node}
use DiskCache.{Files, Codec}
use Extract.{extract}
use Robots.{Url, Response, RobotsCache, allowed}
use Stream.{extract_stream, extracted, unparsed}

abbrev pub bot_user_agent : String
bot_user_agent = "SakaBot/1.0 (+https://github.com/sirerun/saka)"

-- What the package takes from outside: url.Parse, http.NewRequest, the HTTP client (by the number
-- of the call), html.Parse, time.Parse, unicode.ToLower outside ASCII, the path of a URL's file
-- and the JSON of a page.
pub record Net : Type 0 where
  pub parse_url : String → Option Url
  pub is_request : String → Bool
  pub client : ℕ → String → Option Response
  pub parse_html : String → Option Node
  pub rfc3339 : String → ℕ
  pub fold : Char → Char
  pub key : String → String
  pub codec : Codec

pub record CacheEntry : Type 0 where
  pub page : Page
  pub expires_at : ℕ

-- `files` is the directory of the disk cache.
pub record Fetcher : Type 0 where
  pub limiter : Limiter
  pub cache : Dict CacheEntry
  pub ttl : ℕ
  pub robots : RobotsCache
  pub respect_robots : Bool
  pub disk : Option DiskCache.DiskCache
  pub files : Files

-- How a fetch ends; `hangs` is a wait that is out of fuel.
pub data Ending : Type 0 where
  fetched : Page → Ending
  failed : Error → Ending
  hangs : Ending

pub record Fetch : Type 0 where
  pub fetcher : Fetcher
  pub ending : Ending
  pub event : ℕ

-- Whether a fetch may go to the network.
pub data Verdict : Type 0 where
  go : Verdict
  refused : Error → Verdict
  stuck : Verdict

pub record Admitted : Type 0 where
  pub fetcher : Fetcher
  pub verdict : Verdict
  pub event : ℕ

-- What the three channels of FetchStream carry in the end.
pub data Flowed : Type 0 where
  done : List Chunk → Page → Flowed
  errored : Error → Flowed
  never : Flowed

pub record Streamed : Type 0 where
  pub fetcher : Fetcher
  pub flowed : Flowed
  pub event : ℕ

-- The loaded part of a body: io.LimitReader at 5 MB.
unfoldable pub limited : String → String
limited body = slice body 0 (5 * 2 ^ 20)

module _ (n : Net) (w : World) (fuel : ℕ) where
  open n use {parse_url, is_request, client, parse_html, rfc3339, fold, key, codec}

  -- The page goes into the memory cache at event `k`.
  unfoldable pub remember : Fetcher → String → Page → ℕ → Fetcher
  remember f url page k = record f {
    cache = put f.cache url (record { page = page; expires_at = w.clock k + f.ttl });
  }

  -- And onto the disk, if there is a disk cache.
  unfoldable pub store : Fetcher → String → Page → ℕ → Fetcher
  unfolding remember
  store f url page k =
      let f' = remember f url page k in
      elim f.disk [
        | none ↦ f'
        | some c ↦ record f' {
          files = DiskCache.write key codec c f.files url page (w.clock (1 + k));
        }
      ]

  -- The checks of an answer that Fetch makes before it reads the body.
  unfoldable pub status_error : String → ℕ → Option Error
  status_error url code =
      if not (code == 200)
      then some (status url code)
      else if code == 429
      then some origin_limited
      else none

  -- From the request on, at event `k`.
  unfoldable pub download : Fetcher → String → ℕ → Fetch
  unfolding store status_error limited
  download f url k =
      let fail : Error → Fetch = λ e. record { fetcher = f; ending = failed e; event = 3 + k } in
      if is_request url
      then elim (client k url) [
        | none ↦ fail (transport "fetch")
        | some resp ↦ elim (status_error url resp.status_code) [
          | some e ↦ fail e
          | none ↦ elim (extract parse_html rfc3339 url (limited resp.body)) [
            | err e ↦ fail e
            | ok page ↦ record {
              fetcher = store f url page (1 + k);
              ending = fetched page;
              event = 3 + k;
            }
          ]
        ]
      ]
      else fail (bad_request url)

  ask_robots : Fetcher → String → ℕ → Fetcher × Bool
  ask_robots f url k =
      let p = allowed fold parse_url client w bot_user_agent f.robots url k in
      (record f { robots = p.cache }, p.allowed)

  -- The check of robots.txt at event `k`: the fetcher with its rules, and whether to go on.
  unfoldable pub check_robots : Fetcher → String → ℕ → Fetcher × Bool
  unfolding ask_robots
  check_robots f url k = if f.respect_robots then ask_robots f url k else (f, true)

  -- The wait for the limiter and the check of robots.txt, which Fetch and FetchStream begin with.
  unfoldable pub admit : Fetcher → String → ℕ → Admitted
  unfolding check_robots
  admit f url k =
      let r = wait w fuel f.limiter k in
      let f' = record f { limiter = r.limiter } in
      elim r.outcome [
        | cancelled ↦ record { fetcher = f'; verdict = refused context_done; event = r.event }
        | waiting ↦ record { fetcher = f'; verdict = stuck; event = r.event }
        | passed ↦
            let (f'', go_on) = check_robots f' url r.event in
            record {
              fetcher = f'';
              verdict = if go_on then go else refused (disallowed url);
              event = 3 + r.event;
            }
      ]

  unfoldable pub fetch_net : Fetcher → String → ℕ → Fetch
  fetch_net f url k =
      let a = admit f url k in
      elim a.verdict [
        | go ↦ download a.fetcher url a.event
        | refused e ↦ record { fetcher = a.fetcher; ending = failed e; event = a.event }
        | stuck ↦ record { fetcher = a.fetcher; ending = hangs; event = a.event }
      ]

  -- The L2 tier: the fetcher after the lookup, and the page.
  unfoldable pub read_disk : Fetcher → String → ℕ → Fetcher × Option Page
  read_disk f url k = elim f.disk [
    | none ↦ (f, none)
    | some c ↦
        let found = DiskCache.read key codec c f.files url (w.clock k) in
        (record f { files = found.files }, found.page)
  ]

  -- Past the memory cache.
  unfoldable pub fetch_below : Fetcher → String → ℕ → Fetch
  unfolding read_disk
  fetch_below f url k =
      let (f', page) = read_disk f url (1 + k) in
      elim page [
        | some p ↦ record { fetcher = remember f' url p (2 + k); ending = fetched p; event = 3 + k }
        | none ↦ fetch_net f' url (3 + k)
      ]

  -- Fetch, from event `k`.
  unfoldable pub fetch : Fetcher → String → ℕ → Fetch
  fetch f url k = elim (parse_url url) [
    | none ↦ record { fetcher = f; ending = failed (bad_url url); event = k }
    | some u ↦ elim (get f.cache url) [
      | none ↦ fetch_below f url k
      | some ce ↦
          if ltb (w.clock k) ce.expires_at
          then record { fetcher = f; ending = fetched ce.page; event = 1 + k }
          else fetch_below f url k
    ]
  ]

  -- The goroutine of FetchStream from the request on, at event `k`. The
  -- messages of its errors say less than those of Fetch.
  unfoldable pub stream_down : Fetcher → String → ℕ → Streamed
  unfolding store limited
  stream_down f url k =
      let fail : Error → Streamed =
        λ e. record { fetcher = f; flowed = errored e; event = 3 + k } in
      if is_request url
      then elim (client k url) [
        | none ↦ fail (transport "")
        | some resp ↦
            if resp.status_code == 200
            then elim (extract_stream parse_html rfc3339 url (limited resp.body)) [
              | unparsed e ↦ fail e
              | extracted chunks page ↦ record {
                fetcher = store f url page (1 + k);
                flowed = done chunks page;
                event = 3 + k;
              }
            ]
            else fail (status "" resp.status_code)
      ]
      else fail (bad_request url)

  -- FetchStream, from event `k`. It does not look into the caches.
  unfoldable pub fetch_stream : Fetcher → String → ℕ → Streamed
  fetch_stream f url k =
      let a = admit f url k in
      elim a.verdict [
        | go ↦ stream_down a.fetcher url a.event
        | refused e ↦ record { fetcher = a.fetcher; flowed = errored e; event = a.event }
        | stuck ↦ record { fetcher = a.fetcher; flowed = never; event = a.event }
      ]

-- New, at time `now`.
unfoldable pub new : ℤ → ℕ → Bool → ℕ → Fetcher
new rps ttl respect_robots now = record {
  limiter = RateLimit.new rps now;
  cache = [];
  ttl = ttl;
  robots = [];
  respect_robots = respect_robots;
  disk = none;
  files = [];
}

-- SetDiskCache
unfoldable pub set_disk_cache : Fetcher → DiskCache.DiskCache → Fetcher
set_disk_cache f dc = record f { disk = some dc }
