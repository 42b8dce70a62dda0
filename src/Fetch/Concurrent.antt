-- ===== src/Fetch/Concurrent.antt =====
-- fetch/fetch.go: calls of Fetch that run at the same time on one Fetcher. The caches of memory
-- and robots.txt and the limiter each have a lock that Fetch holds for one lookup or one write: a
-- move below is such a part, or what a call does on its own between two of them. The disk cache
-- has no lock: a move reads or writes the whole of a file. A call of FetchStream is one that
-- starts at the limiter; its chunks change nothing that is shared.
pub mod Safe
pub mod Sound
pub mod Reaches
pub mod Alone
pub mod Quiet
pub mod Polite
mod Tests
use saka.Base.{
  ℕ, zero, suc, ◌+◌, Bool, true, false, String, Option, none, some, List, [], ◌∷◌, ltb, get, put,
  if◌then◌else◌,
}
use saka.World.{World}
use saka.RateLimit.{granted, short, take_token}
use saka.Types.{Page, Error, context_done, bad_url, disallowed, bad_request, transport, ok, err}
use saka.Fetch.DiskCache
use saka.Fetch.Extract.{extract}
use saka.Fetch.Robots.{Url, is_fresh, permits, robots_url, rules_from}
use saka.Fetch.{
  Net, Fetcher, Ending, fetched, failed, limited, remember, status_error, read_disk, bot_user_agent,
}

-- Where a call is: at its start, past the memory cache, with a page of the disk, in the loop of
-- Wait, asleep for some nanoseconds, before robots.txt, without rules for the host, before
-- its own request, with a page of the network, with that page in the memory cache, returned.
pub data Stage : Type 0 where
  called : Stage
  missed : Stage
  on_file : Page → Stage
  waiting : Stage
  asleep : ℕ → Stage
  admitted : Stage
  ruleless : Url → Stage
  cleared : Stage
  loaded : Page → Stage
  kept : Page → Stage
  ended : Ending → Stage

-- A move of a call: the fetcher, the stage and the next event.
pub record Move : Type 0 where
  pub fetcher : Fetcher
  pub stage : Stage
  pub event : ℕ

pub record Call : Type 0 where
  pub url : String
  pub stage : Stage

-- A fetcher and the calls that run on it.
pub record System : Type 0 where
  pub fetcher : Fetcher
  pub calls : List Call
  pub event : ℕ

module _ (n : Net) (w : World) (fuel : ℕ) where
  open n use {parse_url, is_request, client, parse_html, rfc3339, fold, key, codec}

  -- The lookup in memory.
  unfoldable pub look_up : Fetcher → String → ℕ → Move
  look_up f url k = elim (parse_url url) [
    | none ↦ record { fetcher = f; stage = ended (failed (bad_url url)); event = k }
    | some u ↦ elim (get f.cache url) [
      | none ↦ record { fetcher = f; stage = missed; event = 1 + k }
      | some ce ↦
          if ltb (w.clock k) ce.expires_at
          then record { fetcher = f; stage = ended (fetched ce.page); event = 1 + k }
          else record { fetcher = f; stage = missed; event = 1 + k }
    ]
  ]

  unfoldable pub look_on_disk : Fetcher → String → ℕ → Move
  look_on_disk f url k =
      let (f', page) = read_disk n w fuel f url k in
      elim page [
        | some p ↦ record { fetcher = f'; stage = on_file p; event = 1 + k }
        | none ↦ record { fetcher = f'; stage = waiting; event = 2 + k }
      ]

  -- The locked part of Wait.
  unfoldable pub ask_limiter : Fetcher → ℕ → Move
  ask_limiter f k = elim (take_token f.limiter (w.clock k)) [
    | granted l ↦ record { fetcher = record f { limiter = l }; stage = admitted; event = suc k }
    | short need l ↦ record {
      fetcher = record f { limiter = l };
      stage = asleep need;
      event = suc k;
    }
  ]

  -- And its select.
  unfoldable pub wake : Fetcher → ℕ → ℕ → Move
  wake f need k = record {
    fetcher = f;
    stage = if w.done k need then ended (failed context_done) else waiting;
    event = suc k;
  }

  abbrev pub judged : String → Bool → Stage
  judged url allowed = if allowed then cleared else ended (failed (disallowed url))

  -- The lookup of the rules of the host.
  unfoldable pub look_for_rules : Fetcher → String → ℕ → Move
  look_for_rules f url k =
      if f.respect_robots
      then elim (parse_url url) [
        | none ↦ record { fetcher = f; stage = judged url false; event = 3 + k }
        | some u ↦ elim (get f.robots u.host) [
          | none ↦ record { fetcher = f; stage = ruleless u; event = 1 + k }
          | some hr ↦
              if is_fresh hr (w.clock k)
              then record { fetcher = f; stage = judged url (permits hr u.path); event = 3 + k }
              else record { fetcher = f; stage = ruleless u; event = 1 + k }
        ]
      ]
      else record { fetcher = f; stage = cleared; event = 3 + k }

  -- The request of robots.txt; its rules are written whatever the cache holds by then.
  unfoldable pub fetch_rules : Fetcher → String → Url → ℕ → Move
  fetch_rules f url u k =
      let hr = rules_from fold bot_user_agent (w.clock k) (client (1 + k) (robots_url u)) in
      record {
        fetcher = record f { robots = put f.robots u.host hr };
        stage = judged url (permits hr u.path);
        event = 2 + k;
      }

  -- The request of the page, and its extraction.
  unfoldable pub load : Fetcher → String → ℕ → Move
  load f url k =
      let fail : Error → Move =
        λ e. record { fetcher = f; stage = ended (failed e); event = 3 + k } in
      if is_request url
      then elim (client k url) [
        | none ↦ fail (transport "fetch")
        | some resp ↦ elim (status_error n w fuel url resp.status_code) [
          | some e ↦ fail e
          | none ↦ elim (extract parse_html rfc3339 url (limited resp.body)) [
            | err e ↦ fail e
            | ok page ↦ record { fetcher = f; stage = loaded page; event = 1 + k }
          ]
        ]
      ]
      else fail (bad_request url)

  unfoldable pub put_on_disk : Fetcher → String → Page → ℕ → Fetcher
  put_on_disk f url page k = elim f.disk [
    | none ↦ f
    | some c ↦ record f { files = DiskCache.write key codec c f.files url page (w.clock k) }
  ]

  -- One move of a call, at event `k`.
  unfoldable pub move : Fetcher → String → Stage → ℕ → Move
  move f url called k = look_up f url k
  move f url missed k = look_on_disk f url k
  move f url (on_file p) k = record {
    fetcher = remember n w fuel f url p k;
    stage = ended (fetched p);
    event = 1 + k;
  }
  move f url waiting k = ask_limiter f k
  move f url (asleep need) k = wake f need k
  move f url admitted k = look_for_rules f url k
  move f url (ruleless u) k = fetch_rules f url u k
  move f url cleared k = load f url k
  move f url (loaded p) k = record {
    fetcher = remember n w fuel f url p k;
    stage = kept p;
    event = 1 + k;
  }
  move f url (kept p) k = record {
    fetcher = put_on_disk f url p k;
    stage = ended (fetched p);
    event = 1 + k;
  }
  move f url (ended e) k = record { fetcher = f; stage = ended e; event = k }

  -- The move of call `i` among the calls.
  unfoldable pub turn : Fetcher → List Call → ℕ → ℕ → System
  turn f [] i k = record { fetcher = f; calls = []; event = k }
  turn f (c ∷ cs) zero k =
      let m = move f c.url c.stage k in
      record { fetcher = m.fetcher; calls = record c { stage = m.stage } ∷ cs; event = m.event }
  turn f (c ∷ cs) (suc i) k = let s = turn f cs i k in record s { calls = c ∷ s.calls }

  -- The calls move in the order of a schedule.
  unfoldable pub run : System → List ℕ → System
  run s [] = s
  run s (i ∷ schedule) = run (turn s.fetcher s.calls i s.event) schedule
