-- ===== src/Chain.antt =====
-- chain/chain.go: providers tried in order, with rate limits, retries and circuit breakers. The
-- mutex guards single reads and writes of an entry's breaker, each of which is one step here.
-- Waits run on fuel, see RateLimit.
mod Tests
pub mod Breaker
pub mod Shape
pub mod Fallback
pub mod Progress
use saka.Base.{
  ℕ, zero, suc, ◌+◌, ◌-◌, ◌*◌, ◌/◌, ◌%◌, ◌^◌, Bool, true, false, Option, none, some, List, [], ◌∷◌,
  ◌++◌, ℤ, pos, negsuc, ltb, leb, str_eq, if◌then◌else◌,
}
use saka.World.{World}
use saka.Types.{
  second, Query, Result, Results, Error, rate_limit, context_done, no_results, Outcome, ok, err,
  Provider, ProviderConfig,
}
use saka.RateLimit
use saka.RateLimit.{Limiter, Waited, passed, cancelled, waiting, wait}

pub record Entry : Type 0 where
  pub provider : Provider
  pub limiter : Limiter
  pub retries : ℤ
  pub fails : ℕ
  pub open_until : ℕ

abbrev pub breaker_threshold : ℕ
breaker_threshold = 3

abbrev pub breaker_cooldown : ℕ
breaker_cooldown = 30 * second

unfoldable pub entry_for : ProviderConfig → ℕ → Provider → Entry
entry_for cfg now p = record {
  provider = p;
  limiter = RateLimit.new cfg.rps now;
  retries = cfg.retries;
  fails = 0;
  open_until = 0;
}

-- The inner loop of New: an entry for each provider of the config's name. Each new limiter reads
-- the clock, so the event moves on.
unfoldable pub entries_for : World → ProviderConfig → List Provider → ℕ → List Entry × ℕ
entries_for w cfg [] k = ([], k)
entries_for w cfg (p ∷ ps) k =
    let (later, k') = entries_for w cfg ps (if str_eq p.name cfg.name then suc k else k) in
    (if str_eq p.name cfg.name then entry_for cfg (w.clock k) p ∷ later else later, k')

unfoldable pub new : World → List ProviderConfig → List Provider → ℕ → List Entry × ℕ
new w [] ps k = ([], k)
new w (cfg ∷ cfgs) ps k =
    let (here, k') = entries_for w cfg ps k in
    let (later, k'') = new w cfgs ps k' in (here ++ later, k'')

unfoldable pub is_open : Entry → ℕ → Bool
is_open e now = ltb now e.open_until

unfoldable pub record_success : Entry → Entry
record_success e = record e { fails = 0 }

unfoldable pub record_failure : Entry → ℕ → Entry
record_failure e now =
    if leb breaker_threshold (suc e.fails)
    then record e { open_until = now + breaker_cooldown; fails = 0 }
    else record e { fails = suc e.fails }

unfoldable pub is_rate_limit : Error → Bool
is_rate_limit (rate_limit p d) = true
is_rate_limit _ = false

-- An int64 keeps its bits: `1 << attempt` and the product wrap at 2⁶⁴. From attempt 35 on the
-- product is no positive int64 and rand.Int63n panics; Validate allows 5 retries at most, and the
-- model goes on.
unfoldable pub backoff_base : ℕ → ℕ
backoff_base attempt = 2 ^ attempt % 2 ^ 64 * 500_000_000 % 2 ^ 64

unfoldable pub backoff : World → ℕ → ℕ → ℕ
unfolding backoff_base
backoff w k attempt = let d = backoff_base attempt in d + w.rand k (d / 2)

-- How the attempts on one provider end: with results, without and the last error, because the
-- context is done during a pause, or never (a wait that is out of fuel).
pub data Attempted : Type 0 where
  found : List Result → Attempted
  failed : Option Error → Attempted
  aborted : Attempted
  stuck : Attempted

pub record Attempt : Type 0 where
  pub outcome : Attempted
  pub limiter : Limiter
  pub event : ℕ

-- One round of the retry loop ends the loop or goes on with the error of the call.
pub data Verdict : Type 0 where
  stop : Attempted → Verdict
  retry : Error → Verdict

pub record Round : Type 0 where
  pub verdict : Verdict
  pub limiter : Limiter
  pub event : ℕ

-- `attempt <= e.retries` from 0.
abbrev pub rounds : ℤ → ℕ
rounds (pos n) = suc n
rounds (negsuc n) = 0

pub data Searched : Type 0 where
  success : Results → Searched
  failure : Error → Searched
  hangs : Searched

pub record Search : Type 0 where
  pub entries : List Entry
  pub outcome : Searched
  pub event : ℕ

module _ (w : World) (fuel : ℕ) (q : Query) where
  -- After a call that failed at event `k`: a break on a rate limit, else the pause of attempt `a`.
  unfoldable pub pause : Limiter → ℕ → ℕ → Error → Round
  unfolding is_rate_limit
  pause l a k x =
      if is_rate_limit x
      then record { verdict = stop (failed (some x)); limiter = l; event = k }
      else if w.done (suc k) (backoff w k a)
      then record { verdict = stop aborted; limiter = l; event = 2 + k }
      else record { verdict = retry x; limiter = l; event = 2 + k }

  -- The body of the retry loop.
  unfoldable pub round : Provider → ℕ → Limiter → ℕ → Round
  unfolding pause
  round p a l k =
      let r = wait w fuel l k in
      elim r.outcome [
        | cancelled ↦ record {
          verdict = stop (failed (some context_done));
          limiter = r.limiter;
          event = r.event;
        }
        | waiting ↦ record { verdict = stop stuck; limiter = r.limiter; event = r.event }
        | passed ↦ elim (p.search r.event q) [
          | ok rs ↦ record { verdict = stop (found rs); limiter = r.limiter; event = suc r.event }
          | err x ↦ pause r.limiter a (suc r.event) x
        ]
      ]

  -- The retry loop: rounds left, the number of the attempt, the last error.
  unfoldable pub attempts : Provider → ℕ → ℕ → Limiter → Option Error → ℕ → Attempt
  attempts p zero a l e k = record { outcome = failed e; limiter = l; event = k }
  attempts p (suc n) a l e k =
      let r = round p a l k in
      elim r.verdict [
        | stop o ↦ record { outcome = o; limiter = r.limiter; event = r.event }
        | retry x ↦ attempts p n (suc a) r.limiter (some x) r.event
      ]

  unfoldable pub try_entry : Entry → ℕ → Attempt
  unfolding attempts
  try_entry e k = attempts e.provider (rounds e.retries) 0 e.limiter none k

  results_of : Entry → List Result → ℕ → Results
  results_of e rs took = record {
    query = q.text;
    results = rs;
    provider = e.provider.name;
    took_ms = took / 1_000_000;
  }

  -- The loop over the entries, from event `k`; `start` is the time of the call.
  unfoldable pub search_from : ℕ → List Entry → ℕ → Search
  unfolding is_open record_success record_failure results_of
  search_from start [] k = record { entries = []; outcome = failure no_results; event = k }
  search_from start (e ∷ es) k = elim (is_open e (w.clock k)) [
    | true ↦ let rest = search_from start es (suc k) in record rest { entries = e ∷ rest.entries }
    | false ↦
        let a = try_entry e (suc k) in
        let e' = record e { limiter = a.limiter } in
        elim a.outcome [
          | found rs ↦ record {
            entries = record_success e' ∷ es;
            outcome = success (results_of e rs (w.clock a.event - start));
            event = suc a.event;
          }
          | aborted ↦ record { entries = e' ∷ es; outcome = failure context_done; event = a.event }
          | stuck ↦ record { entries = e' ∷ es; outcome = hangs; event = a.event }
          | failed last ↦
              let rest = search_from start es (suc a.event) in
              elim last [
                | none ↦ record rest { entries = e' ∷ rest.entries }
                | some x ↦ record rest {
                  entries = record_failure e' (w.clock a.event) ∷ rest.entries;
                }
              ]
        ]
  ]

  -- Search from event `k`.
  unfoldable pub search : List Entry → ℕ → Search
  unfolding search_from
  search es k = search_from (w.clock k) es (suc k)
