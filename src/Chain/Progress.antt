-- ===== src/Chain/Progress.antt =====
-- When a search of chain/chain.go returns at all.
use saka.Base.{
  ℕ, zero, suc, ◌≤◌, ◌<◌, ◌≡◌, ◌≢◌, inl, inr, false, Option, none, some, List, [], ◌∷◌, arith, All,
  pos, ◌++◌, ◌∙◌, refl, ◌⊎◌, Bool-cases,
}
use saka.World.{World, Timely}
use saka.RateLimit
use saka.Types.{Query, Result, Error, no_results, Outcome-cases, Provider, ProviderConfig}
use saka.RateLimit.{Limiter, token, passed, cancelled, waiting, wait, Waited-cases}
use saka.RateLimit.Waiting.{wait_ends, wait_forever}
use saka.Chain.Shape.{Verdict-cases, round_keeps}
use saka.Chain.{
  Entry, entry_for, stuck, stop, rounds, hangs, pause, round, attempts, try_entry, search_from,
  search, failure, is_open, Attempted, failed, found, aborted,
}

-- A bucket that can hold a token and fills.
pub record HasRoom (l : Limiter) : Type 0 where
  pub room : token ≤ l.max
  pub fills : 0 < l.rate

module _ (w : World) (fuel : ℕ) (q : Query) (timely : Timely w) where
  pause-ne-stuck :
      (l : Limiter) (a k : ℕ) (x : Error)
      → (pause w (suc (suc fuel)) q l a k x).verdict ≢ stop stuck
  unfolding pause
  pause-ne-stuck l a k x = ground arith

  round-ne-stuck :
      (p : Provider) (a : ℕ) (l : Limiter) (k : ℕ)
      → HasRoom l
      → (round w (suc (suc fuel)) q p a l k).verdict ≢ stop stuck
  unfolding round
  round-ne-stuck p a l k h =
      let r = wait w (suc (suc fuel)) l k in
      ground (
        arith,
        wait_ends w fuel l k timely h.room h.fills,
        Waited-cases r.outcome,
        Outcome-cases (p.search r.event q),
      )

  attempts-ne-stuck :
      (p : Provider) (n a : ℕ) (l : Limiter) (e : Option Error) (k : ℕ)
      → HasRoom l
      → (attempts w (suc (suc fuel)) q p n a l e k).outcome ≢ stuck
  unfolding attempts
  attempts-ne-stuck p zero a l e k h = ground arith
  attempts-ne-stuck p (suc n) a l e k h =
      let r = round w (suc (suc fuel)) q p a l k in
      elim (Verdict-cases r.verdict) [
        | inl (o, eq) ↦ rw (eq, attempts) (λ s. round-ne-stuck p a l k h (rw s at eq))
        | inr (x, eq) ↦
            let (max, rate) = round_keeps w (suc (suc fuel)) q p a l k in
            rw (eq, attempts)
              (attempts-ne-stuck p n (suc a) r.limiter (some x) r.event
                (record { room = rw max h.room; fills = rw rate h.fills }))
      ]

  search_from-ne-hangs :
      (start : ℕ) (es : List Entry) (k : ℕ)
      → All (λ e. HasRoom e.limiter) es
      → (search_from w (suc (suc fuel)) q start es k).outcome ≢ hangs
  unfolding search_from try_entry
  search_from-ne-hangs start [] k h = ground arith
  search_from-ne-hangs start (e ∷ es) k h = ground (
    arith,
    attempts-ne-stuck e.provider (rounds e.retries) 0 e.limiter none (suc k) h.0,
    search_from-ne-hangs start es (suc k) h.1,
    search_from-ne-hangs start es (suc (try_entry w (suc (suc fuel)) q e (suc k)).event) h.1,
  )

-- On a clock that ticks and timers that fire, a search returns: if the bucket of every entry can
-- hold a token and fills, fuel for two rounds of each wait is enough.
pub search-ne-hangs :
    (w : World) (fuel : ℕ) (q : Query) (es : List Entry) (k : ℕ)
    → Timely w
    → All (λ e. HasRoom e.limiter) es
    → (search w (suc (suc fuel)) q es k).outcome ≢ hangs
unfolding search
search-ne-hangs w fuel q es k timely h =
    search_from-ne-hangs w fuel q timely (w.clock k) es (suc k) h

Attempted-cases :
    (o : Attempted)
    → ((last : Option Error) × (o ≡ failed last))
      ⊎ ((rs : List Result) × (o ≡ found rs))
      ⊎ (o ≡ aborted)
      ⊎ (o ≡ stuck)
Attempted-cases (failed last) = inl (last, refl)
Attempted-cases (found rs) = inr (inl (rs, refl))
Attempted-cases aborted = inr (inr (inl refl))
Attempted-cases stuck = inr (inr (inr refl))

module _ (w : World) (fuel : ℕ) (q : Query) where
  round-stuck :
      (p : Provider) (a : ℕ) (l : Limiter) (k : ℕ)
      → l.max < token
      → ((j d : ℕ) → w.done j d ≡ false)
      → (round w fuel q p a l k).verdict ≡ stop stuck
  unfolding round
  round-stuck p a l k h alive = rw (wait_forever w fuel l k h alive, round)

  -- Past the entries before, a search goes on as one of the entries behind.
  search_from-append :
      (start : ℕ) (before es : List Entry) (k : ℕ)
      → (search_from w fuel q start before k).outcome ≡ failure no_results
      → (search_from w fuel q start (before ++ es) k).outcome
        ≡ (search_from w fuel q start es (search_from w fuel q start before k).event).outcome
  unfolding search_from
  search_from-append start [] es k h = refl
  search_from-append start (e ∷ before) es k h =
      let a = try_entry w fuel q e (suc k) in
      elim (Bool-cases (is_open e (w.clock k))) [
        | inl skip ↦
            rw (skip, search_from)
              (search_from-append start before es (suc k) (rw (skip, search_from) at h))
        | inr shut ↦ elim (Attempted-cases a.outcome) [
          | inl (none, o) ↦
              rw (shut, search_from, o, search_from)
                (search_from-append start before es (suc a.event)
                  (rw (shut, search_from, o, search_from) at h))
          | inl (some x, o) ↦
              rw (shut, search_from, o, search_from)
                (search_from-append start before es (suc a.event)
                  (rw (shut, search_from, o, search_from) at h))
          | inr (inl (rs, o)) ↦ absurd (ground (arith, shut, o, h))
          | inr (inr (inl o)) ↦ absurd (ground (arith, shut, o, h))
          | inr (inr (inr o)) ↦ absurd (ground (arith, shut, o, h))
        ]
      ]

  starving-hangs :
      (start : ℕ) (e : Entry) (es : List Entry) (retries k : ℕ)
      → e.limiter.max < token
      → e.retries ≡ pos retries
      → is_open e (w.clock k) ≡ false
      → ((j d : ℕ) → w.done j d ≡ false)
      → (search_from w fuel q start (e ∷ es) k).outcome ≡ hangs
  unfolding search_from try_entry attempts
  starving-hangs start e es retries k small some_rounds closed alive =
      ground (arith, round-stuck e.provider 0 e.limiter (suc k) small alive)

-- An entry whose bucket has the size that New gives it for more than none and less than one
-- request per second stops every search that comes to it: wherever it stands in the chain and
-- whatever its bucket holds, if the search has passed over all entries before it, its breaker is
-- closed then, its number of retries is not negative and the context is never done, the search
-- never returns, however much fuel its waits have.
pub search-starves :
    (w : World) (fuel : ℕ) (q : Query) (cfg : ProviderConfig) (e : Entry) (before es : List Entry)
    (now rps retries k : ℕ)
    → cfg.rps ≡ pos rps
    → 0 < rps
    → rps < 1000
    → e.limiter.max ≡ (entry_for cfg now e.provider).limiter.max
    → e.retries ≡ pos retries
    → ((j d : ℕ) → w.done j d ≡ false)
    → (search w fuel q before k).outcome ≡ failure no_results
    → is_open e (w.clock (search w fuel q before k).event) ≡ false
    → (search w fuel q (before ++ e ∷ es) k).outcome ≡ hangs
unfolding search entry_for RateLimit.new
search-starves w fuel q cfg e before es now rps retries k rate low high size kept alive past
      closed =
    let small : e.limiter.max < token = ground arith in
    search_from-append w fuel q (w.clock k) before (e ∷ es) (suc k) past
    ∙ starving-hangs w fuel q (w.clock k) e es retries _ small kept closed alive
