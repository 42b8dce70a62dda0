-- ===== src/Chain/Fallback.antt =====
-- Where the answer of a search of chain/chain.go comes from.
use saka.Base.{
  ℕ, zero, suc, ◌≤◌, ◌≡◌, refl, ◌⊎◌, inl, inr, true, false, Option, none, some, List, [], ◌∷◌,
  arith, leb, Bool-cases, tests,
}
use saka.World.{World}
use saka.Types.{Query, Results, Error, ok, err, Outcome-cases, Provider}
use saka.RateLimit.{Limiter, token, Waited-cases, passed, wait}
use saka.RateLimit.Waiting.{wait_starves, wait_cancelled}
use saka.Chain.Shape.{Verdict-cases, round_keeps}
use saka.Chain.{
  Entry, Attempted, found, failed, aborted, stuck, Verdict, stop, retry, rounds, success,
  is_rate_limit, backoff, pause, round, attempts, try_entry, is_open, search_from, search,
}

module _ (w : World) (q : Query) where
  -- Why a search went past an entry: its breaker was open, it allows no attempt, its provider
  -- answered with an error, or the context was done while it waited.
  pub data Passed (e : Entry) : Type 0 where
    opened : (j : ℕ) → is_open e (w.clock j) ≡ true → Passed e
    no_rounds : rounds e.retries ≡ 0 → Passed e
    refused : (j : ℕ) (x : Error) → e.provider.search j q ≡ err x → Passed e
    gone : (j d : ℕ) → w.done j d ≡ true → Passed e

  -- The results are the answer of the first entry that was not passed over; it answered while its
  -- breaker was closed and its bucket has room for a token.
  pub data Fallback : List Entry → Results → Type 0 where
    answers :
        {e : Entry} {es : List Entry} {r : Results}
        → (i j : ℕ) → is_open e (w.clock i) ≡ false
        → e.provider.search j q ≡ ok r.results
        → r.provider ≡ e.provider.name
        → r.query ≡ q.text
        → token ≤ e.limiter.max
        → Fallback (e ∷ es) r
    passes :
        {e : Entry} {es : List Entry} {r : Results} → Passed e → Fallback es r → Fallback (e ∷ es) r

module _ (w : World) (fuel : ℕ) (q : Query) where
  -- What each verdict of a round says.
  abbrev IsFair : Provider → Limiter → Verdict → Type 0
  IsFair p l (stop (found rs)) = (j : ℕ) × (p.search j q ≡ ok rs) × (token ≤ l.max)
  IsFair p l (stop (failed e)) =
      ((j : ℕ) × (x : Error) × (p.search j q ≡ err x)) ⊎ ((j : ℕ) × (d : ℕ) × (w.done j d ≡ true))
  IsFair p l (stop aborted) = Unit
  IsFair p l (stop stuck) = Unit
  IsFair p l (retry x) = (j : ℕ) × (p.search j q ≡ err x)

  passed-room : (l : Limiter) (k : ℕ) → (wait w fuel l k).outcome ≡ passed → token ≤ l.max
  passed-room l k h = elim (Bool-cases (leb token l.max)) [
    | inl room ↦ omega tests
    | inr small ↦ absurd (wait_starves w fuel l k (omega tests) h)
  ]

  pause-IsFair :
      (p : Provider) (l l' : Limiter) (a k j : ℕ) (x : Error)
      → p.search j q ≡ err x
      → IsFair p l (pause w fuel q l' a k x).verdict
  unfolding pause
  pause-IsFair p l l' a k j x e = elim (Bool-cases (is_rate_limit x)) [
    | inl limited ↦ rw limited (inl (j, x, e))
    | inr other ↦ elim (Bool-cases (w.done (suc k) (backoff w k a))) [
      | inl over ↦ rw (other, over) tt
      | inr alive ↦ rw (other, alive) (j, e)
    ]
  ]

  round-IsFair :
      (p : Provider) (a : ℕ) (l : Limiter) (k : ℕ) → IsFair p l (round w fuel q p a l k).verdict
  unfolding round
  round-IsFair p a l k =
      let r = wait w fuel l k in
      elim (Waited-cases r.outcome) [
        | inl e ↦ elim (Outcome-cases (p.search r.event q)) [
          | inl (rs, answer) ↦ rw (e, round, answer, round) (r.event, answer, passed-room l k e)
          | inr (x, refusal) ↦
              rw (e, round, refusal, round)
                (pause-IsFair p l r.limiter a (suc r.event) r.event x refusal)
        ]
        | inr (inl e) ↦ rw (e, round) (inr (wait_cancelled w fuel l k e))
        | inr (inr e) ↦ rw (e, round) tt
      ]

  -- The same of the whole loop; with no round there is no error.
  abbrev IsFairLoop : Provider → ℕ → Limiter → Attempted → Type 0
  IsFairLoop p n l (found rs) = IsFair p l (stop (found rs))
  IsFairLoop p n l (failed e) = (n ≡ 0) ⊎ IsFair p l (stop (failed e))
  IsFairLoop p n l aborted = Unit
  IsFairLoop p n l stuck = Unit

  stop-IsFairLoop :
      (p : Provider) (n : ℕ) (l : Limiter) (o : Attempted)
      → IsFair p l (stop o)
      → IsFairLoop p n l o
  stop-IsFairLoop p n l (found rs) h = h
  stop-IsFairLoop p n l (failed e) h = inr h
  stop-IsFairLoop p n l aborted h = tt
  stop-IsFairLoop p n l stuck h = tt

  -- A loop that goes on after an error of the provider.
  IsFairLoop-retry :
      (p : Provider) (n m : ℕ) (l l' : Limiter) (o : Attempted) (j : ℕ) (x : Error)
      → l'.max ≡ l.max
      → p.search j q ≡ err x
      → IsFairLoop p n l' o
      → IsFairLoop p m l o
  IsFairLoop-retry p n m l l' (found rs) j x e refusal (i, answer, room) =
      (i, answer, rw (← e) room)
  IsFairLoop-retry p n m l l' (failed last) j x e refusal h = inr (inl (j, x, refusal))
  IsFairLoop-retry p n m l l' aborted j x e refusal h = tt
  IsFairLoop-retry p n m l l' stuck j x e refusal h = tt

  attempts-IsFairLoop :
      (p : Provider) (n a : ℕ) (l : Limiter) (e : Option Error) (k : ℕ)
      → IsFairLoop p n l (attempts w fuel q p n a l e k).outcome
  unfolding attempts
  attempts-IsFairLoop p zero a l e k = inl refl
  attempts-IsFairLoop p (suc n) a l e k =
      let r = round w fuel q p a l k in
      let fair = round-IsFair p a l k in
      elim (Verdict-cases r.verdict) [
        | inl (o, h) ↦ rw (h, attempts) (stop-IsFairLoop p (suc n) l o (rw h at fair))
        | inr (x, h) ↦
            let (j, refusal) = (let f : IsFair p l (retry x) = rw h at fair in f) in
            rw (h, attempts)
              (IsFairLoop-retry p n (suc n) l r.limiter
                (attempts w fuel q p n (suc a) r.limiter (some x) r.event).outcome j x
                (round_keeps w fuel q p a l k).0 refusal
                (attempts-IsFairLoop p n (suc a) r.limiter (some x) r.event))
      ]

  -- The search at an entry whose breaker is closed, by the outcome of its attempts.
  try_entry-Fallback :
      (start : ℕ) (e : Entry) (es : List Entry) (k : ℕ) (r : Results) (o : Attempted)
      → is_open e (w.clock k) ≡ false
      → (try_entry w fuel q e (suc k)).outcome ≡ o
      → IsFairLoop e.provider (rounds e.retries) e.limiter o
      → ((search_from w fuel q start es (suc (try_entry w fuel q e (suc k)).event)).outcome
            ≡ success r
          → Fallback w q es r)
      → (search_from w fuel q start (e ∷ es) k).outcome ≡ success r
      → Fallback w q (e ∷ es) r
  unfolding search_from
  try_entry-Fallback start e es k r (found rs) shut eq (j, answer, room) ih h =
      answers k j shut (ground arith) (ground arith) (ground arith) room
  try_entry-Fallback start e es k r (failed none) shut eq (inl none_left) ih h =
      passes (no_rounds none_left) (ih (ground arith))
  try_entry-Fallback start e es k r (failed (some x)) shut eq (inl none_left) ih h =
      passes (no_rounds none_left) (ih (ground arith))
  try_entry-Fallback start e es k r (failed none) shut eq (inr (inl (j, x, refusal))) ih h =
      passes (refused j x refusal) (ih (ground arith))
  try_entry-Fallback start e es k r (failed (some y)) shut eq (inr (inl (j, x, refusal))) ih h =
      passes (refused j x refusal) (ih (ground arith))
  try_entry-Fallback start e es k r (failed none) shut eq (inr (inr (j, d, done))) ih h =
      passes (gone j d done) (ih (ground arith))
  try_entry-Fallback start e es k r (failed (some y)) shut eq (inr (inr (j, d, done))) ih h =
      passes (gone j d done) (ih (ground arith))
  try_entry-Fallback start e es k r aborted shut eq fair ih h = absurd (ground arith)
  try_entry-Fallback start e es k r stuck shut eq fair ih h = absurd (ground arith)

  search_from-Fallback :
      (start : ℕ) (es : List Entry) (k : ℕ) (r : Results)
      → (search_from w fuel q start es k).outcome ≡ success r
      → Fallback w q es r
  unfolding search_from
  search_from-Fallback start [] k r h = cc
  search_from-Fallback start (e ∷ es) k r h = elim (Bool-cases (is_open e (w.clock k))) [
    | inl skip ↦
        passes (opened k skip)
          (search_from-Fallback start es (suc k) r (rw (skip, search_from) at h))
    | inr shut ↦
        try_entry-Fallback start e es k r (try_entry w fuel q e (suc k)).outcome shut refl
          (unfold try_entry in
            attempts-IsFairLoop e.provider (rounds e.retries) 0 e.limiter none (suc k))
          (search_from-Fallback start es (suc (try_entry w fuel q e (suc k)).event) r) h
  ]

-- A successful search answers from the first entry that it did not pass over: the results are
-- what that provider returned, under its name and for the query's text, and its breaker was
-- closed; each entry before it was passed over for one of the reasons of `Passed`.
pub search-Fallback :
    (w : World) (fuel : ℕ) (q : Query) (es : List Entry) (k : ℕ) (r : Results)
    → (search w fuel q es k).outcome ≡ success r
    → Fallback w q es r
unfolding search
search-Fallback w fuel q es k r h = search_from-Fallback w fuel q (w.clock k) es (suc k) r h
