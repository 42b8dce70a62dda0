-- ===== src/Chain/Shape.antt =====
-- What a search of chain/chain.go leaves alone in a chain, and the bound on its counters.
use saka.Base.{
  ℕ, zero, suc, ◌<◌, ◌≡◌, refl, List, [], ◌∷◌, Option, none, some, arith, All, ◌∙◌, ◌⊎◌, inl, inr,
}
use saka.World.{World}
use saka.Types.{Query, Provider, Error}
use saka.RateLimit.{Limiter}
use saka.RateLimit.Waiting.{wait_keeps}
use saka.Chain.{
  Entry, breaker_threshold, Attempted, Verdict, stop, retry, rounds, round, attempts, try_entry,
  search_from, search,
}

-- The same provider, retries and rate limit; the bucket's level and the breaker may differ.
pub record IsKept (e e' : Entry) : Type 0 where
  pub provider : e'.provider ≡ e.provider
  pub retries : e'.retries ≡ e.retries
  pub max : e'.limiter.max ≡ e.limiter.max
  pub rate : e'.limiter.rate ≡ e.limiter.rate

abbrev pub AreKept : List Entry → List Entry → Type 0
AreKept [] [] = Unit
AreKept [] (e' ∷ es') = ⊥
AreKept (e ∷ es) [] = ⊥
AreKept (e ∷ es) (e' ∷ es') = IsKept e e' × AreKept es es'

AreKept-refl : (es : List Entry) → AreKept es es
AreKept-refl [] = tt
AreKept-refl (e ∷ es) =
    (record { provider = refl; retries = refl; max = refl; rate = refl }, AreKept-refl es)

abbrev pub CountsBelow : List Entry → Type 0
CountsBelow = All (λ e. e.fails < breaker_threshold)

pub Verdict-cases : (v : Verdict) → ((o : Attempted) × (v ≡ stop o)) ⊎ ((x : Error) × (v ≡ retry x))
Verdict-cases (stop o) = inl (o, refl)
Verdict-cases (retry x) = inr (x, refl)

module _ (w : World) (fuel : ℕ) (q : Query) where
  pub round_keeps :
      (p : Provider) (a : ℕ) (l : Limiter) (k : ℕ)
      → ((round w fuel q p a l k).limiter.max ≡ l.max)
        × ((round w fuel q p a l k).limiter.rate ≡ l.rate)
  unfolding round
  round_keeps p a l k = ground (arith, wait_keeps w fuel l k)

  attempts_keep :
      (p : Provider) (n a : ℕ) (l : Limiter) (e : Option Error) (k : ℕ)
      → ((attempts w fuel q p n a l e k).limiter.max ≡ l.max)
        × ((attempts w fuel q p n a l e k).limiter.rate ≡ l.rate)
  unfolding attempts
  attempts_keep p zero a l e k = (refl, refl)
  attempts_keep p (suc n) a l e k = elim (Verdict-cases (round w fuel q p a l k).verdict) [
    | inl (o, h) ↦ rw (h, attempts) (round_keeps p a l k)
    | inr (x, h) ↦
        let r = round w fuel q p a l k in
        let (max, rate) = round_keeps p a l k in
        let (max', rate') = attempts_keep p n (suc a) r.limiter (some x) r.event in
        rw (h, attempts) (max' ∙ max, rate' ∙ rate)
  ]

  pub search_from-kept :
      (start : ℕ) (es : List Entry) (k : ℕ) → AreKept es (search_from w fuel q start es k).entries
  unfolding search_from try_entry
  search_from-kept start [] k = tt
  search_from-kept start (e ∷ es) k = ground (
    arith,
    AreKept-refl es,
    attempts_keep e.provider (rounds e.retries) 0 e.limiter none (suc k),
    search_from-kept start es (suc k),
    search_from-kept start es (suc (try_entry w fuel q e (suc k)).event),
  )

  search_from-CountsBelow :
      (start : ℕ) (es : List Entry) (k : ℕ)
      → CountsBelow es
      → CountsBelow (search_from w fuel q start es k).entries
  unfolding search_from
  search_from-CountsBelow start [] k h = tt
  search_from-CountsBelow start (e ∷ es) k h = ground (
    arith,
    search_from-CountsBelow start es (suc k) h.1,
    search_from-CountsBelow start es (suc (try_entry w fuel q e (suc k)).event) h.1,
  )

-- A search keeps the chain: the entries stay in order, each with its provider, its retries and
-- its rate limit, whatever the providers answer, and no counter of failures reaches the
-- breaker's threshold.
pub search_keeps :
    (w : World) (fuel : ℕ) (q : Query) (es : List Entry) (k : ℕ)
    → CountsBelow es
    → AreKept es (search w fuel q es k).entries × CountsBelow (search w fuel q es k).entries
unfolding search
search_keeps w fuel q es k h = (
  search_from-kept w fuel q (w.clock k) es (suc k),
  search_from-CountsBelow w fuel q (w.clock k) es (suc k) h,
)
