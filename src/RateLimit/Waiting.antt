-- ===== src/RateLimit/Waiting.antt =====
-- When Wait of ratelimit/ratelimit.go returns.
use saka.Base.{
  ℕ, zero, suc, ◌+◌, ◌-◌, ◌*◌, ◌/◌, ◌%◌, min, ◌≤◌, ◌<◌, ◌≡◌, ◌≢◌, refl, arith, true, false, ◌⊎◌,
  inl, inr, leb, Bool-cases, tests,
}
use native.Mathlib.Nat.{div-add-mod, mod-lt}
use saka.World.{World, Timely}
use saka.RateLimit.{
  Limiter, token, refill, granted, short, take_token, passed, cancelled, waiting, wait,
}

take_token-short :
    (l : Limiter) (now : ℕ)
    → l.max < token
    → take_token l now ≡ short ((token - (refill l now).tokens) / l.rate) (refill l now)
unfolding take_token refill
take_token-short l now h = ground arith

refill-max : (l : Limiter) (now : ℕ) → (refill l now).max ≡ l.max
unfolding refill
refill-max l now = refl

-- With room for less than one token in the bucket, no wait ever passes, on any clock and however
-- long it runs: only a cancelled context ends it.
pub wait_starves :
    (w : World) (fuel : ℕ) (l : Limiter) (k : ℕ)
    → l.max < token
    → (wait w fuel l k).outcome ≢ passed
unfolding wait
wait_starves w zero l k h = ground arith
wait_starves w (suc fuel) l k h =
    rw (take_token-short l (w.clock k) h, wait)
      (ground
        (arith, wait_starves w fuel (refill l (w.clock k)) (suc (suc k)), refill-max l (w.clock k)))

-- So while the context stays alive it loops for ever.
pub wait_forever :
    (w : World) (fuel : ℕ) (l : Limiter) (k : ℕ)
    → l.max < token
    → ((j d : ℕ) → w.done j d ≡ false)
    → (wait w fuel l k).outcome ≡ waiting
unfolding wait
wait_forever w zero l k h alive = refl
wait_forever w (suc fuel) l k h alive =
    rw (take_token-short l (w.clock k) h, wait, alive (suc k) _)
      (wait_forever w fuel (refill l (w.clock k)) (suc (suc k)) (rw (refill-max l (w.clock k)) h)
        alive)

-- One sleep is enough.
slept :
    (t now later rate : ℕ)
    → t < token
    → 0 < rate
    → now + (token - t) / rate < later
    → token ≤ t + (later - now) * rate
slept t now later rate h r s = omega (arith, total, left, paid)
  where
    q : ℕ
    q = (token - t) / rate

    total : rate * q + (token - t) % rate ≡ token - t
    total = div-add-mod (token - t) rate

    left : (token - t) % rate < rate
    left = mod-lt (token - t) r

    enough : q + 1 ≤ later - now
    enough = omega arith

    paid : (q + 1) * rate ≤ (later - now) * rate
    paid = grind arith

-- What a failed attempt leaves: the time to sleep pays for what is missing.
abbrev IsShort : Limiter → ℕ → ℕ → Limiter → Type 0
IsShort l now need l' =
    (l'.tokens ≡ min l.max (l.tokens + (now - l.last_fill) * l.rate))
    × (l'.tokens < token)
    × (need ≡ (token - l'.tokens) / l'.rate)
    × (l'.last_fill ≡ now)
    × (l'.max ≡ l.max)
    × (l'.rate ≡ l.rate)

pub take_token-cases :
    (l : Limiter) (now : ℕ)
    → ((l' : Limiter) × (take_token l now ≡ granted l'))
      ⊎ ((need : ℕ) × (l' : Limiter) × (take_token l now ≡ short need l') × IsShort l now need l')
unfolding take_token refill
take_token-cases l now = elim (Bool-cases (leb token (refill l now).tokens)) [
  | inl e ↦ inl (record (refill l now) { tokens = (refill l now).tokens - token }, rw e)
  | inr e ↦ inr (
    (token - (refill l now).tokens) / l.rate,
    refill l now,
    rw e,
    (refl, omega tests, refl, refl, refl, refl),
  )
]

take_token-slept :
    (l : Limiter) (now later : ℕ)
    → l.last_fill ≡ now
    → token ≤ l.max
    → l.tokens < token
    → 0 < l.rate
    → now + (token - l.tokens) / l.rate < later
    → (l' : Limiter) × (take_token l later ≡ granted l')
take_token-slept l now later e h b r s = elim (take_token-cases l later) [
  | inl found ↦ found
  | inr (need, l', _, lack) ↦
      let full : l'.tokens ≡ min l.max (l.tokens + (later - now) * l.rate) = rw (← e) lack.0 in
      absurd (omega (arith, full, lack.1, slept l.tokens now later l.rate b r s))
]

-- On a clock that ticks and timers that fire, a bucket that has room for a token and fills passes
-- every wait that is not cancelled, after one sleep at most.
pub wait_ends :
    (w : World) (fuel : ℕ) (l : Limiter) (k : ℕ)
    → Timely w
    → token ≤ l.max
    → 0 < l.rate
    → (wait w (suc (suc fuel)) l k).outcome ≢ waiting
unfolding wait
wait_ends w fuel l k timely h r = elim (take_token-cases l (w.clock k)) [
  | inl (l', e) ↦ rw (e, wait) (ground arith)
  | inr (need, l', e, lack) ↦ elim (Bool-cases (w.done (suc k) need)) [
    | inl gone ↦ rw (e, wait, gone) (ground arith)
    | inr alive ↦
        let (l'', e') =
          take_token-slept l' (w.clock k) (w.clock (suc (suc k))) lack.3 (rw lack.4 h) lack.1
            (rw lack.5 r)
            (omega (
              arith,
              lack.2,
              timely.ticks k,
              timely.ticks (suc k),
              timely.fires (suc k) need alive,
            )) in
        rw (e, wait, alive, e', wait) (ground arith)
  ]
]

-- A wait leaves the size and the rate of the bucket alone.
pub wait_keeps :
    (w : World) (fuel : ℕ) (l : Limiter) (k : ℕ)
    → ((wait w fuel l k).limiter.max ≡ l.max) × ((wait w fuel l k).limiter.rate ≡ l.rate)
unfolding wait take_token refill
wait_keeps w zero l k = (refl, refl)
wait_keeps w (suc fuel) l k = ground (arith, wait_keeps w fuel (refill l (w.clock k)) (suc (suc k)))

-- A wait is cancelled only by a `select` that takes ctx.Done().
pub wait_cancelled :
    (w : World) (fuel : ℕ) (l : Limiter) (k : ℕ)
    → (wait w fuel l k).outcome ≡ cancelled
    → (j : ℕ) × (d : ℕ) × (w.done j d ≡ true)
unfolding wait
wait_cancelled w zero l k h = cc
wait_cancelled w (suc fuel) l k h = elim (take_token-cases l (w.clock k)) [
  | inl (l', e) ↦ absurd (ground arith)
  | inr (need, l', e, _) ↦ elim (Bool-cases (w.done (suc k) need)) [
    | inl gone ↦ (suc k, need, gone)
    | inr alive ↦ wait_cancelled w fuel l' (suc (suc k)) (ground arith)
  ]
]
