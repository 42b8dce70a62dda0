-- ===== src/RateLimit.antt =====
-- ratelimit/ratelimit.go: the token bucket. The source counts tokens in float64; the model counts
-- them exactly, in units of 10⁻¹² of a token, and takes rates in thousandths of a token per
-- second, so one nanosecond at rate `r` adds `r` units. Wait holds the lock from reading the clock
-- to taking the token, so that part is one step.
mod Tests
pub mod Bucket
pub mod Waiting
use saka.Base.{
  ℕ, zero, suc, ◌+◌, ◌-◌, ◌*◌, ◌/◌, min, ℤ, pos, negsuc, le_zero, pos_part, leb, if◌then◌else◌, ◌≡◌,
  refl, ◌⊎◌, inl, inr,
}
use saka.World.{World}

-- One token.
abbrev pub token : ℕ
token = 1_000_000_000_000

pub record Limiter : Type 0 where
  pub tokens : ℕ
  pub max : ℕ
  pub rate : ℕ
  pub last_fill : ℕ

unfoldable pub effective_rate : ℤ → ℕ
effective_rate rps = if le_zero rps then 1000 else pos_part rps

-- New(rps) at time `now`.
unfoldable pub new : ℤ → ℕ → Limiter
unfolding effective_rate
new rps now =
    let r = effective_rate rps in
    record { tokens = r * 1_000_000_000; max = r * 1_000_000_000; rate = r; last_fill = now }

unfoldable pub refill : Limiter → ℕ → Limiter
refill l now = record l {
  tokens = min l.max (l.tokens + (now - l.last_fill) * l.rate);
  last_fill = now;
}

-- What the locked part answers: a token is taken, or the nanoseconds to sleep.
pub data Taken : Type 0 where
  granted : Limiter → Taken
  short : ℕ → Limiter → Taken

unfoldable pub take_token : Limiter → ℕ → Taken
unfolding refill
take_token l now =
    let l' = refill l now in
    if leb token l'.tokens
    then granted (record l' { tokens = l'.tokens - token })
    else short ((token - l'.tokens) / l.rate) l'

pub Taken-cases :
    (t : Taken)
    → ((l : Limiter) × (t ≡ granted l)) ⊎ ((need : ℕ) × (l : Limiter) × (t ≡ short need l))
Taken-cases (granted l) = inl (l, refl)
Taken-cases (short need l) = inr (need, l, refl)

-- How Wait ends; `waiting` is a wait that has used up its fuel and is still in its loop.
pub data Waited : Type 0 where
  passed : Waited
  cancelled : Waited
  waiting : Waited

pub Waited-cases : (o : Waited) → (o ≡ passed) ⊎ (o ≡ cancelled) ⊎ (o ≡ waiting)
Waited-cases passed = inl refl
Waited-cases cancelled = inr (inl refl)
Waited-cases waiting = inr (inr refl)

pub record Wait : Type 0 where
  pub outcome : Waited
  pub limiter : Limiter
  pub event : ℕ

module _ (w : World) where
  -- Wait from event `k`: the clock is read at `k`, the `select` is event `suc k`.
  unfoldable pub wait : ℕ → Limiter → ℕ → Wait
  wait zero l k = record { outcome = waiting; limiter = l; event = k }
  wait (suc fuel) l k = elim (take_token l (w.clock k)) [
    | granted l' ↦ record { outcome = passed; limiter = l'; event = suc k }
    | short need l' ↦
        let again = wait fuel l' (suc (suc k)) in
        if w.done (suc k) need
        then record { outcome = cancelled; limiter = l'; event = suc (suc k) }
        else again
  ]
