-- ===== src/RateLimit/Bucket.antt =====
-- How many tokens ratelimit/ratelimit.go gives out, whichever goroutines ask for them.
use saka.Base.{ℕ, ◌+◌, ◌-◌, ◌*◌, ◌≤◌, ◌≡◌, List, [], ◌∷◌, arith, ap, refl, ◌∙◌}
use saka.RateLimit.{Limiter, token, refill, Taken, granted, short, take_token}

-- The bucket is never over its maximum.
abbrev pub IsBounded : Limiter → Type 0
IsBounded l = l.tokens ≤ l.max

abbrev pub after : Taken → Limiter
after (granted l) = l
after (short need l) = l

abbrev pub grants : Taken → ℕ
grants (granted l) = 1
grants (short need l) = 0

pub take_token-IsBounded : (l : Limiter) (now : ℕ) → IsBounded (after (take_token l now))
unfolding take_token refill
take_token-IsBounded l now = ground arith

-- The locked parts of any number of goroutines, in the order in which they get the lock: the
-- number of tokens given out and the bucket that is left.
pub record Served : Type 0 where
  pub count : ℕ
  pub left : Limiter

unfoldable pub serve : Limiter → List ℕ → Served
serve l [] = record { count = 0; left = l }
serve l (t ∷ ts) =
    let r = take_token l t in
    let rest = serve (after r) ts in record { count = grants r + rest.count; left = rest.left }

-- The times do not run backwards from `t`.
abbrev pub IsOrdered : ℕ → List ℕ → Type 0
IsOrdered t [] = Unit
IsOrdered t (u ∷ us) = (t ≤ u) × IsOrdered u us

abbrev pub last_time : ℕ → List ℕ → ℕ
last_time t [] = t
last_time t (u ∷ us) = last_time u us

-- One locked part: what it gives out and what it leaves is paid for by the time gone by.
pub take_token-paid :
    (l : Limiter) (now : ℕ)
    → let r = take_token l now in
      (grants r * token + (after r).tokens ≤ l.tokens + (now - l.last_fill) * l.rate)
      × ((after r).last_fill ≡ now)
      × ((after r).rate ≡ l.rate)
unfolding take_token refill
take_token-paid l now = ground arith

-- Time and tokens of two stretches of time add up.
pub spent-add : (a b c r : ℕ) → a ≤ b → b ≤ c → (b - a) * r + (c - b) * r ≡ (c - a) * r
spent-add a b c r h k = grind (arith, ap (λ (t : ℕ). t * r) (split))
  where
    split : b - a + (c - b) ≡ c - a
    split = omega arith

pub last_time-ge : (t : ℕ) (ts : List ℕ) → IsOrdered t ts → t ≤ last_time t ts
last_time-ge t [] h = omega arith
last_time-ge t (u ∷ us) h = omega (arith, last_time-ge u us h.1)

serve-paid :
    (l : Limiter) (t r : ℕ) (ts : List ℕ)
    → l.last_fill ≡ t
    → l.rate ≡ r
    → IsOrdered t ts
    → (serve l ts).count * token + (serve l ts).left.tokens ≤ l.tokens + (last_time t ts - t) * r
unfolding serve
serve-paid l t r [] e f h = omega arith
serve-paid l t r (u ∷ us) e f h =
    let (paid, fill, rate) = take_token-paid l u in
    let step : grants (take_token l u) * token + (after (take_token l u)).tokens
        ≤ l.tokens + (u - t) * r =
      rw (← e, ← f) paid in
    let ih = serve-paid (after (take_token l u)) u r us fill (rate ∙ f) h.1 in
    omega (arith, step, ih, spent-add t u (last_time u us) r h.0 (last_time-ge u us h.1))

-- The rate bound. Whichever goroutines call Wait and in whatever order they get the lock, the
-- tokens given out between two moments are at most those in the bucket at first and those that
-- the rate pays for in the time between.
pub serve_bound :
    (l : Limiter) (ts : List ℕ)
    → IsOrdered l.last_fill ts
    → (serve l ts).count * token ≤ l.tokens + (last_time l.last_fill ts - l.last_fill) * l.rate
serve_bound l ts h = omega (arith, serve-paid l l.last_fill l.rate ts refl refl h)
