-- ===== src/Server/Auth/Bound.antt =====
-- How many requests the buckets of server/auth.go let through.
use saka.Base.{
  ℕ, ◌+◌, ◌-◌, ◌*◌, ◌≤◌, ◌≡◌, refl, ap, ◌∙◌, Bool, true, false, String, none, some, List, [], ◌∷◌,
  arith, Dict, get, get-put, eq_refl,
}
use saka.RateLimit.Bucket.{IsOrdered, last_time, last_time-ge, spent-add}
use saka.Server.Auth.{Bucket, token, new_bucket, refill, take_token, allow}

abbrev one_if : Bool → ℕ
one_if true = 1
one_if false = 0

-- The requests of a key at the given times, in the order in which they get the lock: how many
-- are let through, and the buckets that are left.
pub record Run : Type 0 where
  pub count : ℕ
  pub left : Dict Bucket

unfoldable pub run : String → ℕ → Dict Bucket → List ℕ → Run
run key rpm buckets [] = record { count = 0; left = buckets }
run key rpm buckets (t ∷ ts) =
    let a = allow buckets key rpm t t in
    let rest = run key rpm a.buckets ts in
    record { count = one_if a.granted + rest.count; left = rest.left }

take_token-paid :
    (rpm : ℕ) (b : Bucket) (now : ℕ)
    → let t = take_token rpm b now in
      (one_if t.granted * token + t.bucket.tokens ≤ b.tokens + (now - b.last_fill) * rpm)
      × (t.bucket.last_fill ≡ now)
unfolding take_token refill
take_token-paid rpm b now = ground arith

allow-known :
    (buckets : Dict Bucket) (key : String) (rpm created now : ℕ) (b : Bucket)
    → get buckets key ≡ some b
    → let a = allow buckets key rpm created now in
      (a.granted ≡ (take_token rpm b now).granted)
      × (get a.buckets key ≡ some (take_token rpm b now).bucket)
unfolding allow
allow-known buckets key rpm created now b e =
    rw (e, allow)
      (refl, get-put buckets key key (take_token rpm b now).bucket ∙ rw (eq_refl key) refl)

run-paid :
    (key : String) (rpm : ℕ) (buckets : Dict Bucket) (b : Bucket) (t : ℕ) (ts : List ℕ)
    → get buckets key ≡ some b
    → b.last_fill ≡ t
    → IsOrdered t ts
    → (run key rpm buckets ts).count * token ≤ b.tokens + (last_time t ts - t) * rpm
unfolding run
run-paid key rpm buckets b t [] e f h = omega arith
run-paid key rpm buckets b t (u ∷ us) e f h =
    let t' = take_token rpm b u in
    let (granted, kept) = allow-known buckets key rpm u u b e in
    let (paid, fill) = take_token-paid rpm b u in
    let step : one_if t'.granted * token + t'.bucket.tokens ≤ b.tokens + (u - t) * rpm =
      rw (← f) paid in
    let ih = run-paid key rpm (allow buckets key rpm u u).buckets t'.bucket u us kept fill h.1 in
    rw granted
      (omega (arith, step, ih, spent-add t u (last_time u us) rpm h.0 (last_time-ge u us h.1)))

allow-new :
    (buckets : Dict Bucket) (key : String) (rpm t : ℕ)
    → get buckets key ≡ none
    → let a = allow buckets key rpm t t in
      (a.granted ≡ (take_token rpm (new_bucket rpm t) t).granted)
      × (get a.buckets key ≡ some (take_token rpm (new_bucket rpm t) t).bucket)
unfolding allow
allow-new buckets key rpm t e =
    rw (e, allow)
      (
        refl,
        get-put buckets key key (take_token rpm (new_bucket rpm t) t).bucket
            ∙ rw (eq_refl key) refl,
      )

-- The requests of a new key that are let through from the first one on are at most `rpm`, and
-- `rpm` for each minute gone by, whichever goroutines serve them.
pub run_bound :
    (key : String) (rpm : ℕ) (buckets : Dict Bucket) (t : ℕ) (ts : List ℕ)
    → get buckets key ≡ none
    → IsOrdered t ts
    → (run key rpm buckets (t ∷ ts)).count * token ≤ rpm * token + (last_time t ts - t) * rpm
unfolding run new_bucket
run_bound key rpm buckets t ts e h =
    let t' = take_token rpm (new_bucket rpm t) t in
    let (granted, kept) = allow-new buckets key rpm t e in
    let (paid, fill) = take_token-paid rpm (new_bucket rpm t) t in
    let rest = run-paid key rpm (allow buckets key rpm t t).buckets t'.bucket t ts kept fill h in
    let gone : t - t ≡ 0 = omega arith in
    rw granted (omega (arith, paid, rest, ap (λ (d : ℕ). d * rpm) gone))
