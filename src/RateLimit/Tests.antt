-- ===== src/RateLimit/Tests.antt =====
-- Tests of ratelimit/ and instances of its theorems.
use saka.Base.{◌+◌, ◌-◌, ◌*◌, ◌≤◌, ◌≡◌, refl, [], ◌∷◌, arith, pos}
use saka.RateLimit.{Limiter, token, new, take_token}
use saka.RateLimit.Bucket.{serve, serve_bound}

-- Two requests per second, at time 0.
abbrev two_rps : Limiter
two_rps = record { tokens = 2_000_000_000_000; max = 2_000_000_000_000; rate = 2000; last_fill = 0 }

new_two : new (pos 2000) 0 ≡ two_rps
unfolding new
new_two = refl

three_calls : (serve two_rps (0 ∷ 0 ∷ 0 ∷ [])).count ≡ 2
unfolding serve take_token
three_calls = refl

serve_bound_example :
    (serve two_rps (0 ∷ 0 ∷ 500_000_000 ∷ [])).count * token
    ≤ two_rps.tokens + (500_000_000 - 0) * 2000
serve_bound_example = serve_bound two_rps (0 ∷ 0 ∷ 500_000_000 ∷ []) (omega arith)

-- One request in five seconds, as the default configuration has it for Startpage.
abbrev fifth_rps : Limiter
fifth_rps = record { tokens = 200_000_000_000; max = 200_000_000_000; rate = 200; last_fill = 0 }
