-- ===== src/Fetch/Concurrent/Tests.antt =====
-- Tests of concurrent calls of fetch/fetch.go and instances of their theorems.
use saka.Base.{ℕ, ◌*◌, ◌+◌, ◌-◌, ◌≤◌, ◌≡◌, refl, false, List, [], ◌∷◌, arith}
use saka.World.{settled, settled-Timely}
use saka.RateLimit.{token}
use saka.Fetch.{fetch, set_disk_cache, new}
use saka.Fetch.DiskCache.{read}
use saka.Fetch.Tests.{go_net, fetcher, go_net-IsFaithful, fetcher-IsGenuine}
use saka.Fetch.Concurrent.{called, Call, System, run}
use saka.Fetch.Concurrent.Sound.{IsClean, run-IsClean}
use saka.Fetch.Concurrent.Polite.{all_under_way, requests, requests_bound}

abbrev caller : Call
caller = record { url = "https://go.dev"; stage = called }

-- Two calls for one page.
abbrev twins : System
twins = record { fetcher = fetcher; calls = caller ∷ caller ∷ []; event = 0 }

-- The calls move in turn.
abbrev in_turn : List ℕ
in_turn = 0 ∷ 1 ∷ 0 ∷ 1 ∷ 0 ∷ 1 ∷ 0 ∷ 1 ∷ 0 ∷ 1 ∷ 0 ∷ 1 ∷ 0 ∷ 1 ∷ 0 ∷ 1 ∷ []

run-IsClean_example : IsClean go_net settled 2 (run go_net settled 2 twins in_turn)
run-IsClean_example =
    run-IsClean go_net settled 2 twins in_turn go_net-IsFaithful
      (record { genuine = fetcher-IsGenuine; honest = (tt, (tt, tt)) })

filled : twins.fetcher.limiter.last_fill ≤ settled.clock twins.event
unfolding set_disk_cache new saka.RateLimit.new
filled = omega arith

requests_bound_example :
    requests go_net settled 2 twins in_turn * token
    ≤ all_under_way twins.calls * token
      + twins.fetcher.limiter.tokens
      + (settled.clock (run go_net settled 2 twins in_turn).event - twins.fetcher.limiter.last_fill)
        * twins.fetcher.limiter.rate
requests_bound_example = requests_bound go_net settled 2 twins in_turn settled-Timely filled

-- Where robots.txt is not read, neither call finds the page of the other in the caches.
abbrev rude : System
rude = record twins { fetcher = record fetcher { respect_robots = false } }

both_ask : requests go_net settled 2 rude (0 ∷ 1 ∷ 0 ∷ 1 ∷ 0 ∷ 1 ∷ 0 ∷ 1 ∷ 0 ∷ 1 ∷ []) ≡ 2
unfolding requests saka.Fetch.Concurrent.turn saka.Fetch.Concurrent.move
    saka.Fetch.Concurrent.look_up saka.Base.get set_disk_cache new
    saka.Fetch.Concurrent.look_on_disk saka.Fetch.read_disk read saka.Fetch.Concurrent.ask_limiter
    saka.RateLimit.take_token saka.RateLimit.new saka.Fetch.Concurrent.look_for_rules
both_ask = refl
