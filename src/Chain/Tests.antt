-- ===== src/Chain/Tests.antt =====
-- Tests of chain/ and instances of its theorems.
use saka.Base.{
  ℕ, ◌+◌, ◌<◌, ◌≡◌, ◌↔◌, refl, ◌≢◌, List, [], ◌∷◌, ◌++◌, String, arith, pos, true, false,
}
use saka.World.{World, settled, settled-Timely}
use saka.Types.{Query, Provider, ProviderConfig, Result, Results, ok, err, status, no_results}
use saka.RateLimit
use saka.RateLimit.{take_token, wait}
use saka.Chain.{
  Entry, entry_for, try_entry, attempts, search_from, failure, round, backoff, search, success,
  hangs, is_open, breaker_cooldown,
}
use saka.Chain.Breaker.{failed_at, after_reports, is_open-after_reports}
use saka.Chain.Shape.{AreKept, CountsBelow, search_keeps}
use saka.Chain.Fallback.{Fallback, search-Fallback}
use saka.Chain.Progress.{search-ne-hangs, search-starves}

abbrev query : Query
query = record {
  text = "go";
  max_results = pos 5;
  region = "";
  safe_search = false;
  site = "";
  vertical = "";
}

abbrev go_hit : Result
go_hit = record {
  title = "Go";
  url = "https://go.dev";
  snippet = "";
  source = "b";
  position = 1;
  thumbnail_url = "";
  width = pos 0;
  height = pos 0;
}

abbrev broken : Provider
broken = record { name = "a"; search = λ k q. err (status "a" 500) }

abbrev working : Provider
working = record { name = "b"; search = λ k q. ok (go_hit ∷ []) }

abbrev config : String → ℕ → ProviderConfig
config name rps = record { name = name; url = ""; rps = pos rps; retries = pos 1; vertical = "" }

abbrev entries : List Entry
entries = entry_for (config "a" 1000) 0 broken ∷ entry_for (config "b" 1000) 0 working ∷ []

abbrev answer : Results
answer = record { query = "go"; results = go_hit ∷ []; provider = "b"; took_ms = 28000000 }

-- The broken provider is tried twice, then the working one answers.
falls_back : (search settled 2 query entries 0).outcome ≡ success answer
unfolding search entry_for RateLimit.new wait take_token try_entry round backoff
falls_back = refl

search-Fallback_example : Fallback settled query entries answer
search-Fallback_example = search-Fallback settled 2 query entries 0 answer falls_back

search_keeps_example :
    AreKept entries (search settled 2 query entries 0).entries
    × CountsBelow (search settled 2 query entries 0).entries
unfolding entry_for
search_keeps_example = search_keeps settled 2 query entries 0 (omega arith)

search-ne-hangs_example : (search settled 2 query entries 0).outcome ≢ hangs
unfolding entry_for RateLimit.new
search-ne-hangs_example = search-ne-hangs settled 0 query entries 0 settled-Timely (omega arith)

-- A context that is never done.
abbrev patient : World
patient = record settled { done = λ k d. false }

-- A slow provider behind one that fails.
abbrev slow : Entry
slow = entry_for (config "b" 200) 0 working

passed_over :
    (search patient 50 query (entry_for (config "a" 1000) 0 broken ∷ []) 0).outcome
    ≡ failure no_results
unfolding search search_from try_entry attempts entry_for RateLimit.new wait take_token round
    backoff
passed_over = refl

search-starves_example :
    (search patient 50 query
      ((entry_for (config "a" 1000) 0 broken ∷ []) ++ slow ∷ entries)
      0).outcome
    ≡ hangs
unfolding entry_for is_open search try_entry round wait take_token RateLimit.new
search-starves_example =
    search-starves patient 50 query (config "b" 200) slow
      (entry_for (config "a" 1000) 0 broken ∷ []) entries 0 200 1 0 refl (omega arith) (omega arith)
      refl refl (λ j d. refl) passed_over refl

abbrev fresh : Entry
fresh = entry_for (config "a" 1000) 0 broken

is_open-after_reports_example :
    (is_open (after_reports fresh (failed_at 7 ∷ failed_at 5 ∷ failed_at 3 ∷ [])) 9 ≡ true)
    ↔ (9 < 7 + breaker_cooldown)
unfolding entry_for
is_open-after_reports_example =
    is_open-after_reports fresh (failed_at 7 ∷ failed_at 5 ∷ failed_at 3 ∷ []) 9 refl
