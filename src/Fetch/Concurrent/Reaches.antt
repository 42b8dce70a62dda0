-- ===== src/Fetch/Concurrent/Reaches.antt =====
-- Schedules of the calls of fetch/fetch.go that lead from one state to another.
use saka.Base.{ℕ, ◌≡◌, refl, ap, ◌∙◌, String, List, [], ◌∷◌, ◌++◌}
use saka.World.{World}
use saka.Fetch.{Net}
use saka.Fetch.Concurrent.{Move, System, move, turn, run}

-- A system of one call.
abbrev pub alone : String → Move → System
alone url m = record {
  fetcher = m.fetcher;
  calls = record { url = url; stage = m.stage } ∷ [];
  event = m.event;
}

module _ (n : Net) (w : World) (fuel : ℕ) where
  -- Some schedule leads from one system to the other.
  abbrev pub Reaches : System → System → Type 0
  Reaches s t = (schedule : List ℕ) × (run n w fuel s schedule ≡ t)

  -- Moves of one call lead from one stage to the other.
  abbrev pub Leads : String → Move → Move → Type 0
  Leads url a b = Reaches (alone url a) (alone url b)

  pub arrive : (url : String) (a b : Move) → a ≡ b → Leads url a b
  unfolding run
  arrive url a b e = ([], ap (alone url) e)

  pub next :
      (url : String) (a b c : Move)
      → move n w fuel a.fetcher url a.stage a.event ≡ b
      → Leads url b c
      → Leads url a c
  unfolding run turn
  next url a b c e (schedule, d) =
      (0 ∷ schedule, ap (λ m. run n w fuel (alone url m) schedule) e ∙ d)

  run-append :
      (s : System) (p q : List ℕ) → run n w fuel s (p ++ q) ≡ run n w fuel (run n w fuel s p) q
  unfolding run
  run-append s [] q = refl
  run-append s (i ∷ p) q = run-append (turn n w fuel s.fetcher s.calls i s.event) p q

  pub after : (url : String) (a b c : Move) → Leads url a b → Leads url b c → Leads url a c
  after url a b c (p, d) (q, e) =
      (p ++ q, run-append (alone url a) p q ∙ ap (λ s. run n w fuel s q) d ∙ e)
