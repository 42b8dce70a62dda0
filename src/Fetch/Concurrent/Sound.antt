-- ===== src/Fetch/Concurrent/Sound.antt =====
-- What calls of Fetch in fetch/fetch.go return when they run at the same time.
use saka.Base.{ℕ, zero, suc, List, [], ◌∷◌, All}
use saka.World.{World}
use saka.Fetch.{Net, Fetcher}
use saka.Fetch.Genuine.{IsFaithful, IsGenuine}
use saka.Fetch.Concurrent.{Call, System, turn, run}
use saka.Fetch.Concurrent.Safe.{IsHonest, move-IsSafe}

module _ (n : Net) (w : World) (fuel : ℕ) where
  -- All that a system holds is sourced.
  pub record IsClean (s : System) : Type 0 where
    pub genuine : IsGenuine n s.fetcher
    pub honest : All (IsHonest n) s.calls

  turn-IsClean :
      (f : Fetcher) (cs : List Call) (i k : ℕ)
      → IsFaithful n
      → IsGenuine n f
      → All (IsHonest n) cs
      → IsClean (turn n w fuel f cs i k)
  unfolding turn
  turn-IsClean f [] i k fair g h = record { genuine = g; honest = tt }
  turn-IsClean f (c ∷ cs) zero k fair g h =
      let it = move-IsSafe n w fuel f c.url c.stage k fair g h.0 in
      record { genuine = it.genuine; honest = (it.holds, h.1) }
  turn-IsClean f (c ∷ cs) (suc i) k fair g h =
      let rest = turn-IsClean f cs i k fair g h.1 in
      record { genuine = rest.genuine; honest = (h.0, rest.honest) }

  -- However calls of Fetch on one Fetcher interleave, each page that one of them returns or has in
  -- hand was read from a 200 answer to that call's own URL, and the shared caches hold only such
  -- pages, if both held at the start, the JSON of pages comes back and no two URLs share a file.
  pub run-IsClean :
      (s : System) (schedule : List ℕ)
      → IsFaithful n
      → IsClean s
      → IsClean (run n w fuel s schedule)
  unfolding run
  run-IsClean s [] fair h = h
  run-IsClean s (i ∷ schedule) fair h =
      run-IsClean (turn n w fuel s.fetcher s.calls i s.event) schedule fair
        (turn-IsClean s.fetcher s.calls i s.event fair h.genuine h.honest)
