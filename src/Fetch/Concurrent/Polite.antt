-- ===== src/Fetch/Concurrent/Polite.antt =====
-- How many pages the calls of Fetch in fetch/fetch.go ask the network for, however they interleave.
use native.Mathlib.Nat.{mul-le-mul_right}
use saka.Base.{
  ℕ, zero, suc, ◌+◌, ◌-◌, ◌*◌, ◌≤◌, ◌≡◌, refl, ◌∙◌, inl, inr, String, List, [], ◌∷◌, arith,
}
use saka.World.{World, Timely, clock-later}
use saka.RateLimit.{token, take_token, Taken-cases}
use saka.RateLimit.Bucket.{take_token-paid, spent-add}
use saka.Fetch.{Net, Fetcher}
use saka.Fetch.Concurrent.{Stage, Move, Call, System, ask_limiter, move, turn, run}
use saka.Fetch.Concurrent.Quiet.{under_way, asks, IsQuiet, move-IsQuiet}

abbrev pub all_under_way : List Call → ℕ
all_under_way [] = 0
all_under_way (c ∷ cs) = under_way c.stage + all_under_way cs

module _ (n : Net) (w : World) (fuel : ℕ) where
  abbrev pub asks_in : List Call → ℕ → ℕ
  asks_in [] i = 0
  asks_in (c ∷ cs) zero = asks n w fuel c.url c.stage
  asks_in (c ∷ cs) (suc i) = asks_in cs i

  -- The requests of pages in a run.
  unfoldable pub requests : System → List ℕ → ℕ
  requests s [] = 0
  requests s (i ∷ schedule) =
      asks_in s.calls i + requests (turn n w fuel s.fetcher s.calls i s.event) schedule

  -- Between events `k` and `k'`, as many calls came under way or asked, beyond those at first, as
  -- the tokens and the time gone by pay for.
  record IsPaid (f g : Fetcher) (owed asked k k' : ℕ) : Type 0 where
    paid :
        asked * token + g.limiter.tokens
        ≤ owed * token
          + f.limiter.tokens
          + (g.limiter.last_fill - f.limiter.last_fill) * f.limiter.rate
    rate : g.limiter.rate ≡ f.limiter.rate
    ordered : f.limiter.last_fill ≤ g.limiter.last_fill
    past : g.limiter.last_fill ≤ w.clock k'
    later : k ≤ k'

  clock-le : Timely w → (j k : ℕ) → j ≤ k → w.clock j ≤ w.clock k
  clock-le timely j k h = clock-later w timely j k (k - j) (omega arith)

  ask_limiter-IsPaid :
      Timely w
      → (f : Fetcher) (k : ℕ) → f.limiter.last_fill ≤ w.clock k
      → let m = ask_limiter n w fuel f k in IsPaid f m.fetcher 0 (0 + under_way m.stage) k m.event
  unfolding ask_limiter
  ask_limiter-IsPaid timely f k h =
      let tick = clock-le timely k (suc k) (omega arith) in
      elim (Taken-cases (take_token f.limiter (w.clock k))) [
        | inl (l, e) ↦
            let (paid, fill, rate) = simp (e) at (take_token-paid f.limiter (w.clock k)) in
            rw (e, ask_limiter)
              (record {
                paid = rw (fill) (omega arith);
                rate = rate;
                ordered = rw (fill) h;
                past = rw (fill) tick;
                later = omega arith;
              })
        | inr (need, l, e) ↦
            let (paid, fill, rate) = simp (e) at (take_token-paid f.limiter (w.clock k)) in
            rw (e, ask_limiter)
              (record {
                paid = rw (fill) (omega arith);
                rate = rate;
                ordered = rw (fill) h;
                past = rw (fill) tick;
                later = omega arith;
              })
      ]

  quiet-IsPaid :
      Timely w
      → (f : Fetcher) (url : String) (s : Stage) (k : ℕ) (m : Move)
      → f.limiter.last_fill ≤ w.clock k
      → IsQuiet n w fuel f url s k m
      → IsPaid f m.fetcher (under_way s) (asks n w fuel url s + under_way m.stage) k m.event
  quiet-IsPaid timely f url s k m h (same, pending, later) =
      let tick = clock-le timely k m.event later in
      record {
        paid = rw (same) (omega arith);
        rate = rw (same) refl;
        ordered = rw (same) (omega arith);
        past = rw (same) (omega arith);
        later = later;
      }

  move-IsPaid :
      Timely w
      → (f : Fetcher) (url : String) (s : Stage) (k : ℕ) → f.limiter.last_fill ≤ w.clock k
      → let m = move n w fuel f url s k in
        IsPaid f m.fetcher (under_way s) (asks n w fuel url s + under_way m.stage) k m.event
  unfolding move
  move-IsPaid timely f url s k h = elim (move-IsQuiet n w fuel f url s k) [
    | inl e ↦ rw (e) (ask_limiter-IsPaid timely f k h)
    | inr quiet ↦ quiet-IsPaid timely f url s k _ h quiet
  ]

  turn-IsPaid :
      Timely w
      → (f : Fetcher) (cs : List Call) (i k : ℕ) → f.limiter.last_fill ≤ w.clock k
      → let t = turn n w fuel f cs i k in
        IsPaid f t.fetcher (all_under_way cs) (asks_in cs i + all_under_way t.calls) k t.event
  unfolding turn
  turn-IsPaid timely f [] i k h = record {
    paid = omega arith;
    rate = refl;
    ordered = omega arith;
    past = h;
    later = omega arith;
  }
  turn-IsPaid timely f (c ∷ cs) zero k h =
      let it = move-IsPaid timely f c.url c.stage k h in
      record {
        paid = omega (arith, it.paid);
        rate = it.rate;
        ordered = it.ordered;
        past = it.past;
        later = it.later;
      }
  turn-IsPaid timely f (c ∷ cs) (suc i) k h =
      let it = turn-IsPaid timely f cs i k h in
      record {
        paid = omega (arith, it.paid);
        rate = it.rate;
        ordered = it.ordered;
        past = it.past;
        later = it.later;
      }

  run-IsPaid :
      Timely w
      → (s : System) (schedule : List ℕ) → s.fetcher.limiter.last_fill ≤ w.clock s.event
      → let t = run n w fuel s schedule in
        IsPaid s.fetcher t.fetcher
          (all_under_way s.calls)
          (requests s schedule + all_under_way t.calls)
          s.event
          t.event
  unfolding run requests
  run-IsPaid timely s [] h = record {
    paid = omega arith;
    rate = refl;
    ordered = omega arith;
    past = h;
    later = omega arith;
  }
  run-IsPaid timely s (i ∷ schedule) h =
      let t = turn n w fuel s.fetcher s.calls i s.event in
      let first = turn-IsPaid timely s.fetcher s.calls i s.event h in
      let rest = run-IsPaid timely t schedule first.past in
      record {
        paid = omega (
          arith,
          first.paid,
          simp (first.rate) at rest.paid,
          spent-add s.fetcher.limiter.last_fill t.fetcher.limiter.last_fill
              (run n w fuel t schedule).fetcher.limiter.last_fill s.fetcher.limiter.rate
              first.ordered rest.ordered,
        );
        rate = rest.rate ∙ first.rate;
        ordered = omega (arith, first.ordered, rest.ordered);
        past = rest.past;
        later = omega (arith, first.later, rest.later);
      }

  sub-le : (a b c : ℕ) → a ≤ b → a - c ≤ b - c
  sub-le a b c h = omega arith

  -- However calls of Fetch on one Fetcher interleave, the pages that they ask the network for are
  -- at most those of the calls that had passed the limiter at the start, those that the tokens in
  -- the bucket pay for, and those that its rate pays for in the time of the run, if the clock
  -- ticks and the bucket was last filled before the run.
  pub requests_bound :
      (s : System) (schedule : List ℕ)
      → Timely w
      → s.fetcher.limiter.last_fill ≤ w.clock s.event
      → requests s schedule * token
        ≤ all_under_way s.calls * token
          + s.fetcher.limiter.tokens
          + (w.clock (run n w fuel s schedule).event - s.fetcher.limiter.last_fill)
            * s.fetcher.limiter.rate
  requests_bound s schedule timely h =
      let it = run-IsPaid timely s schedule h in
      let time =
        mul-le-mul_right s.fetcher.limiter.rate (sub-le _ _ s.fetcher.limiter.last_fill it.past) in
      omega (arith, it.paid, time)
