-- ===== src/World.antt =====
-- What a run of the program takes from its surroundings, as functions of the event's number:
-- each reading of the clock, each `select` on a context and a timer, each random number and each
-- call of a backend is one event. All such functions together are all possible runs.
use native.Mathlib.Nat.{le_trans, le_of_lt}
use saka.Base.{arith, tests, ltb, ◌*◌, ℕ, zero, suc, refl, subst, ◌+◌, ◌≤◌, ◌<◌, ◌≡◌, Bool, false}

-- `clock k` is time.Now() at event k; `done k d` says that the `select` at event k between
-- ctx.Done() and time.After(d) took ctx.Done(); `rand k n` is rand.Int63n(n) at event k.
pub record World : Type 0 where
  pub clock : ℕ → ℕ
  pub done : ℕ → ℕ → Bool
  pub rand : ℕ → ℕ → ℕ

-- The monotonic clock grows from one event to the next, and time.After(d) fires after at least d.
pub record Timely (w : World) : Type 0 where
  pub ticks : (k : ℕ) → w.clock k < w.clock (suc k)
  pub fires : (k d : ℕ) → w.done k d ≡ false → w.clock k + d ≤ w.clock (suc k)

-- So it grows from each event to every later one.
pub clock-later : (w : World) → Timely w → (j k d : ℕ) → k ≡ j + d → w.clock j ≤ w.clock k
clock-later w timely j k zero e = let same : k ≡ j = omega arith in rw same (omega arith)
clock-later w timely j k (suc d) e =
    let next : suc (j + d) ≡ k = omega arith in
    le_trans (clock-later w timely j (j + d) d refl)
      (le_of_lt (subst (λ m. w.clock (j + d) < w.clock m) next (timely.ticks (j + d))))

-- A run on a slow clock, whose context has a deadline that only sleeps of over 1000 s reach.
abbrev pub settled : World
settled = record {
  clock = λ k. k * 2_000_000_000_000;
  done = λ k d. ltb 1_000_000_000_000 d;
  rand = λ k n. 0;
}

pub settled-Timely : Timely settled
settled-Timely = record { ticks = λ k. omega arith; fires = λ k d h. omega tests }
