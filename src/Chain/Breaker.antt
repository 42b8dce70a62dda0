-- ===== src/Chain/Breaker.antt =====
-- The circuit breaker of chain/chain.go: recordSuccess, recordFailure and isOpen.
use saka.Base.{
  ℕ, suc, ◌+◌, ◌%◌, ◌<◌, ◌≡◌, ◌↔◌, refl, true, List, [], ◌∷◌, arith, leb, if◌then◌else◌,
}
use saka.Chain.{Entry, breaker_cooldown, is_open, record_success, record_failure}

-- What is reported to an entry: a success, or a failure at a time.
pub data Report : Type 0 where
  succeeded : Report
  failed_at : ℕ → Report

pub report : Entry → Report → Entry
unfolding record_success record_failure
report e succeeded = record_success e
report e (failed_at t) = record_failure e t

-- The newest report stands first.
pub after_reports : Entry → List Report → Entry
unfolding report
after_reports e [] = e
after_reports e (r ∷ rs) = report (after_reports e rs) r

-- The failures since the last success.
abbrev pub streak : List Report → ℕ
streak [] = 0
streak (succeeded ∷ rs) = 0
streak (failed_at t ∷ rs) = suc (streak rs)

-- The time until which the breaker is open, by the history alone: each third failure in a row
-- opens it for the cooldown.
abbrev pub open_by : ℕ → List Report → ℕ
open_by start [] = start
open_by start (succeeded ∷ rs) = open_by start rs
open_by start (failed_at t ∷ rs) =
    if leb 1 (streak (failed_at t ∷ rs) % 3) then open_by start rs else t + breaker_cooldown

after_reports-fails :
    (e : Entry) (rs : List Report)
    → e.fails ≡ 0
    → ((after_reports e rs).fails ≡ streak rs % 3)
      × ((after_reports e rs).open_until ≡ open_by e.open_until rs)
unfolding after_reports
after_reports-fails e [] h = (ground arith, refl)
after_reports-fails e (succeeded ∷ rs) h =
    let (_, opened) = after_reports-fails e rs h in (ground arith, opened)
after_reports-fails e (failed_at t ∷ rs) h =
    let (fails, opened) = after_reports-fails e rs h in ground arith

-- The breaker refines its specification. After any history of reports on a fresh entry the
-- entry is open at time `now` exactly if `now` lies before the end of the last cooldown, where a
-- cooldown starts at each failure that completes three in a row.
pub is_open-after_reports :
    (e : Entry) (rs : List Report) (now : ℕ)
    → e.fails ≡ 0
    → (is_open (after_reports e rs) now ≡ true) ↔ (now < open_by e.open_until rs)
unfolding is_open
is_open-after_reports e rs now h =
    let (_, opened) = after_reports-fails e rs h in ground (arith, opened)
