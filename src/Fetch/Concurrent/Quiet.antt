-- ===== src/Fetch/Concurrent/Quiet.antt =====
-- The moves of a call in fetch/fetch.go that leave the limiter alone.
use saka.Base.{
  ℕ, ◌+◌, ◌≤◌, ◌≡◌, refl, inl, inr, String, arith, get, Option-cases, ◌⊎◌, if◌then◌else◌,
}
use saka.World.{World}
use saka.Types.{Page, Outcome-cases}
use saka.Fetch.Extract.{extract}
use saka.Fetch.{Net, Fetcher, limited, remember, status_error, read_disk}
use saka.Fetch.Concurrent.{
  Stage, called, missed, on_file, waiting, asleep, admitted, ruleless, cleared, loaded, kept, ended,
  Move, look_up, look_on_disk, wake, look_for_rules, fetch_rules, load, put_on_disk, move,
}

-- Whether a call has passed the limiter and has not yet asked for its page.
abbrev pub under_way : Stage → ℕ
under_way admitted = 1
under_way (ruleless u) = 1
under_way cleared = 1
under_way s = 0

module _ (n : Net) (w : World) (fuel : ℕ) where
  -- The requests of pages that a move makes: it is the one in which client.Do is reached.
  abbrev pub asks : String → Stage → ℕ
  asks url cleared = if n.is_request url then 1 else 0
  asks url s = 0

  -- A move that leaves the limiter alone.
  abbrev pub IsQuiet : Fetcher → String → Stage → ℕ → Move → Type 0
  IsQuiet f url s k m =
      (m.fetcher.limiter ≡ f.limiter)
      × (asks url s + under_way m.stage ≤ under_way s)
      × (k ≤ m.event)

  look_up-IsQuiet :
      (f : Fetcher) (url : String) (k : ℕ) → IsQuiet f url called k (look_up n w fuel f url k)
  unfolding look_up
  look_up-IsQuiet f url k = elim (Option-cases (n.parse_url url)) [
    | inl e ↦ ground arith
    | inr (u, e) ↦ elim (Option-cases (get f.cache url)) [
      | inl miss ↦ ground arith
      | inr (ce, hit) ↦ ground arith
    ]
  ]

  read_disk-limiter :
      (f : Fetcher) (url : String) (k : ℕ) → (read_disk n w fuel f url k).0.limiter ≡ f.limiter
  unfolding read_disk
  read_disk-limiter f url k = elim (Option-cases f.disk) [
    | inl e ↦ ground arith
    | inr (c, e) ↦ ground arith
  ]

  look_on_disk-IsQuiet :
      (f : Fetcher) (url : String) (k : ℕ) → IsQuiet f url missed k (look_on_disk n w fuel f url k)
  unfolding look_on_disk
  look_on_disk-IsQuiet f url k = elim (Option-cases (read_disk n w fuel f url k).1) [
    | inl e ↦ ground (arith, read_disk-limiter f url k)
    | inr (p, e) ↦ ground (arith, read_disk-limiter f url k)
  ]

  wake-IsQuiet :
      (f : Fetcher) (url : String) (need k : ℕ)
      → IsQuiet f url (asleep need) k (wake n w fuel f need k)
  unfolding wake
  wake-IsQuiet f url need k = ground arith

  look_for_rules-IsQuiet :
      (f : Fetcher) (url : String) (k : ℕ)
      → IsQuiet f url admitted k (look_for_rules n w fuel f url k)
  unfolding look_for_rules
  look_for_rules-IsQuiet f url k = elim (Option-cases (n.parse_url url)) [
    | inl e ↦ ground arith
    | inr (u, e) ↦ elim (Option-cases (get f.robots u.host)) [
      | inl miss ↦ ground arith
      | inr (hr, hit) ↦ ground arith
    ]
  ]

  load-IsQuiet :
      (f : Fetcher) (url : String) (k : ℕ) → IsQuiet f url cleared k (load n w fuel f url k)
  unfolding load
  load-IsQuiet f url k = elim (Option-cases (n.client k url)) [
    | inl e ↦ ground arith
    | inr (resp, e) ↦ elim (Option-cases (status_error n w fuel url resp.status_code)) [
      | inr (bad, s) ↦ ground arith
      | inl s ↦ elim (Outcome-cases (extract n.parse_html n.rfc3339 url (limited resp.body))) [
        | inr (bad, x) ↦ ground arith
        | inl (page, x) ↦ ground arith
      ]
    ]
  ]

  put_on_disk-limiter :
      (f : Fetcher) (url : String) (p : Page) (k : ℕ)
      → (put_on_disk n w fuel f url p k).limiter ≡ f.limiter
  unfolding put_on_disk
  put_on_disk-limiter f url p k = elim (Option-cases f.disk) [
    | inl e ↦ ground arith
    | inr (c, e) ↦ ground arith
  ]

  pub move-IsQuiet :
      (f : Fetcher) (url : String) (s : Stage) (k : ℕ)
      → (s ≡ waiting) ⊎ IsQuiet f url s k (move n w fuel f url s k)
  unfolding move fetch_rules remember
  move-IsQuiet f url called k = inr (look_up-IsQuiet f url k)
  move-IsQuiet f url missed k = inr (look_on_disk-IsQuiet f url k)
  move-IsQuiet f url (on_file p) k = inr (ground arith)
  move-IsQuiet f url waiting k = inl refl
  move-IsQuiet f url (asleep need) k = inr (wake-IsQuiet f url need k)
  move-IsQuiet f url admitted k = inr (look_for_rules-IsQuiet f url k)
  move-IsQuiet f url (ruleless u) k = inr (ground arith)
  move-IsQuiet f url cleared k = inr (load-IsQuiet f url k)
  move-IsQuiet f url (loaded p) k = inr (ground arith)
  move-IsQuiet f url (kept p) k = inr (ground (arith, put_on_disk-limiter f url p k))
  move-IsQuiet f url (ended e) k = inr (ground arith)
