-- ===== src/Fetch/Again.antt =====
-- How long fetch/fetch.go answers from memory.
use native.Mathlib.Nat.{le_trans}
use saka.Base.{
  ℕ, zero, suc, ◌+◌, ◌-◌, ◌≤◌, ◌<◌, ◌≡◌, refl, ap, ◌∙◌, subst, ◌⊎◌, inl, inr, true, String, none,
  some, arith, get, get-put, eq_iff, Option-cases, Bool-cases, ltb, tests, ◌≢◌,
}
use saka.World.{World, Timely, clock-later}
use saka.RateLimit.{wait, Waited-cases, Limiter}
use saka.RateLimit.Waiting.{take_token-cases}
use saka.Types.{Page, Outcome-cases}
use saka.Fetch.Extract.{extract}
use saka.Fetch.{
  Net, Fetcher, Fetch, fetched, limited, store, remember, status_error, download, admit,
  check_robots, read_disk, fetch_net, fetch_below, fetch,
}
use saka.Fetch.Sound.{Verdict-cases}

wait-event : (w : World) (fuel : ℕ) (l : Limiter) (k : ℕ) → k ≤ (wait w fuel l k).event
unfolding wait
wait-event w zero l k = omega arith
wait-event w (suc fuel) l k = elim (take_token-cases l (w.clock k)) [
  | inl (l', e) ↦ rw (e, wait) (omega arith)
  | inr (need, l', e, lack) ↦ ground (arith, wait-event w fuel l' (suc (suc k)))
]

-- The memory cache answers `p` for the URL until `x`.
abbrev pub Holds : Fetcher → String → Page → ℕ → Type 0
Holds f url p x = get f.cache url ≡ some (record { page = p; expires_at = x })

-- The page is held, from an event after `k` on, for the fetcher's time to live.
abbrev pub HoldsFor : World → Fetcher → String → Page → ℕ → ℕ → Type 0
HoldsFor w f url p ttl k = (m : ℕ) × (k ≤ m) × Holds f url p (w.clock m + ttl)

HoldsFor-earlier :
    (w : World) (f : Fetcher) (url : String) (p : Page) (ttl ttl' k k' : ℕ)
    → ttl' ≡ ttl
    → k ≤ k'
    → HoldsFor w f url p ttl' k'
    → HoldsFor w f url p ttl k
HoldsFor-earlier w f url p ttl ttl' k k' e le (m, after, held) =
    (m, le_trans le after, subst (λ t. Holds f url p (w.clock m + t)) e held)

module _ (n : Net) (w : World) (fuel : ℕ) where
  remember-Holds :
      (f : Fetcher) (url : String) (p : Page) (k : ℕ)
      → Holds (remember n w fuel f url p k) url p (w.clock k + f.ttl)
  unfolding remember
  remember-Holds f url p k = ground (
    arith,
    get-put f.cache url url (record { page = p; expires_at = w.clock k + f.ttl }),
    eq_iff url url,
  )

  store-cache :
      (f : Fetcher) (url : String) (p : Page) (k : ℕ)
      → (store n w fuel f url p k).cache ≡ (remember n w fuel f url p k).cache
  unfolding store
  store-cache f url p k = elim (Option-cases f.disk) [
    | inl e ↦ rw (e, store) refl
    | inr (c, e) ↦ rw (e, store) refl
  ]

  download-HoldsFor :
      (f : Fetcher) (url : String) (k : ℕ) (p : Page)
      → (download n w fuel f url k).ending ≡ fetched p
      → HoldsFor w (download n w fuel f url k).fetcher url p f.ttl k
  unfolding download
  download-HoldsFor f url k p h = elim (Bool-cases (n.is_request url)) [
    | inr bad ↦ absurd (ground arith)
    | inl fine ↦ elim (Option-cases (n.client k url)) [
      | inl e ↦ absurd (ground arith)
      | inr (resp, e) ↦ elim (Option-cases (status_error n w fuel url resp.status_code)) [
        | inr (bad, s) ↦ absurd (ground arith)
        | inl s ↦ elim (Outcome-cases (extract n.parse_html n.rfc3339 url (limited resp.body))) [
          | inr (bad, x) ↦ absurd (ground arith)
          | inl (page, x) ↦
              let same : page ≡ p = ground arith in
              rw (fine, download, e, download, s, download, x, download)
                (
                  1 + k,
                  omega arith,
                  ap (λ c. get c url) (store-cache f url page (1 + k))
                      ∙ subst
                          (λ q.
                            Holds (remember n w fuel f url page (1 + k)) url q
                              (w.clock (1 + k) + f.ttl))
                          same (remember-Holds f url page (1 + k)),
                )
        ]
      ]
    ]
  ]

  admit-keeps :
      (f : Fetcher) (url : String) (k : ℕ)
      → ((admit n w fuel f url k).fetcher.ttl ≡ f.ttl) × (k ≤ (admit n w fuel f url k).event)
  unfolding admit check_robots
  admit-keeps f url k = elim (Waited-cases (wait w fuel f.limiter k).outcome) [
    | inl e ↦ elim (Bool-cases f.respect_robots) [
      | inl r ↦ rw (e, admit, r, admit) (refl, omega (arith, wait-event w fuel f.limiter k))
      | inr r ↦ rw (e, admit, r, admit) (refl, omega (arith, wait-event w fuel f.limiter k))
    ]
    | inr (inl e) ↦ rw (e, admit) (refl, wait-event w fuel f.limiter k)
    | inr (inr e) ↦ rw (e, admit) (refl, wait-event w fuel f.limiter k)
  ]

  fetch_net-HoldsFor :
      (f : Fetcher) (url : String) (k : ℕ) (p : Page)
      → (fetch_net n w fuel f url k).ending ≡ fetched p
      → HoldsFor w (fetch_net n w fuel f url k).fetcher url p f.ttl k
  unfolding fetch_net
  fetch_net-HoldsFor f url k p h =
      let a = admit n w fuel f url k in
      let (ttl, later) = admit-keeps f url k in
      elim (Verdict-cases a.verdict) [
        | inl e ↦
            rw (e, fetch_net)
              (HoldsFor-earlier w (download n w fuel a.fetcher url a.event).fetcher url p f.ttl
                a.fetcher.ttl k a.event ttl later
                (download-HoldsFor a.fetcher url a.event p (rw (e, fetch_net) at h)))
        | inr (inl (x, e)) ↦ absurd (ground arith)
        | inr (inr e) ↦ absurd (ground arith)
      ]

  read_disk-ttl : (f : Fetcher) (url : String) (k : ℕ) → (read_disk n w fuel f url k).0.ttl ≡ f.ttl
  unfolding read_disk
  read_disk-ttl f url k = elim (Option-cases f.disk) [
    | inl e ↦ rw (e, read_disk) refl
    | inr (c, e) ↦ rw (e, read_disk) refl
  ]

  fetch_below-HoldsFor :
      (f : Fetcher) (url : String) (k : ℕ) (p : Page)
      → (fetch_below n w fuel f url k).ending ≡ fetched p
      → HoldsFor w (fetch_below n w fuel f url k).fetcher url p f.ttl k
  unfolding fetch_below
  fetch_below-HoldsFor f url k p h =
      let d = read_disk n w fuel f url (1 + k) in
      let ttl = read_disk-ttl f url (1 + k) in
      elim (Option-cases d.1) [
        | inl e ↦
            rw (e, fetch_below)
              (HoldsFor-earlier w (fetch_net n w fuel d.0 url (3 + k)).fetcher url p f.ttl d.0.ttl k
                (3 + k) ttl (omega arith)
                (fetch_net-HoldsFor d.0 url (3 + k) p (rw (e, fetch_below) at h)))
        | inr (q, e) ↦
            let same : q ≡ p = ground arith in
            rw (e, fetch_below)
              (HoldsFor-earlier w (remember n w fuel d.0 url q (2 + k)) url p f.ttl d.0.ttl k k ttl
                (omega arith)
                (
                  2 + k,
                  omega arith,
                  subst
                      (λ r.
                        Holds (remember n w fuel d.0 url q (2 + k)) url r
                          (w.clock (2 + k) + d.0.ttl))
                      same (remember-Holds d.0 url q (2 + k)),
                ))
      ]

  fetch-held :
      (m : Net) (f : Fetcher) (url : String) (j : ℕ) (p : Page) (x : ℕ)
      → Holds f url p x
      → m.parse_url url ≢ none
      → w.clock j < x
      → fetch m w fuel f url j ≡ record { fetcher = f; ending = fetched p; event = 1 + j }
  unfolding fetch
  fetch-held m f url j p x held named before = elim (Option-cases (m.parse_url url)) [
    | inl e ↦ absurd (named e)
    | inr (u, e) ↦
        let early : ltb (w.clock j) x ≡ true = omega tests in
        rw (e, fetch, held, fetch, early, fetch) refl
  ]

  -- Until `x`, each Fetch of the URL answers the page and leaves the fetcher as it is.
  abbrev pub AnswersFrom : Fetcher → String → Page → ℕ → Type 0
  AnswersFrom f url p x =
      (m : Net) (j : ℕ)
      → m.parse_url url ≢ none
      → w.clock j < x
      → fetch m w fuel f url j ≡ record { fetcher = f; ending = fetched p; event = 1 + j }

  -- The fetch at event `k` has found a page that stays: for the time to live, or, where it left
  -- the fetcher as it was, as long as before.
  abbrev pub IsRepeated : Fetcher → String → ℕ → Page → Fetch → Type 0
  IsRepeated f url k p r =
      (x : ℕ) × ((r.fetcher ≡ f) ⊎ (w.clock k + f.ttl ≤ x)) × AnswersFrom r.fetcher url p x

  below-IsRepeated :
      (f : Fetcher) (url : String) (k : ℕ) (p : Page)
      → Timely w
      → (fetch_below n w fuel f url k).ending ≡ fetched p
      → IsRepeated f url k p (fetch_below n w fuel f url k)
  below-IsRepeated f url k p timely e =
      let (m, le, held) = fetch_below-HoldsFor f url k p e in
      let later = clock-later w timely k m (m - k) (omega arith) in
      (
        w.clock m + f.ttl,
        inr (omega arith),
        λ n' j.
            fetch-held n' (fetch_below n w fuel f url k).fetcher url j p (w.clock m + f.ttl) held,
      )

  -- On a clock that ticks, a page that Fetch has returned is returned again by each Fetch of that
  -- URL that reads the clock before some time `x`, whatever the network would now answer, as long
  -- as the URL parses, and leaves the fetcher as it is. Unless the first call left the fetcher as it
  -- was, `x` is at least the time to live after it.
  pub fetch-again :
      (f : Fetcher) (url : String) (k : ℕ) (p : Page)
      → Timely w
      → (fetch n w fuel f url k).ending ≡ fetched p
      → IsRepeated f url k p (fetch n w fuel f url k)
  unfolding fetch
  fetch-again f url k p timely h = elim (Option-cases (n.parse_url url)) [
    | inl e ↦ absurd (ground arith)
    | inr (u, e) ↦ elim (Option-cases (get f.cache url)) [
      | inl miss ↦ below (rw (e, fetch, miss, fetch) refl)
      | inr (ce, hit) ↦ elim (Bool-cases (ltb (w.clock k) ce.expires_at)) [
        | inr stale ↦ below (rw (e, fetch, hit, fetch, stale, fetch) refl)
        | inl fresh ↦
            let kept : (fetch n w fuel f url k).fetcher ≡ f =
              rw (e, fetch, hit, fetch, fresh, fetch) refl in
            let same : ce.page ≡ p = ground arith in
            let held : Holds f url p ce.expires_at = ground arith in
            (ce.expires_at, inl kept, λ m j. rw kept (fetch-held m f url j p ce.expires_at held))
      ]
    ]
  ]
    where
      below :
          fetch_below n w fuel f url k ≡ fetch n w fuel f url k
          → IsRepeated f url k p (fetch n w fuel f url k)
      below e =
          subst (IsRepeated f url k p) e
            (below-IsRepeated f url k p timely (ap (λ (r : Fetch). r.ending) e ∙ h))
