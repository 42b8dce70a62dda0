-- ===== src/Fetch/Concurrent/Safe.antt =====
-- What the moves of a call of Fetch in fetch/fetch.go keep.
use saka.Base.{ℕ, inl, inr, Bool, true, false, String, ltb, get, Option-cases, Bool-cases}
use saka.World.{World}
use saka.RateLimit.{take_token, Taken-cases}
use saka.Types.{Page, Outcome-cases}
use saka.Fetch.Extract.{extract}
use saka.Fetch.Robots.{is_fresh}
use saka.Fetch.{Net, Fetcher, fetched, limited, status_error, read_disk}
use saka.Fetch.Genuine.{
  IsSourced, IsFaithful, IsGenuine, remember-IsGenuine, write-IsGenuine, read_disk-IsGenuine,
}
use saka.Fetch.Sound.{status_error-200, extract-doc}
use saka.Fetch.Concurrent.{
  Stage, called, missed, on_file, waiting, asleep, admitted, ruleless, cleared, loaded, kept, ended,
  Move, Call, look_up, look_on_disk, ask_limiter, wake, look_for_rules, fetch_rules, load,
  put_on_disk, move, judged,
}

-- The page that a call has in hand is sourced.
abbrev pub HoldsSourced : Net → String → Stage → Type 0
HoldsSourced n url (on_file p) = IsSourced n url p
HoldsSourced n url (loaded p) = IsSourced n url p
HoldsSourced n url (kept p) = IsSourced n url p
HoldsSourced n url (ended (fetched p)) = IsSourced n url p
HoldsSourced n url s = Unit

-- A call with a sourced page, if it has one.
abbrev pub IsHonest : Net → Call → Type 0
IsHonest n c = HoldsSourced n c.url c.stage

pub record IsSafe (n : Net) (url : String) (m : Move) : Type 0 where
  pub genuine : IsGenuine n m.fetcher
  pub holds : HoldsSourced n url m.stage

module _ (n : Net) (w : World) (fuel : ℕ) where
  look_up-IsSafe :
      (f : Fetcher) (url : String) (k : ℕ) → IsGenuine n f → IsSafe n url (look_up n w fuel f url k)
  unfolding look_up
  look_up-IsSafe f url k g = elim (Option-cases (n.parse_url url)) [
    | inl e ↦ rw (e, look_up) (record { genuine = g; holds = tt })
    | inr (u, e) ↦ elim (Option-cases (get f.cache url)) [
      | inl miss ↦ rw (e, look_up, miss, look_up) (record { genuine = g; holds = tt })
      | inr (ce, hit) ↦ elim (Bool-cases (ltb (w.clock k) ce.expires_at)) [
        | inl fresh ↦
            rw (e, look_up, hit, look_up, fresh, look_up)
              (record { genuine = g; holds = g.cached url ce hit })
        | inr stale ↦
            rw (e, look_up, hit, look_up, stale, look_up) (record { genuine = g; holds = tt })
      ]
    ]
  ]

  look_on_disk-IsSafe :
      (f : Fetcher) (url : String) (k : ℕ)
      → IsGenuine n f
      → IsSafe n url (look_on_disk n w fuel f url k)
  unfolding look_on_disk
  look_on_disk-IsSafe f url k g =
      let (g', source) = read_disk-IsGenuine n w fuel f url k g in
      elim (Option-cases (read_disk n w fuel f url k).1) [
        | inl e ↦ rw (e, look_on_disk) (record { genuine = g'; holds = tt })
        | inr (p, e) ↦ rw (e, look_on_disk) (record { genuine = g'; holds = source p e })
      ]

  judged-HoldsSourced : (url : String) (b : Bool) → HoldsSourced n url (judged n w fuel url b)
  judged-HoldsSourced url true = tt
  judged-HoldsSourced url false = tt

  ask_limiter-IsSafe :
      (f : Fetcher) (url : String) (k : ℕ) → IsGenuine n f → IsSafe n url (ask_limiter n w fuel f k)
  unfolding ask_limiter
  ask_limiter-IsSafe f url k g = elim (Taken-cases (take_token f.limiter (w.clock k))) [
    | inl (l, e) ↦
        rw (e, ask_limiter)
          (record { genuine = record { cached = g.cached; on_disk = g.on_disk }; holds = tt })
    | inr (need, l, e) ↦
        rw (e, ask_limiter)
          (record { genuine = record { cached = g.cached; on_disk = g.on_disk }; holds = tt })
  ]

  wake-IsSafe :
      (f : Fetcher) (url : String) (need k : ℕ)
      → IsGenuine n f
      → IsSafe n url (wake n w fuel f need k)
  unfolding wake
  wake-IsSafe f url need k g = elim (Bool-cases (w.done k need)) [
    | inl e ↦ rw (e, wake) (record { genuine = g; holds = tt })
    | inr e ↦ rw (e, wake) (record { genuine = g; holds = tt })
  ]

  look_for_rules-IsSafe :
      (f : Fetcher) (url : String) (k : ℕ)
      → IsGenuine n f
      → IsSafe n url (look_for_rules n w fuel f url k)
  unfolding look_for_rules
  look_for_rules-IsSafe f url k g = elim (Bool-cases f.respect_robots) [
    | inr r ↦
        rw (r, look_for_rules)
          (record { genuine = record { cached = g.cached; on_disk = g.on_disk }; holds = tt })
    | inl r ↦ elim (Option-cases (n.parse_url url)) [
      | inl e ↦
          rw (r, look_for_rules, e, look_for_rules)
            (record { genuine = record { cached = g.cached; on_disk = g.on_disk }; holds = tt })
      | inr (u, e) ↦ elim (Option-cases (get f.robots u.host)) [
        | inl none_yet ↦
            rw (r, look_for_rules, e, look_for_rules, none_yet, look_for_rules)
              (record { genuine = record { cached = g.cached; on_disk = g.on_disk }; holds = tt })
        | inr (hr, known) ↦ elim (Bool-cases (is_fresh hr (w.clock k))) [
          | inl fresh ↦
              rw
                (r, look_for_rules, e, look_for_rules, known, look_for_rules, fresh, look_for_rules)
                (record {
                  genuine = record { cached = g.cached; on_disk = g.on_disk };
                  holds = judged-HoldsSourced url _;
                })
          | inr old ↦
              rw (r, look_for_rules, e, look_for_rules, known, look_for_rules, old, look_for_rules)
                (record { genuine = record { cached = g.cached; on_disk = g.on_disk }; holds = tt })
        ]
      ]
    ]
  ]

  load-IsSafe :
      (f : Fetcher) (url : String) (k : ℕ) → IsGenuine n f → IsSafe n url (load n w fuel f url k)
  unfolding load
  load-IsSafe f url k g = elim (Bool-cases (n.is_request url)) [
    | inr bad ↦ rw (bad, load) (record { genuine = g; holds = tt })
    | inl fine ↦ elim (Option-cases (n.client k url)) [
      | inl e ↦ rw (fine, load, e, load) (record { genuine = g; holds = tt })
      | inr (resp, e) ↦ elim (Option-cases (status_error n w fuel url resp.status_code)) [
        | inr (bad, s) ↦ rw (fine, load, e, load, s, load) (record { genuine = g; holds = tt })
        | inl s ↦ elim (Outcome-cases (extract n.parse_html n.rfc3339 url (limited resp.body))) [
          | inr (bad, x) ↦
              rw (fine, load, e, load, s, load, x, load) (record { genuine = g; holds = tt })
          | inl (page, x) ↦
              let (doc, parsed, same) = extract-doc n w fuel url (limited resp.body) page x in
              rw (fine, load, e, load, s, load, x, load)
                (record {
                  genuine = g;
                  holds = record {
                    event = k;
                    resp = resp;
                    doc = doc;
                    answered = e;
                    ok_status = status_error-200 n w fuel url resp.status_code s;
                    parsed = parsed;
                    extracted = same;
                  };
                })
        ]
      ]
    ]
  ]

  put_on_disk-IsGenuine :
      (f : Fetcher) (url : String) (p : Page) (k : ℕ)
      → IsFaithful n
      → IsGenuine n f
      → IsSourced n url p
      → IsGenuine n (put_on_disk n w fuel f url p k)
  unfolding put_on_disk
  put_on_disk-IsGenuine f url p k fair g s = elim (Option-cases f.disk) [
    | inl e ↦ rw (e, put_on_disk) g
    | inr (c, e) ↦ rw (e, put_on_disk) (write-IsGenuine n w fuel f c url p (w.clock k) fair g s)
  ]

  pub move-IsSafe :
      (f : Fetcher) (url : String) (s : Stage) (k : ℕ)
      → IsFaithful n
      → IsGenuine n f
      → HoldsSourced n url s
      → IsSafe n url (move n w fuel f url s k)
  unfolding move fetch_rules
  move-IsSafe f url called k fair g h = look_up-IsSafe f url k g
  move-IsSafe f url missed k fair g h = look_on_disk-IsSafe f url k g
  move-IsSafe f url (on_file p) k fair g h = record {
    genuine = remember-IsGenuine n w fuel f url p k g h;
    holds = h;
  }
  move-IsSafe f url waiting k fair g h = ask_limiter-IsSafe f url k g
  move-IsSafe f url (asleep need) k fair g h = wake-IsSafe f url need k g
  move-IsSafe f url admitted k fair g h = look_for_rules-IsSafe f url k g
  move-IsSafe f url (ruleless u) k fair g h = record {
    genuine = record { cached = g.cached; on_disk = g.on_disk };
    holds = judged-HoldsSourced url _;
  }
  move-IsSafe f url cleared k fair g h = load-IsSafe f url k g
  move-IsSafe f url (loaded p) k fair g h = record {
    genuine = remember-IsGenuine n w fuel f url p k g h;
    holds = h;
  }
  move-IsSafe f url (kept p) k fair g h = record {
    genuine = put_on_disk-IsGenuine f url p k fair g h;
    holds = h;
  }
  move-IsSafe f url (ended e) k fair g h = record { genuine = g; holds = h }
