-- ===== src/Fetch/Concurrent/Alone.antt =====
-- A call of Fetch that runs alone, against the moves of calls that run at the same time.
use saka.Base.{
  ℕ, zero, suc, ◌+◌, ◌≡◌, refl, ap, sym, inl, inr, String, arith, ltb, get, Option-cases,
  Bool-cases,
}
use saka.World.{World}
use saka.RateLimit.{
  take_token, Taken-cases, Wait, Waited-cases, passed, cancelled, waiting as in_loop, wait,
}
use saka.Types.{Page, context_done, Outcome-cases}
use saka.Fetch.Extract.{extract}
use saka.Fetch.Robots.{is_fresh, allowed, rules_for}
use saka.Fetch.{
  Net, Fetcher, Fetch, Ending, fetched, failed, hangs, limited, remember, store, status_error,
  download, check_robots, admit, fetch_net, read_disk, fetch_below, fetch, fetch_stream,
}
use saka.Fetch.Cache.{as_fetch, fetch_stream-agrees}
use saka.Fetch.Concurrent.{
  Stage, called, missed, on_file, waiting, asleep, admitted, ruleless, cleared, loaded, ended, Move,
  look_up, look_on_disk, ask_limiter, wake, judged, look_for_rules, fetch_rules, load, put_on_disk,
  move,
}
use saka.Fetch.Concurrent.Reaches.{alone, Reaches, Leads, arrive, next, after}

-- Where a fetch leaves its call: one that is out of fuel is still in the loop of Wait.
abbrev pub stage_of : Ending → Stage
stage_of (fetched p) = ended (fetched p)
stage_of (failed e) = ended (failed e)
stage_of hangs = waiting

abbrev pub as_move : Fetch → Move
as_move r = record { fetcher = r.fetcher; stage = stage_of r.ending; event = r.event }

module _ (n : Net) (w : World) (fuel : ℕ) where
  put_on_disk-store :
      (f : Fetcher) (url : String) (p : Page) (k : ℕ)
      → put_on_disk n w fuel (remember n w fuel f url p k) url p (1 + k) ≡ store n w fuel f url p k
  unfolding put_on_disk store remember
  put_on_disk-store f url p k = refl

  loaded-Leads :
      (f : Fetcher) (url : String) (p : Page) (k : ℕ)
      → Leads n w fuel url
          (record { fetcher = f; stage = loaded p; event = 1 + k })
          (record {
            fetcher = store n w fuel f url p (1 + k);
            stage = ended (fetched p);
            event = 3 + k;
          })
  unfolding move
  loaded-Leads f url p k = next n w fuel url _ _ _ refl (
      next n w fuel url _ _ _ refl
        (arrive n w fuel url _ _ (ground (arith, put_on_disk-store f url p (1 + k)))))

  download-Leads :
      (f : Fetcher) (url : String) (k : ℕ)
      → Leads n w fuel url
          (record { fetcher = f; stage = cleared; event = k })
          (as_move (download n w fuel f url k))
  unfolding move load download
  download-Leads f url k = next n w fuel url _ _ _ refl (elim (Bool-cases (n.is_request url)) [
    | inr bad ↦ rw (bad, load, download) (arrive n w fuel url _ _ refl)
    | inl fine ↦ elim (Option-cases (n.client k url)) [
      | inl e ↦ rw (fine, load, download, e, load, download) (arrive n w fuel url _ _ refl)
      | inr (resp, e) ↦ elim (Option-cases (status_error n w fuel url resp.status_code)) [
        | inr (bad, s) ↦
            rw (fine, load, download, e, load, download, s, load, download)
              (arrive n w fuel url _ _ refl)
        | inl s ↦ elim (Outcome-cases (extract n.parse_html n.rfc3339 url (limited resp.body))) [
          | inr (bad, x) ↦
              rw (fine, load, download, e, load, download, s, load, download, x, load, download)
                (arrive n w fuel url _ _ refl)
          | inl (page, x) ↦
              rw (fine, load, download, e, load, download, s, load, download, x, load, download)
                (loaded-Leads f url page k)
        ]
      ]
    ]
  ])

  rules-Leads :
      (f : Fetcher) (url : String) (k : ℕ)
      → Leads n w fuel url
          (record { fetcher = f; stage = admitted; event = k })
          (record {
            fetcher = (check_robots n w fuel f url k).0;
            stage = judged n w fuel url (check_robots n w fuel f url k).1;
            event = 3 + k;
          })
  unfolding move look_for_rules fetch_rules check_robots allowed rules_for
  rules-Leads f url k = elim (Bool-cases f.respect_robots) [
    | inr r ↦ next n w fuel url _ _ _ refl (arrive n w fuel url _ _ (ground arith))
    | inl r ↦ elim (Option-cases (n.parse_url url)) [
      | inl e ↦ next n w fuel url _ _ _ refl (arrive n w fuel url _ _ (ground arith))
      | inr (u, e) ↦ elim (Option-cases (get f.robots u.host)) [
        | inl miss ↦
            next n w fuel url _ (record { fetcher = f; stage = ruleless u; event = 1 + k }) _
              (ground arith) (next n w fuel url _ _ _ refl (arrive n w fuel url _ _ (ground arith)))
        | inr (hr, hit) ↦ elim (Bool-cases (is_fresh hr (w.clock k))) [
          | inl fresh ↦ next n w fuel url _ _ _ refl (arrive n w fuel url _ _ (ground arith))
          | inr old ↦
              next n w fuel url _ (record { fetcher = f; stage = ruleless u; event = 1 + k }) _
                (ground arith)
                (next n w fuel url _ _ _ refl (arrive n w fuel url _ _ (ground arith)))
        ]
      ]
    ]
  ]

  -- The stage of a call after Wait.
  abbrev waited : Fetcher → Wait → Move
  waited f r = record {
    fetcher = record f { limiter = r.limiter };
    stage = elim r.outcome [
      | passed ↦ admitted
      | cancelled ↦ ended (failed context_done)
      | in_loop ↦ waiting
    ];
    event = r.event;
  }

  wait-Leads :
      (steps : ℕ) (f : Fetcher) (url : String) (k : ℕ)
      → Leads n w fuel url
          (record { fetcher = f; stage = waiting; event = k })
          (waited f (wait w steps f.limiter k))
  unfolding move ask_limiter wake wait
  wait-Leads zero f url k = arrive n w fuel url _ _ refl
  wait-Leads (suc steps) f url k = elim (Taken-cases (take_token f.limiter (w.clock k))) [
    | inl (l, e) ↦ next n w fuel url _ _ _ refl (arrive n w fuel url _ _ (ground arith))
    | inr (need, l, e) ↦
        let f' = record f { limiter = l } in
        let slept : move n w fuel f url waiting k
            ≡ record { fetcher = f'; stage = asleep need; event = suc k } =
          ground arith in
        elim (Bool-cases (w.done (suc k) need)) [
          | inl gone ↦
              next n w fuel url _ _ _ slept
                (next n w fuel url _ _ _ refl (arrive n w fuel url _ _ (ground arith)))
          | inr on ↦ next n w fuel url _ _ _ slept (
              next n w fuel url _ (record { fetcher = f'; stage = waiting; event = suc (suc k) }) _
                (ground arith)
                (after n w fuel url _ _ _ (wait-Leads steps f' url (suc (suc k)))
                  (arrive n w fuel url _ _ (ground arith))))
        ]
  ]

  -- From Wait that has passed.
  passed-Leads :
      (f : Fetcher) (url : String) (k : ℕ)
      → (wait w fuel f.limiter k).outcome ≡ passed
      → Leads n w fuel url
          (waited f (wait w fuel f.limiter k))
          (as_move (fetch_net n w fuel f url k))
  unfolding fetch_net admit
  passed-Leads f url k e =
      let r = wait w fuel f.limiter k in
      let f' = record f { limiter = r.limiter } in
      let asked = check_robots n w fuel f' url r.event in
      after n w fuel url _ (record { fetcher = f'; stage = admitted; event = r.event }) _
        (arrive n w fuel url _ _ (ground arith))
        (after n w fuel url _ _ _ (rules-Leads f' url r.event) (elim (Bool-cases asked.1) [
          | inl on ↦
              after n w fuel url _
                (record { fetcher = asked.0; stage = cleared; event = 3 + r.event }) _
                (arrive n w fuel url _ _ (ground arith))
                (after n w fuel url _ _ _ (download-Leads asked.0 url (3 + r.event))
                  (arrive n w fuel url _ _ (ground arith)))
          | inr off ↦ arrive n w fuel url _ _ (ground arith)
        ]))

  fetch_net-Leads :
      (f : Fetcher) (url : String) (k : ℕ)
      → Leads n w fuel url
          (record { fetcher = f; stage = waiting; event = k })
          (as_move (fetch_net n w fuel f url k))
  unfolding fetch_net admit
  fetch_net-Leads f url k =
      after n w fuel url _ _ _ (wait-Leads fuel f url k)
        (elim (Waited-cases (wait w fuel f.limiter k).outcome) [
          | inl e ↦ passed-Leads f url k e
          | inr (inl e) ↦ arrive n w fuel url _ _ (ground arith)
          | inr (inr e) ↦ arrive n w fuel url _ _ (ground arith)
        ])

  fetch_below-Leads :
      (f : Fetcher) (url : String) (k : ℕ)
      → Leads n w fuel url
          (record { fetcher = f; stage = missed; event = 1 + k })
          (as_move (fetch_below n w fuel f url k))
  unfolding fetch_below look_on_disk move
  fetch_below-Leads f url k =
      let f' = (read_disk n w fuel f url (1 + k)).0 in
      elim (Option-cases (read_disk n w fuel f url (1 + k)).1) [
        | inl e ↦
            next n w fuel url _ (record { fetcher = f'; stage = waiting; event = 3 + k }) _
              (ground arith)
              (after n w fuel url _ _ _ (fetch_net-Leads f' url (3 + k))
                (arrive n w fuel url _ _ (ground arith)))
        | inr (p, e) ↦
            next n w fuel url _ (record { fetcher = f'; stage = on_file p; event = 2 + k }) _
              (ground arith) (next n w fuel url _ _ _ refl (arrive n w fuel url _ _ (ground arith)))
      ]

  -- Fetch alone, on every branch, is a schedule of the moves of one call: it ends with the same
  -- fetcher, the same answer and at the same event. Out of fuel, its call is still in the loop
  -- of Wait.
  pub fetch-Reaches :
      (f : Fetcher) (url : String) (k : ℕ)
      → Reaches n w fuel
          (alone url (record { fetcher = f; stage = called; event = k }))
          (alone url (as_move (fetch n w fuel f url k)))
  unfolding fetch look_up move
  fetch-Reaches f url k = elim (Option-cases (n.parse_url url)) [
    | inl e ↦ next n w fuel url _ _ _ refl (arrive n w fuel url _ _ (ground arith))
    | inr (u, e) ↦ elim (Option-cases (get f.cache url)) [
      | inl miss ↦
          next n w fuel url _ (record { fetcher = f; stage = missed; event = 1 + k }) _
            (ground arith)
            (after n w fuel url _ _ _ (fetch_below-Leads f url k)
              (arrive n w fuel url _ _ (ground arith)))
      | inr (ce, hit) ↦ elim (Bool-cases (ltb (w.clock k) ce.expires_at)) [
        | inl fresh ↦ next n w fuel url _ _ _ refl (arrive n w fuel url _ _ (ground arith))
        | inr stale ↦
            next n w fuel url _ (record { fetcher = f; stage = missed; event = 1 + k }) _
              (ground arith)
              (after n w fuel url _ _ _ (fetch_below-Leads f url k)
                (arrive n w fuel url _ _ (ground arith)))
      ]
    ]
  ]

  -- A call of FetchStream starts at the limiter. Alone, it is a schedule of the same moves.
  fetch_stream-Reaches :
      (f : Fetcher) (url : String) (k : ℕ)
      → Reaches n w fuel
          (alone url (record { fetcher = f; stage = waiting; event = k }))
          (alone url (as_move (as_fetch n w fuel url (fetch_stream n w fuel f url k))))
  fetch_stream-Reaches f url k =
      after n w fuel url _ _ _ (fetch_net-Leads f url k)
        (arrive n w fuel url _ _ (ap as_move (sym (fetch_stream-agrees n w fuel f url k))))
