-- ===== src/Fetch/Sound.antt =====
-- What the parts of a fetch in fetch/fetch.go answer and keep.
use saka.Base.{
  ℕ, ◌+◌, ◌≡◌, refl, subst, ◌⊎◌, inl, inr, String, none, some, arith, Option-cases, Bool-cases,
}
use saka.World.{World}
use saka.RateLimit.{Waited-cases, wait}
use saka.Types.{Page, Error, Outcome-cases, ok}
use saka.Html.{Node}
use saka.Fetch.Extract.{extract, page_of}
use saka.Fetch.{
  Net, Fetcher, Fetch, fetched, failed, hangs, Verdict, go, refused, stuck, limited, status_error,
  download, admit, fetch_net, read_disk, fetch_below, check_robots,
}
use saka.Fetch.Genuine.{
  IsSourced, IsGenuine, IsFaithful, remember-IsGenuine, store-IsGenuine, read_disk-IsGenuine,
}

pub Verdict-cases : (v : Verdict) → (v ≡ go) ⊎ ((e : Error) × (v ≡ refused e)) ⊎ (v ≡ stuck)
Verdict-cases go = inl refl
Verdict-cases (refused e) = inr (inl (e, refl))
Verdict-cases stuck = inr (inr refl)

module _ (n : Net) (w : World) (fuel : ℕ) where
  -- The end of a fetch is sound.
  pub record IsSound (url : String) (r : Fetch) : Type 0 where
    pub genuine : IsGenuine n r.fetcher
    pub sourced : (p : Page) → r.ending ≡ fetched p → IsSourced n url p

  pub status_error-200 : (url : String) (c : ℕ) → status_error n w fuel url c ≡ none → c ≡ 200
  unfolding status_error
  status_error-200 url c h = ground arith

  pub extract-doc :
      (url body : String) (p : Page)
      → extract n.parse_html n.rfc3339 url body ≡ ok p
      → (doc : Node) × (n.parse_html body ≡ some doc) × (p ≡ page_of n.parse_html n.rfc3339 url doc)
  unfolding extract
  extract-doc url body p h = elim (Option-cases (n.parse_html body)) [
    | inl e ↦ absurd (ground arith)
    | inr (doc, e) ↦ (doc, e, ground arith)
  ]

  pub failed-IsSound :
      (url : String) (f : Fetcher) (e : Error) (k : ℕ)
      → IsGenuine n f
      → IsSound url (record { fetcher = f; ending = failed e; event = k })
  failed-IsSound url f e k g = record { genuine = g; sourced = λ p h. absurd (ground arith) }

  pub page-IsSound :
      (url : String) (f : Fetcher) (page : Page) (k : ℕ)
      → IsGenuine n f
      → IsSourced n url page
      → IsSound url (record { fetcher = f; ending = fetched page; event = k })
  page-IsSound url f page k g s = record {
    genuine = g;
    sourced = λ p h. let it : page ≡ p = ground arith in subst (IsSourced n url) it s;
  }

  pub download-IsSound :
      (f : Fetcher) (url : String) (k : ℕ)
      → IsFaithful n
      → IsGenuine n f
      → IsSound url (download n w fuel f url k)
  unfolding download
  download-IsSound f url k fair g = elim (Bool-cases (n.is_request url)) [
    | inr bad ↦ rw (bad, download) (failed-IsSound url f _ _ g)
    | inl fine ↦ elim (Option-cases (n.client k url)) [
      | inl e ↦ rw (fine, download, e, download) (failed-IsSound url f _ _ g)
      | inr (resp, e) ↦ elim (Option-cases (status_error n w fuel url resp.status_code)) [
        | inr (bad, s) ↦ rw (fine, download, e, download, s, download) (failed-IsSound url f _ _ g)
        | inl s ↦ elim (Outcome-cases (extract n.parse_html n.rfc3339 url (limited resp.body))) [
          | inr (bad, x) ↦
              rw (fine, download, e, download, s, download, x, download)
                (failed-IsSound url f _ _ g)
          | inl (page, x) ↦
              let (doc, parsed, same) = extract-doc url (limited resp.body) page x in
              let source : IsSourced n url page = record {
                event = k;
                resp = resp;
                doc = doc;
                answered = e;
                ok_status = status_error-200 url resp.status_code s;
                parsed = parsed;
                extracted = same;
              } in
              rw (fine, download, e, download, s, download, x, download)
                (page-IsSound url _ page _
                  (store-IsGenuine n w fuel f url page (1 + k) fair g source) source)
        ]
      ]
    ]
  ]

  pub admit-IsGenuine :
      (f : Fetcher) (url : String) (k : ℕ)
      → IsGenuine n f
      → IsGenuine n (admit n w fuel f url k).fetcher
  unfolding admit check_robots
  admit-IsGenuine f url k g = elim (Waited-cases (wait w fuel f.limiter k).outcome) [
    | inl e ↦ elim (Bool-cases f.respect_robots) [
      | inl r ↦ rw (e, admit, r, admit) (record { cached = g.cached; on_disk = g.on_disk })
      | inr r ↦ rw (e, admit, r, admit) (record { cached = g.cached; on_disk = g.on_disk })
    ]
    | inr (inl e) ↦ rw (e, admit) (record { cached = g.cached; on_disk = g.on_disk })
    | inr (inr e) ↦ rw (e, admit) (record { cached = g.cached; on_disk = g.on_disk })
  ]

  pub hangs-IsSound :
      (url : String) (f : Fetcher) (k : ℕ)
      → IsGenuine n f
      → IsSound url (record { fetcher = f; ending = hangs; event = k })
  hangs-IsSound url f k g = record { genuine = g; sourced = λ p h. absurd (ground arith) }

  pub fetch_net-IsSound :
      (f : Fetcher) (url : String) (k : ℕ)
      → IsFaithful n
      → IsGenuine n f
      → IsSound url (fetch_net n w fuel f url k)
  unfolding fetch_net
  fetch_net-IsSound f url k fair g =
      let a = admit n w fuel f url k in
      let g' = admit-IsGenuine f url k g in
      elim (Verdict-cases a.verdict) [
        | inl e ↦ rw (e, fetch_net) (download-IsSound a.fetcher url a.event fair g')
        | inr (inl (x, e)) ↦ rw (e, fetch_net) (failed-IsSound url a.fetcher x _ g')
        | inr (inr e) ↦ rw (e, fetch_net) (hangs-IsSound url a.fetcher _ g')
      ]

  pub fetch_below-IsSound :
      (f : Fetcher) (url : String) (k : ℕ)
      → IsFaithful n
      → IsGenuine n f
      → IsSound url (fetch_below n w fuel f url k)
  unfolding fetch_below
  fetch_below-IsSound f url k fair g =
      let d = read_disk n w fuel f url (1 + k) in
      let (g', source) = read_disk-IsGenuine n w fuel f url (1 + k) g in
      elim (Option-cases d.1) [
        | inl e ↦ rw (e, fetch_below) (fetch_net-IsSound d.0 url (3 + k) fair g')
        | inr (p, e) ↦
            rw (e, fetch_below)
              (page-IsSound url _ p _
                (remember-IsGenuine n w fuel d.0 url p (2 + k) g' (source p e)) (source p e))
      ]
