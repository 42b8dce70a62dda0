-- ===== src/Fetch/Cache.antt =====
-- Where the pages that fetch/fetch.go hands out come from.
use saka.Base.{
  ℕ, ◌≡◌, sym, ap, ◌∙◌, ◌⊎◌, ◌+◌, inl, inr, String, none, some, false, arith, get, Option-cases,
  Bool-cases, ltb, ◌==◌,
}
use saka.World.{World}
use saka.Types.{Error, transport, status, decode}
use saka.RateLimit.{Waited-cases, wait}
use saka.Fetch.DiskCache.{read}
use saka.Fetch.Robots.{Url}
use saka.Fetch.Extract.{extract}
use saka.Fetch.Stream.{extract_stream}
use saka.Fetch.{
  Net, CacheEntry, Fetcher, Fetch, read_disk, fetch_below, Ending, fetched, failed, hangs,
  status_error, download, admit, fetch_net, fetch, stream_down, fetch_stream, Streamed, Flowed,
  done, errored, never, refused,
}
use saka.Fetch.Genuine.{IsFaithful, IsGenuine}
use saka.Fetch.Sound.{IsSound, page-IsSound, failed-IsSound, fetch_below-IsSound, Verdict-cases}

module _ (n : Net) (w : World) (fuel : ℕ) where
  -- Whichever tier answers, memory, disk or network, a page that Fetch returns was read from a 200
  -- answer to the same URL, and the tiers hold only such pages afterwards, if they did before, the
  -- JSON of pages comes back and no two URLs share a file.
  pub fetch-IsSound :
      (f : Fetcher) (url : String) (k : ℕ)
      → IsFaithful n
      → IsGenuine n f
      → IsSound n w fuel url (fetch n w fuel f url k)
  unfolding fetch
  fetch-IsSound f url k fair g = elim (Option-cases (n.parse_url url)) [
    | inl e ↦ rw (e, fetch) (failed-IsSound n w fuel url f _ _ g)
    | inr (u, e) ↦ elim (Option-cases (get f.cache url)) [
      | inl miss ↦ rw (e, fetch, miss, fetch) (fetch_below-IsSound n w fuel f url k fair g)
      | inr (ce, hit) ↦ elim (Bool-cases (ltb (w.clock k) ce.expires_at)) [
        | inl fresh ↦
            rw (e, fetch, hit, fetch, fresh, fetch)
              (page-IsSound n w fuel url f ce.page _ g (g.cached url ce hit))
        | inr stale ↦
            rw (e, fetch, hit, fetch, stale, fetch) (fetch_below-IsSound n w fuel f url k fair g)
      ]
    ]
  ]

  -- The message of Fetch for an error of FetchStream.
  abbrev pub reworded : String → Error → Error
  reworded url (transport s) = transport "fetch"
  reworded url (status s code) = status url code
  reworded url (decode s) = decode "extract"
  reworded url e = e

  abbrev pub ending_of : String → Flowed → Ending
  ending_of url (done chunks page) = fetched page
  ending_of url (errored e) = failed (reworded url e)
  ending_of url never = hangs

  -- A stream as the fetch that it amounts to.
  abbrev pub as_fetch : String → Streamed → Fetch
  as_fetch url s = record { fetcher = s.fetcher; ending = ending_of url s.flowed; event = s.event }

  stream_down-agrees :
      (f : Fetcher) (url : String) (k : ℕ)
      → as_fetch url (stream_down n w fuel f url k) ≡ download n w fuel f url k
  unfolding stream_down download extract extract_stream status_error
  stream_down-agrees f url k = elim (Bool-cases (n.is_request url)) [
    | inr bad ↦ ground arith
    | inl fine ↦ elim (Option-cases (n.client k url)) [
      | inl e ↦ ground arith
      | inr (resp, e) ↦ elim (Bool-cases (resp.status_code == 200)) [
        | inr bad ↦ ground arith
        | inl good ↦ ground arith
      ]
    ]
  ]

  admit-refuses :
      (f : Fetcher) (url : String) (k : ℕ) (e : Error)
      → (admit n w fuel f url k).verdict ≡ refused e
      → reworded url e ≡ e
  unfolding admit
  admit-refuses f url k e h = elim (Waited-cases (wait w fuel f.limiter k).outcome) [
    | inl passes ↦ ground (arith, passes)
    | inr (inl gone) ↦ ground (arith, gone)
    | inr (inr slow) ↦ absurd (ground (arith, slow))
  ]

  -- FetchStream goes the way of a Fetch behind its caches.
  pub fetch_stream-agrees :
      (f : Fetcher) (url : String) (k : ℕ)
      → as_fetch url (fetch_stream n w fuel f url k) ≡ fetch_net n w fuel f url k
  unfolding fetch_stream fetch_net
  fetch_stream-agrees f url k =
      let a = admit n w fuel f url k in
      elim (Verdict-cases a.verdict) [
        | inl e ↦ rw (e, fetch_stream, fetch_net) (stream_down-agrees a.fetcher url a.event)
        | inr (inl (x, e)) ↦ ground (arith, admit-refuses f url k x e)
        | inr (inr e) ↦ ground arith
      ]

  -- The memory cache does not answer for the URL at event `k`.
  abbrev pub IsMissing : Fetcher → String → ℕ → Type 0
  IsMissing f url k =
      (get f.cache url ≡ none)
      ⊎ ((ce : CacheEntry) × (get f.cache url ≡ some ce) × (ltb (w.clock k) ce.expires_at ≡ false))

  -- There is no disk cache, or it has no file for the URL.
  abbrev pub HasNoFile : Fetcher → String → Type 0
  HasNoFile f url = (f.disk ≡ none) ⊎ (get f.files (n.key url) ≡ none)

  read_disk-none :
      (f : Fetcher) (url : String) (k : ℕ)
      → HasNoFile f url
      → ((read_disk n w fuel f url k).0 ≡ f) × ((read_disk n w fuel f url k).1 ≡ none)
  unfolding read_disk read
  read_disk-none f url k (inl off) = ground arith
  read_disk-none f url k (inr gone) = elim (Option-cases f.disk) [
    | inl off ↦ ground arith
    | inr (c, on) ↦ ground arith
  ]

  fetch_below-none :
      (f : Fetcher) (url : String) (k : ℕ)
      → HasNoFile f url
      → fetch_below n w fuel f url k ≡ fetch_net n w fuel f url (3 + k)
  unfolding fetch_below
  fetch_below-none f url k h =
      let (same, nothing) = read_disk-none f url (1 + k) h in
      rw (nothing, fetch_below) (ap (λ g. fetch_net n w fuel g url (3 + k)) same)

  -- FetchStream against Fetch, for a URL that parses, of which the memory cache has no page or an
  -- expired one, and the disk no file: the stream, started when the lookups of the Fetch are done,
  -- ends with the same page, or with an error of the same kind, and leaves the same fetcher.
  pub fetch_stream-fetch :
      (f : Fetcher) (url : String) (u : Url) (k : ℕ)
      → n.parse_url url ≡ some u
      → IsMissing f url k
      → HasNoFile f url
      → as_fetch url (fetch_stream n w fuel f url (3 + k)) ≡ fetch n w fuel f url k
  unfolding fetch
  fetch_stream-fetch f url u k parses (inl missing) no_file =
      fetch_stream-agrees f url (3 + k)
      ∙ sym (rw (parses, fetch, missing, fetch) (fetch_below-none f url k no_file))
  fetch_stream-fetch f url u k parses (inr (ce, old, stale)) no_file =
      fetch_stream-agrees f url (3 + k)
      ∙ sym (rw (parses, fetch, old, fetch, stale, fetch) (fetch_below-none f url k no_file))
