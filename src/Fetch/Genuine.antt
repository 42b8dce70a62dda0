-- ===== src/Fetch/Genuine.antt =====
-- What the caches of fetch/fetch.go hold, after each of their writes and lookups.
use saka.Base.{
  ℕ, ◌+◌, ◌≡◌, ap, ◌∙◌, subst, inl, inr, String, some, arith, get, get-put, str_eq, eq_iff,
  Option-cases, Bool-cases,
}
use saka.World.{World}
use saka.Types.{Page}
use saka.Html.{Node}
use saka.Fetch.DiskCache
use saka.Fetch.DiskCache.{is_expired, File, Files, remove, read, write}
use saka.Fetch.DiskCache.Store.{get-remove}
use saka.Fetch.Extract.{page_of}
use saka.Fetch.Robots.{Response}
use saka.Fetch.{Net, CacheEntry, Fetcher, limited, remember, store, read_disk}

-- A page that was read from a 200 answer of its own URL.
pub record IsSourced (n : Net) (url : String) (p : Page) : Type 0 where
  pub event : ℕ
  pub resp : Response
  pub doc : Node
  pub answered : n.client event url ≡ some resp
  pub ok_status : resp.status_code ≡ 200
  pub parsed : n.parse_html (limited resp.body) ≡ some doc
  pub extracted : p ≡ page_of n.parse_html n.rfc3339 url doc

-- All that the caches of a fetcher answer is sourced.
pub record IsGenuine (n : Net) (f : Fetcher) : Type 0 where
  pub cached : (url : String) (e : CacheEntry) → get f.cache url ≡ some e → IsSourced n url e.page
  pub on_disk :
      (url : String) (file : File) (p : Page)
      → get f.files (n.key url) ≡ some file
      → n.codec.unmarshal file.bytes ≡ some p
      → IsSourced n url p

-- What the store needs of the world outside: a page comes back from its JSON, and two URLs have
-- two files.
pub record IsFaithful (n : Net) : Type 0 where
  pub round_trip :
      (p q : Page) (b : String) → n.codec.marshal p ≡ some b → n.codec.unmarshal b ≡ some q → p ≡ q
  pub key_apart : (u v : String) → n.key u ≡ n.key v → u ≡ v

module _ (n : Net) (w : World) (fuel : ℕ) where
  pub remember-IsGenuine :
      (f : Fetcher) (url : String) (p : Page) (k : ℕ)
      → IsGenuine n f
      → IsSourced n url p
      → IsGenuine n (remember n w fuel f url p k)
  unfolding remember
  remember-IsGenuine f url p k g s = record {
    cached = λ other e h. elim (Bool-cases (str_eq url other)) [
      | inl same ↦
          let it : p ≡ e.page = ground (
            arith,
            get-put f.cache url other (record { page = p; expires_at = w.clock k + f.ttl }),
          ) in
          subst (λ u. IsSourced n u e.page) ((eq_iff url other).0 same)
            (subst (IsSourced n url) it s)
      | inr apart ↦ g.cached other e (
          ground (
            arith,
            get-put f.cache url other (record { page = p; expires_at = w.clock k + f.ttl }),
          ))
    ];
    on_disk = g.on_disk;
  }

  pub write-IsGenuine :
      (f : Fetcher) (c : DiskCache.DiskCache) (url : String) (p : Page) (now : ℕ)
      → IsFaithful n
      → IsGenuine n f
      → IsSourced n url p
      → IsGenuine n (record f { files = write n.key n.codec c f.files url p now })
  unfolding write
  write-IsGenuine f c url p now fair g s = elim (Option-cases (n.codec.marshal p)) [
    | inl e ↦ rw (e, write) (record { cached = g.cached; on_disk = g.on_disk })
    | inr (b, e) ↦
        rw (e, write)
          (record {
            cached = g.cached;
            on_disk = λ other file q h d. elim (Bool-cases (str_eq (n.key url) (n.key other))) [
              | inr apart ↦
                  g.on_disk other file q
                    (ground (
                      arith,
                      get-put f.files (n.key url) (n.key other)
                          (record { bytes = b; mod_time = now }),
                    ))
                    d
              | inl same ↦
                  let it : record { bytes = b; mod_time = now } ≡ file = ground (
                    arith,
                    get-put f.files (n.key url) (n.key other)
                        (record { bytes = b; mod_time = now }),
                  ) in
                  let u = fair.key_apart url other ((eq_iff (n.key url) (n.key other)).0 same) in
                  let back =
                    fair.round_trip p q b e (ap (λ (x : File). n.codec.unmarshal x.bytes) it ∙ d) in
                  subst (λ v. IsSourced n v q) u (subst (IsSourced n url) back s)
            ];
          })
  ]

  pub store-IsGenuine :
      (f : Fetcher) (url : String) (p : Page) (k : ℕ)
      → IsFaithful n
      → IsGenuine n f
      → IsSourced n url p
      → IsGenuine n (store n w fuel f url p k)
  unfolding store
  store-IsGenuine f url p k fair g s =
      let g' = remember-IsGenuine f url p k g s in
      elim (Option-cases f.disk) [
        | inl e ↦ rw (e, store) g'
        | inr (c, e) ↦
            rw (e, store)
              (write-IsGenuine (remember n w fuel f url p k) c url p (w.clock (1 + k)) fair g' s)
      ]

  pub remove-IsGenuine :
      (f : Fetcher) (path : String)
      → IsGenuine n f
      → IsGenuine n (record f { files = remove f.files path })
  remove-IsGenuine f path g = record {
    cached = g.cached;
    on_disk = λ url file p h d.
        g.on_disk url file p (ground (arith, get-remove f.files path (n.key url))) d;
  }

  pub read-IsGenuine :
      (f : Fetcher) (c : DiskCache.DiskCache) (url : String) (now : ℕ)
      → IsGenuine n f
      → IsGenuine n (record f { files = (read n.key n.codec c f.files url now).files })
        × ((p : Page) → (read n.key n.codec c f.files url now).page ≡ some p → IsSourced n url p)
  unfolding read
  read-IsGenuine f c url now g = elim (Option-cases (get f.files (n.key url))) [
    | inl e ↦
        rw (e, read)
          (record { cached = g.cached; on_disk = g.on_disk }, λ p h. absurd (ground arith))
    | inr (file, e) ↦ elim (Bool-cases (is_expired c now file)) [
      | inl old ↦
          rw (e, read, old, read) (remove-IsGenuine f (n.key url) g, λ p h. absurd (ground arith))
      | inr new ↦ elim (Option-cases (n.codec.unmarshal file.bytes)) [
        | inl bad ↦
            rw (e, read, new, read, bad, read)
              (remove-IsGenuine f (n.key url) g, λ p h. absurd (ground arith))
        | inr (q, d) ↦
            rw (e, read, new, read, d, read)
              (
                record { cached = g.cached; on_disk = g.on_disk },
                λ p h.
                    let it : q ≡ p = ground arith in
                    subst (IsSourced n url) it (g.on_disk url file q e d),
              )
      ]
    ]
  ]

  pub read_disk-IsGenuine :
      (f : Fetcher) (url : String) (k : ℕ)
      → IsGenuine n f
      → IsGenuine n (read_disk n w fuel f url k).0
        × ((p : Page) → (read_disk n w fuel f url k).1 ≡ some p → IsSourced n url p)
  unfolding read_disk
  read_disk-IsGenuine f url k g = elim (Option-cases f.disk) [
    | inl e ↦ rw (e, read_disk) (g, λ p h. absurd (ground arith))
    | inr (c, e) ↦ rw (e, read_disk) (read-IsGenuine f c url (w.clock k) g)
  ]
