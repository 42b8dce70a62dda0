-- ===== src/Fetch/DiskCache/Store.antt =====
-- What fetch/diskcache.go gives back.
use saka.Base.{
  ◌-◌, ℤ, pos, negsuc, ℕ, ◌+◌, ◌≤◌, ◌≡◌, refl, ◌≢◌, ◌∙◌, sym, ◌&&◌, true, Bool, ◌⊎◌, String, none,
  some, [], ◌∷◌, arith, get, get-put, str_eq, eq_iff, if◌then◌else◌, Option-cases, Bool-cases, inl,
  inr, length, leb, not, false, put,
}
use saka.Types.{Page}
use saka.Fetch.DiskCache.{
  File, Files, Codec, DiskCache, remove, is_expired, outlives, read, write, gc,
}

pub get-remove :
    (fs : Files) (p q : String) → get (remove fs p) q ≡ (if str_eq p q then none else get fs q)
unfolding get remove
get-remove [] p q = ground arith
get-remove (f ∷ fs) p q = ground (arith, get-remove fs p q, eq_iff f.0 p, eq_iff f.0 q, eq_iff p q)

-- A path names one file.
abbrev pub ArePaths : Files → Type 0
ArePaths [] = Unit
ArePaths (f ∷ fs) = (get fs f.0 ≡ none) × ArePaths fs

gc-none :
    (is_json : String → Bool) (c : DiskCache) (fs : Files) (now : ℕ) (p : String)
    → get fs p ≡ none
    → get (gc is_json c fs now).files p ≡ none
unfolding gc get
gc-none is_json c [] now p h = refl
gc-none is_json c (f ∷ fs) now p h = ground (arith, gc-none is_json c fs now p)

gc-count :
    (is_json : String → Bool) (c : DiskCache) (fs : Files) (now : ℕ)
    → (gc is_json c fs now).removed + length (gc is_json c fs now).files ≡ length fs
unfolding gc
gc-count is_json c [] now = omega arith
gc-count is_json c (f ∷ fs) now = ground (arith, gc-count is_json c fs now)

outlives_mono :
    (ttl : ℤ) (age older : ℕ) → age ≤ older → outlives ttl age ≡ true → outlives ttl older ≡ true
outlives_mono (pos n) age older h e = ground arith
outlives_mono (negsuc n) age older h e = refl

is_expired_mono :
    (c : DiskCache) (now later : ℕ) (f : File)
    → now ≤ later
    → is_expired c now f ≡ true
    → is_expired c later f ≡ true
unfolding is_expired
is_expired_mono c now later f h e =
    outlives_mono c.ttl (now - f.mod_time) (later - f.mod_time) (omega arith) e

-- What the lookup answers depends on the file of the URL alone.
module _ (key : String → String) (codec : Codec) (c : DiskCache) where
  read-get :
      (fs gs : Files) (url : String) (now : ℕ)
      → get fs (key url) ≡ get gs (key url)
      → (read key codec c fs url now).page ≡ (read key codec c gs url now).page
  unfolding read
  read-get fs gs url now e = elim (Option-cases (get gs (key url))) [
    | inl missing ↦ rw (e, read, missing, read)
    | inr (f, there) ↦ ground arith
  ]

  read-none :
      (fs : Files) (url : String) (now : ℕ)
      → get fs (key url) ≡ none
      → (read key codec c fs url now).page ≡ none
  unfolding read
  read-none fs url now e = ground arith

  read-expired :
      (fs : Files) (url : String) (now : ℕ) (f : File)
      → get fs (key url) ≡ some f
      → is_expired c now f ≡ true
      → (read key codec c fs url now).page ≡ none
  unfolding read
  read-expired fs url now f e old = ground arith

gc-get :
    (is_json : String → Bool) (c : DiskCache) (fs : Files) (now : ℕ) (p : String)
    → ArePaths fs
    → (get (gc is_json c fs now).files p ≡ get fs p)
      ⊎ ((f : File) × (get fs p ≡ some f)
          × (is_expired c now f ≡ true)
          × (get (gc is_json c fs now).files p ≡ none))
unfolding gc get
gc-get is_json c [] now p h = inl refl
gc-get is_json c (f ∷ fs) now p h = elim (Bool-cases (str_eq f.0 p)) [
  | inr other ↦ elim (gc-get is_json c fs now p h.1) [
    | inl kept ↦ inl (ground (arith, kept))
    | inr (g, e, old, lost) ↦ inr (g, rw other e, old, ground arith)
  ]
  | inl same ↦
      let gone : get fs p ≡ none = rw (← (eq_iff f.0 p).0 same) h.0 in
      let below : get (gc is_json c fs now).files p ≡ none =
        ground (arith, gc-none is_json c fs now p gone) in
      elim (Bool-cases (is_json f.0 && is_expired c now f.1)) [
        | inl dead ↦ inr (f.1, rw same, ground arith, ground arith)
        | inr alive ↦ inl (ground arith)
      ]
]

-- Where a path names one file, collecting garbage changes no answer of the cache, then or later;
-- it removes as many files as it reports.
pub gc-read :
    (key : String → String) (codec : Codec) (is_json : String → Bool) (c : DiskCache) (fs : Files)
    (url : String) (now later : ℕ)
    → ArePaths fs
    → now ≤ later
    → ((read key codec c (gc is_json c fs now).files url later).page
        ≡ (read key codec c fs url later).page)
      × ((gc is_json c fs now).removed + length (gc is_json c fs now).files ≡ length fs)
gc-read key codec is_json c fs url now later h le = (same, gc-count is_json c fs now)
  where
    same :
        (read key codec c (gc is_json c fs now).files url later).page
        ≡ (read key codec c fs url later).page
    same = elim (gc-get is_json c fs now (key url) h) [
      | inl kept ↦ read-get key codec c (gc is_json c fs now).files fs url later kept
      | inr (f, e, old, lost) ↦
          read-none key codec c (gc is_json c fs now).files url later lost
          ∙ sym (read-expired key codec c fs url later f e (is_expired_mono c now later f le old))
    ]

-- Whether a page written at `now` is still there at `later`.
abbrev pub is_kept : ℤ → ℕ → ℕ → Bool
is_kept (pos ttl) now later = leb later (now + ttl)
is_kept (negsuc ttl) now later = false

outlives-is_kept :
    (ttl : ℤ) (now later : ℕ) → outlives ttl (later - now) ≡ not (is_kept ttl now later)
outlives-is_kept (pos ttl) now later = ground arith
outlives-is_kept (negsuc ttl) now later = refl

read-put :
    (key : String → String) (codec : Codec) (c : DiskCache) (fs : Files) (url b : String)
    (page : Page) (now later : ℕ)
    → codec.marshal page ≡ some b
    → codec.unmarshal b ≡ some page
    → (read key codec c (write key codec c fs url page now) url later).page
      ≡ (if is_kept c.ttl now later then some page else none)
unfolding read write is_expired
read-put key codec c fs url b page now later e e' = ground (
  arith,
  get-put fs (key url) (key url) (record { bytes = b; mod_time = now }),
  eq_iff (key url) (key url),
  outlives-is_kept c.ttl now later,
)

read-other :
    (key : String → String) (codec : Codec) (c : DiskCache) (fs : Files) (url other : String)
    (page : Page) (now later : ℕ)
    → key other ≢ key url
    → (read key codec c (write key codec c fs url page now) other later).page
      ≡ (read key codec c fs other later).page
unfolding read write
read-other key codec c fs url other page now later apart =
    elim (Option-cases (codec.marshal page)) [
      | inl e ↦ ground (arith, e)
      | inr (b, e) ↦ ground (
        arith,
        e,
        get-put fs (key url) (key other) (record { bytes = b; mod_time = now }),
        eq_iff (key url) (key other),
      )
    ]

ArePaths-put : (fs : Files) (p : String) (f : File) → ArePaths fs → ArePaths (put fs p f)
unfolding put get
ArePaths-put [] p f h = (refl, tt)
ArePaths-put (g ∷ fs) p f h = elim (Bool-cases (str_eq g.0 p)) [
  | inl same ↦ rw same (rw (← (eq_iff g.0 p).0 same) h.0, h.1)
  | inr apart ↦
      rw apart (
        ground (arith, get-put fs p g.0 f, h.0, eq_iff p g.0, eq_iff g.0 p),
        ArePaths-put fs p f h.1,
      )
]

-- A page that was written, and a garbage collection after it, at any time up to the lookup: the
-- lookup gives the page as long as its age is at most the time to live, and nothing afterwards or
-- with a negative time to live; for a URL with another file it answers as if there had been
-- neither. Before the write a path names one file, and the page comes back from its JSON.
pub read-write :
    (key : String → String) (codec : Codec) (is_json : String → Bool) (c : DiskCache) (fs : Files)
    (url other b : String) (page : Page) (now between later : ℕ)
    → ArePaths fs
    → between ≤ later
    → codec.marshal page ≡ some b
    → codec.unmarshal b ≡ some page
    → key other ≢ key url
    → let fs' = (gc is_json c (write key codec c fs url page now) between).files in
      ((read key codec c fs' url later).page
        ≡ (if is_kept c.ttl now later then some page else none))
      × ((read key codec c fs' other later).page ≡ (read key codec c fs other later).page)
unfolding write
read-write key codec is_json c fs url other b page now between later h le e e' apart =
    let fs' = write key codec c fs url page now in
    let paths : ArePaths fs' =
      rw (e, write) (ArePaths-put fs (key url) (record { bytes = b; mod_time = now }) h) in
    (
      (gc-read key codec is_json c fs' url between later paths le).0
          ∙ read-put key codec c fs url b page now later e e',
      (gc-read key codec is_json c fs' other between later paths le).0
          ∙ read-other key codec c fs url other page now later apart,
    )
