-- ===== src/Config/Valid.antt =====
-- What Validate of saka.go accepts, stated without its loop.
use text.Mathlib.Text.{starts_with}
use saka.Base.{
  ℕ, suc, ◌≤◌, ◌≡◌, refl, ◌≢◌, ◌↔◌, String, true, false, Option, none, some, List, [], ◌∷◌, ℤ, pos,
  negsuc, arith, All, Dict, get, put, get-put, eq_iff, is_neg, exceeds, ◌||◌,
}
use saka.Types.{ProviderConfig}
use saka.Types.Registry.{Registry}
use saka.Config.{
  Config, FetchConfig, check_url, check_limits, check_name, check_registered, check_from,
  check_fetch, validate, ConfigError, ◌<|>◌,
}

-- Between 0 and `bound`.
abbrev pub Within : ℕ → ℤ → Type 0
Within bound (pos n) = n ≤ bound
Within bound (negsuc n) = ⊥

abbrev pub NonNegative : ℤ → Type 0
NonNegative (pos n) = Unit
NonNegative (negsuc n) = ⊥

-- A provider by itself: named, registered, with a URL where it is SearXNG, and with at most 10
-- requests per second and 5 retries.
pub record IsSound (registry : Registry) (p : ProviderConfig) : Type 0 where
  pub named : p.name ≢ ""
  pub known : get registry p.name ≢ none
  pub addressed : (p.name ≡ "searxng") → (p.url ≢ "") × (starts_with p.url "http" ≡ true)
  pub rate : Within 10000 p.rps
  pub retries : Within 5 p.retries

-- No two providers have the same name.
abbrev pub AreDistinct : List ProviderConfig → Type 0
AreDistinct [] = Unit
AreDistinct (p ∷ ps) = All (λ p'. p'.name ≢ p.name) ps × AreDistinct ps

abbrev pub AreNew : Dict String → List ProviderConfig → Type 0
AreNew seen = All (λ p. get seen p.name ≡ none)

check_name_iff :
    (i : ℕ) (seen : Dict String) (p : ProviderConfig)
    → (check_name i seen p ≡ none) ↔ ((get seen p.name ≡ none) × (p.name ≢ ""))
unfolding check_name
check_name_iff i seen p = ground (arith, eq_iff p.name "")

check_registered_iff :
    (registry : Registry) (i : ℕ) (p : ProviderConfig)
    → (check_registered registry i p ≡ none) ↔ (get registry p.name ≢ none)
unfolding check_registered
check_registered_iff registry i p = ground arith

check_url_iff :
    (i : ℕ) (p : ProviderConfig)
    → (check_url i p ≡ none)
      ↔ ((p.name ≡ "searxng") → (p.url ≢ "") × (starts_with p.url "http" ≡ true))
unfolding check_url
check_url_iff i p = ground (arith, eq_iff p.name "searxng", eq_iff p.url "")

Within-iff : (bound : ℕ) (z : ℤ) → ((is_neg z || exceeds bound z) ≡ false) ↔ Within bound z
Within-iff bound (pos n) = ground arith
Within-iff bound (negsuc n) = ground arith

check_limits_iff :
    (i : ℕ) (p : ProviderConfig)
    → (check_limits i p ≡ none) ↔ (Within 10000 p.rps × Within 5 p.retries)
unfolding check_limits
check_limits_iff i p = ground (arith, Within-iff 10000 p.rps, Within-iff 5 p.retries)

<|>-eq-none : (a b : Option ConfigError) → ((a <|> b) ≡ none) ↔ ((a ≡ none) × (b ≡ none))
<|>-eq-none none b = ground arith
<|>-eq-none (some e) b = ground arith

AreNew-put :
    (seen : Dict String) (name vertical : String) (ps : List ProviderConfig)
    → AreNew (put seen name vertical) ps ↔ (All (λ p. p.name ≢ name) ps × AreNew seen ps)
AreNew-put seen name vertical [] = ((λ h. (tt, tt)), λ h. tt)
AreNew-put seen name vertical (p ∷ ps) =
    ground (
      arith,
      AreNew-put seen name vertical ps,
      get-put seen name p.name vertical,
      eq_iff name p.name,
    )

IsSound-parts :
    (registry : Registry) (p : ProviderConfig)
    → IsSound registry p ↔ (
        (p.name ≢ "")
        × (get registry p.name ≢ none)
        × ((p.name ≡ "searxng") → (p.url ≢ "") × (starts_with p.url "http" ≡ true))
        × (Within 10000 p.rps × Within 5 p.retries))
IsSound-parts registry p = (
  (λ h. (h.named, h.known, h.addressed, (h.rate, h.retries))),
  λ (named, known, addressed, (rate, retries)). record {
    named = named;
    known = known;
    addressed = addressed;
    rate = rate;
    retries = retries;
  },
)

check_from_iff :
    (registry : Registry) (i : ℕ) (seen : Dict String) (ps : List ProviderConfig)
    → (check_from registry i seen ps ≡ none)
      ↔ (All (IsSound registry) ps × AreDistinct ps × AreNew seen ps)
unfolding check_from
check_from_iff registry i seen [] = ((λ e. (tt, tt, tt)), λ h. refl)
check_from_iff registry i seen (p ∷ ps) =
    let later = check_from registry (suc i) (put seen p.name p.vertical) ps in
    let limits = check_limits i p in
    let url = check_url i p in
    let known = check_registered registry i p in
    ground (
      arith,
      <|>-eq-none (check_name i seen p) (known <|> url <|> limits <|> later),
      <|>-eq-none known (url <|> limits <|> later),
      <|>-eq-none url (limits <|> later),
      <|>-eq-none limits later,
      check_name_iff i seen p,
      check_registered_iff registry i p,
      check_url_iff i p,
      check_limits_iff i p,
      IsSound-parts registry p,
      AreNew-put seen p.name p.vertical ps,
      check_from_iff registry (suc i) (put seen p.name p.vertical) ps,
    )

check_fetch_iff :
    (f : FetchConfig)
    → (check_fetch f ≡ none) ↔ (Within 10000 f.rps × NonNegative f.cache_ttl_seconds)
unfolding check_fetch
check_fetch_iff f = ground (arith, Within-iff 10000 f.rps, is_neg_iff f.cache_ttl_seconds)
  where
    is_neg_iff : (z : ℤ) → (is_neg z ≡ false) ↔ NonNegative z
    is_neg_iff (pos n) = ground arith
    is_neg_iff (negsuc n) = ground arith

pub record IsValid (registry : Registry) (c : Config) : Type 0 where
  pub some_provider : c.providers ≢ []
  pub sound : All (IsSound registry) c.providers
  pub distinct : AreDistinct c.providers
  pub fetch_rate : Within 10000 c.fetch.rps
  pub cache_ttl : NonNegative c.fetch.cache_ttl_seconds

AreNew-nil : (ps : List ProviderConfig) → AreNew [] ps
unfolding get
AreNew-nil [] = tt
AreNew-nil (p ∷ ps) = (refl, AreNew-nil ps)

-- Validate accepts a configuration exactly if it has a provider, each provider is named,
-- registered, addressed where it is SearXNG, and within its bounds, no two have one name, whatever
-- their verticals, and the fetch section is within its bounds.
pub validate_iff :
    (registry : Registry) (c : Config) → (validate registry c ≡ none) ↔ IsValid registry c
unfolding validate
validate_iff registry c = (to c.providers refl, from c.providers refl)
  where
    to :
        (ps : List ProviderConfig)
        → c.providers ≡ ps
        → validate registry c ≡ none
        → IsValid registry c
    to [] e h = absurd (ground arith)
    to (p ∷ ps) e h =
        let h' : (check_from registry 0 [] (p ∷ ps) <|> check_fetch c.fetch) ≡ none =
          ground arith in
        let (looped, fetched) = (<|>-eq-none (check_from registry 0 [] (p ∷ ps)) _).0 h' in
        let (sound, distinct, _) = (check_from_iff registry 0 [] (p ∷ ps)).0 looped in
        let (rate, ttl) = (check_fetch_iff c.fetch).0 fetched in
        record {
          some_provider = ground arith;
          sound = rw e sound;
          distinct = rw e distinct;
          fetch_rate = rate;
          cache_ttl = ttl;
        }

    from :
        (ps : List ProviderConfig)
        → c.providers ≡ ps
        → IsValid registry c
        → validate registry c ≡ none
    from [] e v = absurd (v.some_provider e)
    from (p ∷ ps) e v =
        let looped =
          (check_from_iff registry 0 [] (p ∷ ps)).1
            ((rw e at v.sound), (rw e at v.distinct), AreNew-nil (p ∷ ps)) in
        let fetched = (check_fetch_iff c.fetch).1 (v.fetch_rate, v.cache_ttl) in
        rw (e, validate) (rw (looped, fetched))
