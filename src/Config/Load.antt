-- ===== src/Config/Load.antt =====
-- saka.go: LoadConfig. The JSON of a file is read over the default configuration: what the file
-- omits keeps the default's value. encoding/json decodes an array into the elements that the
-- slice already has, so an entry of `providers` keeps what it omits from the default's entry at
-- the same place; entries behind these start from zero values. The file's syntax is a parameter.
use saka.Base.{
  ℕ, zero, suc, ◌≡◌, refl, ap, sym, ◌∙◌, ◌↔◌, ◌⊎◌, inl, inr, subst, String, Bool, Option, none,
  some, List, [], ◌∷◌, ℤ, pos, get_elem?, length, Option-cases, arith,
}
pub mod Ends
use mathlib.Core.Option
use saka.Types.{ProviderConfig}
use saka.Types.Registry.{Registry}
use saka.Config.{Config, FetchConfig, DiskCacheConfig, ConfigError, default_config, validate}
use saka.Config.Valid.{IsValid, validate_iff}

-- A file's JSON with the fields that it sets; a `null` sets none, but for `providers`, where it
-- is the empty array.
pub record ProviderDoc : Type 0 where
  pub name : Option String
  pub url : Option String
  pub rps : Option ℤ
  pub retries : Option ℤ
  pub vertical : Option String

pub record DiskCacheDoc : Type 0 where
  pub dir : Option String
  pub ttl_seconds : Option ℤ

pub record FetchDoc : Type 0 where
  pub rps : Option ℤ
  pub cache_ttl_seconds : Option ℤ
  pub respect_robots : Option Bool
  pub disk_cache : Option DiskCacheDoc

pub record Document : Type 0 where
  pub providers : Option (List ProviderDoc)
  pub fetch : Option FetchDoc

abbrev pub or_old {ℓ} : {A : Type ℓ} → Option A → A → A
or_old none old = old
or_old (some new) old = new

unfoldable pub overlay_provider : ProviderConfig → ProviderDoc → ProviderConfig
overlay_provider old d = record {
  name = or_old d.name old.name;
  url = or_old d.url old.url;
  rps = or_old d.rps old.rps;
  retries = or_old d.retries old.retries;
  vertical = or_old d.vertical old.vertical;
}

abbrev pub zero_provider : ProviderConfig
zero_provider = record { name = ""; url = ""; rps = pos 0; retries = pos 0; vertical = "" }

unfoldable pub overlay_providers : List ProviderConfig → List ProviderDoc → List ProviderConfig
overlay_providers olds [] = []
overlay_providers [] (d ∷ ds) = overlay_provider zero_provider d ∷ overlay_providers [] ds
overlay_providers (old ∷ olds) (d ∷ ds) = overlay_provider old d ∷ overlay_providers olds ds

abbrev zero_disk_cache : DiskCacheConfig
zero_disk_cache = record { dir = ""; ttl_seconds = pos 0 }

overlay_disk_cache : Option DiskCacheConfig → DiskCacheDoc → DiskCacheConfig
overlay_disk_cache old d =
    let base = or_old old zero_disk_cache in
    record { dir = or_old d.dir base.dir; ttl_seconds = or_old d.ttl_seconds base.ttl_seconds }

overlay_fetch : FetchConfig → FetchDoc → FetchConfig
unfolding overlay_disk_cache
overlay_fetch old d = record {
  rps = or_old d.rps old.rps;
  cache_ttl_seconds = or_old d.cache_ttl_seconds old.cache_ttl_seconds;
  respect_robots = or_old d.respect_robots old.respect_robots;
  disk_cache = elim d.disk_cache [
    | none ↦ old.disk_cache
    | some disk ↦ some (overlay_disk_cache old.disk_cache disk)
  ];
}

-- json.Unmarshal(b, &cfg) for a file that is a document.
unfoldable pub overlay : Config → Document → Config
unfolding overlay_providers overlay_fetch
overlay old d = record {
  providers = elim d.providers [
    | none ↦ old.providers
    | some ds ↦ overlay_providers old.providers ds
  ];
  fetch = elim d.fetch [ none ↦ old.fetch | some f ↦ overlay_fetch old.fetch f ];
}

pub data LoadError : Type 0 where
  unreadable : String → LoadError
  unparsable : String → LoadError
  rejected : ConfigError → LoadError

pub data Loaded : Type 0 where
  loaded : Config → Loaded
  failed : LoadError → Loaded

module _ (registry : Registry) (read : String → Option String)
    (parse : String → Option Document) where
  -- The validation at the end.
  unfoldable pub accept : Config → Loaded
  accept c = elim (validate registry c) [ some x ↦ failed (rejected x) | none ↦ loaded c ]

  -- LoadConfig, with the files and the syntax of JSON.
  unfoldable pub load_config : String → Loaded
  unfolding accept overlay
  load_config path = elim (read path) [
    | none ↦ failed (unreadable path)
    | some text ↦ elim (parse text) [
      | none ↦ failed (unparsable path)
      | some d ↦ accept (overlay default_config d)
    ]
  ]

  accept_iff : (c c' : Config) → (accept c ≡ loaded c') ↔ ((c ≡ c') × IsValid registry c')
  unfolding accept
  accept_iff c c' = elim (Option-cases (validate registry c)) [
    | inr (x, bad) ↦ (
      λ h. absurd (ground arith),
      λ h. absurd (
          ground (
            arith,
            subst (λ d. validate registry d ≡ none) (sym h.0) ((validate_iff registry c').1 h.1),
          )),
    )
    | inl fine ↦ (
      λ h.
          let same : c ≡ c' = ground arith in
          (same, (validate_iff registry c').0 (subst (λ d. validate registry d ≡ none) same fine)),
      λ h. rw (fine, accept) (ap loaded h.0),
    )
  ]

  -- LoadConfig answers the configuration c exactly if the file is read, is a
  -- document, and the document over the default configuration is c and valid.
  pub load_config_iff :
      (path : String) (c : Config)
      → (load_config path ≡ loaded c) ↔ (
          (text : String) × (d : Document) × (read path ≡ some text)
          × (parse text ≡ some d)
          × (overlay default_config d ≡ c)
          × IsValid registry c)
  unfolding load_config
  load_config_iff path c = (to, from)
    where
      to :
          load_config path ≡ loaded c
          → (text : String) × (d : Document) × (read path ≡ some text)
            × (parse text ≡ some d)
            × (overlay default_config d ≡ c)
            × IsValid registry c
      to h = elim (Option-cases (read path)) [
        | inl e ↦ absurd (ground arith)
        | inr (text, e) ↦ elim (Option-cases (parse text)) [
          | inl e' ↦ absurd (ground arith)
          | inr (d, e') ↦
              let (same, valid) = (accept_iff (overlay default_config d) c).0 (ground arith) in
              (text, d, e, e', same, valid)
        ]
      ]

      from :
          ((text : String) × (d : Document) × (read path ≡ some text)
            × (parse text ≡ some d)
            × (overlay default_config d ≡ c)
            × IsValid registry c)
          → load_config path ≡ loaded c
      from (text, d, e, e', same, valid) =
          rw (e, load_config, e') ((accept_iff (overlay default_config d) c).1 (same, valid))
