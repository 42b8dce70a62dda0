-- ===== src/Config/Load/Ends.antt =====
-- Every end of LoadConfig of saka.go.
use saka.Base.{ℕ, zero, suc, ◌≡◌, String, Option, none, some, List, [], ◌∷◌, pos, true}
use saka.Types.{ProviderConfig}
use saka.Types.Registry.{Registry}
use saka.Config.{FetchConfig, DiskCacheConfig, default_config, validate}
use saka.Config.Valid.{IsValid}
use saka.Config.Load.{
  ProviderDoc, DiskCacheDoc, FetchDoc, Document, unreadable, unparsable, rejected, Loaded, loaded,
  failed, overlay,
}

-- The default entries by their place: what an entry of a file that omits a field falls back on.
abbrev pub fallback : ℕ → ProviderConfig
fallback zero = record {
  name = "searxng";
  url = "http://localhost:8888";
  rps = pos 5000;
  retries = pos 2;
  vertical = "";
}
fallback (suc zero) = record {
  name = "duckduckgo";
  url = "";
  rps = pos 1000;
  retries = pos 2;
  vertical = "";
}
fallback (suc (suc zero)) = record {
  name = "startpage";
  url = "";
  rps = pos 200;
  retries = pos 1;
  vertical = "";
}
fallback (suc (suc (suc i))) = record {
  name = "";
  url = "";
  rps = pos 0;
  retries = pos 0;
  vertical = "";
}

-- A field that the file sets, or omits.
abbrev pub IsField {ℓ} : {A : Type ℓ} → Option A → A → A → Type ℓ
IsField none old new = new ≡ old
IsField (some x) old new = new ≡ x

-- An entry as the file and the default entry at its place give it.
pub record IsEntry (d : ProviderDoc) (old new : ProviderConfig) : Type 0 where
  pub name : IsField d.name old.name new.name
  pub url : IsField d.url old.url new.url
  pub rps : IsField d.rps old.rps new.rps
  pub retries : IsField d.retries old.retries new.retries
  pub vertical : IsField d.vertical old.vertical new.vertical

-- The entries from place `i` on.
abbrev pub AreEntries : ℕ → List ProviderDoc → List ProviderConfig → Type 0
AreEntries i [] [] = Unit
AreEntries i [] (c ∷ cs) = ⊥
AreEntries i (d ∷ ds) [] = ⊥
AreEntries i (d ∷ ds) (c ∷ cs) = IsEntry d (fallback i) c × AreEntries (suc i) ds cs

-- The list of providers of a document, and without one the default's three.
abbrev pub AreProviders : Option (List ProviderDoc) → List ProviderConfig → Type 0
AreProviders none cs = cs ≡ fallback 0 ∷ fallback 1 ∷ fallback 2 ∷ []
AreProviders (some ds) cs = AreEntries 0 ds cs

-- The disk cache of a document; there is none by default.
abbrev pub IsDiskCache : Option DiskCacheDoc → Option DiskCacheConfig → Type 0
IsDiskCache none c = c ≡ none
IsDiskCache (some d) none = ⊥
IsDiskCache (some d) (some c) = IsField d.dir "" c.dir × IsField d.ttl_seconds (pos 0) c.ttl_seconds

abbrev pub IsFetch : Option FetchDoc → FetchConfig → Type 0
IsFetch none c = c ≡ record {
  rps = pos 2000;
  cache_ttl_seconds = pos 3600;
  respect_robots = true;
  disk_cache = none;
}
IsFetch (some d) c =
    IsField d.rps (pos 2000) c.rps
    × IsField d.cache_ttl_seconds (pos 3600) c.cache_ttl_seconds
    × IsField d.respect_robots true c.respect_robots
    × IsDiskCache d.disk_cache c.disk_cache

module _ (registry : Registry) (read : String → Option String) (parse : String → Option Document)
    (path : String) where
  -- The file was read as this document.
  abbrev Reads : Document → Type 0
  Reads d = (text : String) × (read path ≡ some text) × (parse text ≡ some d)

  -- What each end says of the file.
  abbrev pub Explains : Loaded → Type 0
  Explains (loaded c) =
      IsValid registry c
      × ((d : Document) × Reads d
          × AreProviders d.providers c.providers
          × IsFetch d.fetch c.fetch
          × (overlay default_config d ≡ c))
  Explains (failed (unreadable p)) = (p ≡ path) × (read path ≡ none)
  Explains (failed (unparsable p)) =
      (p ≡ path) × ((text : String) × (read path ≡ some text) × (parse text ≡ none))
  Explains (failed (rejected x)) =
      (d : Document) × Reads d
      × (validate registry (overlay default_config d) ≡ some x)
      × ¬ IsValid registry (overlay default_config d)
