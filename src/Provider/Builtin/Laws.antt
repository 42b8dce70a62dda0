-- ===== src/Provider/Builtin/Laws.antt =====
-- The registry of the program.
use saka.Base.{◌≡◌, refl, ◌⊎◌, String, none, some, [], ◌∷◌, eq_iff, get, put, All, get-All, arith}
use saka.Types.{Provider, ProviderConfig, Error, no_url, ok, err}
use saka.Types.Registry.{ProviderFactory, registered}
use saka.Config.{default_config, validate}
use saka.Engine.Names.{AreNamed}
use saka.Provider.Builtin.{
  Outside, inits, run_inits, duckduckgo_factory, gdelt_factory, images_factory, searxng_factory,
  startpage_factory,
}

module _ (o : Outside) where
  IsNamed : String × ProviderFactory → Type 0
  IsNamed entry = (c : ProviderConfig) (p : Provider) → entry.1 c ≡ ok p → p.name ≡ entry.0

  inits-IsNamed : All IsNamed (inits o)
  unfolding IsNamed duckduckgo_factory gdelt_factory images_factory searxng_factory
      startpage_factory
  inits-IsNamed = (
    λ c p h. ground arith,
    (
      λ c p h. ground arith,
      (λ c p h. ground arith, (λ c p h. ground arith, (λ c p h. ground arith, tt))),
    ),
  )

  -- A factory fails only for want of a URL.
  abbrev pub NeedsUrl : String × ProviderFactory → Type 0
  NeedsUrl entry =
      (c : ProviderConfig) (x : Error)
      → entry.1 c ≡ err x
      → (x ≡ no_url entry.0) × (c.url ≡ "") × ((entry.0 ≡ "searxng") ⊎ (entry.0 ≡ "searxng-images"))

  pub inits-NeedsUrl : All NeedsUrl (inits o)
  unfolding duckduckgo_factory gdelt_factory images_factory searxng_factory startpage_factory
  inits-NeedsUrl = (
    λ c p h. absurd (ground arith),
    (
      λ c p h. absurd (ground arith),
      (
        λ c p h. ground (arith, eq_iff c.url ""),
        (λ c p h. ground (arith, eq_iff c.url ""), (λ c p h. absurd (ground arith), tt)),
      ),
    ),
  )

  -- The init functions of the program register its five providers and none panics; the names are
  -- listed in order, each factory names its provider as it is registered, and the default
  -- configuration is valid.
  pub run_inits-inits :
      (run_inits (inits o) [] ≡ some (inits o))
      × (registered (inits o)
          ≡ "duckduckgo" ∷ "gdelt" ∷ "searxng" ∷ "searxng-images" ∷ "startpage" ∷ [])
      × AreNamed (inits o)
      × (validate (inits o) default_config ≡ none)
  unfolding run_inits get put registered validate default_config IsNamed saka.Config.check_from
      saka.Config.check_name saka.Config.check_registered saka.Config.check_url
      saka.Config.check_limits saka.Config.check_fetch
  run_inits-inits = (
    refl,
    refl,
    λ c f p found made. get-All IsNamed (inits o) c.name f inits-IsNamed found c p made,
    refl,
  )
