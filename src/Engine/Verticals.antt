-- ===== src/Engine/Verticals.antt =====
-- Which providers New of saka.go puts into which chain.
use mathlib.Core.List.{Memᴰ, append_assoc}
use saka.Base.{
  ℕ, suc, pos_part, ◌≡◌, refl, ap, sym, subst, ◌∙◌, ◌⊎◌, inl, inr, String, Option, none, some, List,
  [], ◌∷◌, ◌++◌, Dict, get, get-put, str_eq, eq_iff, All, Option-cases, Bool-cases, if◌then◌else◌,
  arith,
}
use saka.World.{World}
use saka.Types.{Provider, ProviderConfig}
use saka.Types.Registry.{Registry}
use saka.Fetch
use saka.Config.{Config, validate}
use saka.Config.Valid.{AreDistinct, validate_iff}
use saka.Chain
use saka.Chain.{Entry, entries_for, entry_for}
use saka.Engine.{
  seconds, Engine, made, instantiate, add_config, group, build, Place, with_disk, assemble, new,
}
use saka.Engine.Names.{
  config_names, provider_names, entry_names, of_vertical, AreNamed, Made-cases, instantiate-names,
  AreApart, new-names, distinct-AreApart, of_vertical-listed, name-listed,
}

-- The configurations that are grouped under a vertical.
abbrev listed : Option (List ProviderConfig) → List ProviderConfig
listed none = []
listed (some cs) = cs

abbrev under : Dict (List ProviderConfig) → String → List ProviderConfig
under m v = listed (get m v)

-- What a group holds after some more configurations of its vertical.
abbrev grown :
    Dict (List ProviderConfig) → String → List ProviderConfig → Option (List ProviderConfig)
grown m v [] = get m v
grown m v (c ∷ cs) = some (under m v ++ c ∷ cs)

get-add_config :
    (m : Dict (List ProviderConfig)) (c : ProviderConfig) (v : String)
    → get (add_config m c) v ≡ (if str_eq c.vertical v then some (under m v ++ c ∷ []) else get m v)
unfolding add_config
get-add_config m c v = elim (Bool-cases (str_eq c.vertical v)) [
  | inl same ↦
      let e : c.vertical ≡ v = (eq_iff c.vertical v).0 same in
      get-put m c.vertical v (under m c.vertical ++ c ∷ [])
      ∙ rw same (ap (λ u. some (under m u ++ c ∷ [])) e)
  | inr other ↦ get-put m c.vertical v (under m c.vertical ++ c ∷ []) ∙ rw other refl
]

get-group :
    (m : Dict (List ProviderConfig)) (cs : List ProviderConfig) (v : String)
    → get (group m cs) v ≡ grown m v (of_vertical v cs)
unfolding group
get-group m [] v = refl
get-group m (c ∷ cs) v = get-group (add_config m c) cs v ∙ step (of_vertical v cs)
  where
    step :
        (rest : List ProviderConfig)
        → grown (add_config m c) v rest ≡ grown m v (if str_eq c.vertical v then c ∷ rest else rest)
    step rest = elim (Bool-cases (str_eq c.vertical v)) [
      | inl same ↦
          let found : get (add_config m c) v ≡ some (under m v ++ c ∷ []) =
            get-add_config m c v ∙ rw same refl in
          rw same (inside rest found)
      | inr other ↦
          let kept : get (add_config m c) v ≡ get m v = get-add_config m c v ∙ rw other refl in
          rw other (outside rest kept)
    ]
      where
        inside :
            (rest : List ProviderConfig)
            → get (add_config m c) v ≡ some (under m v ++ c ∷ [])
            → grown (add_config m c) v rest ≡ some (under m v ++ c ∷ rest)
        inside [] found = found
        inside (d ∷ ds) found =
            ap (λ o. some (listed o ++ d ∷ ds)) found
            ∙ ap (λ cs. some cs) (append_assoc (under m v) (c ∷ []) (d ∷ ds))

        outside :
            (rest : List ProviderConfig)
            → get (add_config m c) v ≡ get m v
            → grown (add_config m c) v rest ≡ grown m v rest
        outside [] kept = kept
        outside (d ∷ ds) kept = ap (λ o. some (listed o ++ d ∷ ds)) kept

abbrev chain_of : World → List Provider → ℕ → Option (List ProviderConfig) → Option (List Entry)
chain_of w ps k none = none
chain_of w ps k (some cs) = some (Chain.new w cs ps k).0

get-build :
    (w : World) (ps : List Provider) (g : Dict (List ProviderConfig)) (k : ℕ) (v : String)
    → (k' : ℕ) × (get (build w ps g k) v ≡ chain_of w ps k' (get g v))
unfolding build get
get-build w ps [] k v = (k, refl)
get-build w ps (g ∷ gs) k v = elim (Bool-cases (str_eq g.0 v)) [
  | inl same ↦ (k, rw same refl)
  | inr other ↦ let (k', e) = get-build w ps gs (Chain.new w g.1 ps k).1 v in (k', rw other e)
]

-- What the engine holds for a vertical: nothing where no provider is configured for it, else a
-- chain of exactly its providers in the order of the configuration.
abbrev pub HoldsVertical : Config → Engine → String → Type 0
HoldsVertical c e v =
    ((of_vertical v c.providers ≡ []) × (get e.chains v ≡ none))
    ⊎ ((entries : List Entry) × (get e.chains v ≡ some entries)
        × (entry_names entries ≡ config_names (of_vertical v c.providers)))

held-HoldsVertical :
    (w : World) (ps : List Provider) (k : ℕ) (c : Config) (e : Engine) (v : String)
    (ds : List ProviderConfig)
    → of_vertical v c.providers ≡ ds
    → get e.chains v ≡ chain_of w ps k (grown [] v ds)
    → AreApart (provider_names ps)
    → All (λ (d : ProviderConfig). Memᴰ d.name (provider_names ps)) ds
    → HoldsVertical c e v
unfolding get
held-HoldsVertical w ps k c e v [] same held apart found = inl (same, held)
held-HoldsVertical w ps k c e v (d ∷ ds) same held apart found = inr (
  (Chain.new w (d ∷ ds) ps k).0,
  held,
  new-names w (d ∷ ds) ps k apart found ∙ ap config_names (sym same),
)

module _ (w : World) (place : Place) (registry : Registry) (c : Config) (k : ℕ) where
  built-HoldsVertical :
      (ps : List Provider) (e : Engine) (v : String)
      → AreDistinct c.providers
      → provider_names ps ≡ config_names c.providers
      → e.chains ≡ build w ps (group [] c.providers) (suc k)
      → HoldsVertical c e v
  built-HoldsVertical ps e v distinct names chains =
      let (k', built) = get-build w ps (group [] c.providers) (suc k) v in
      let apart = subst AreApart (sym names) (distinct-AreApart c.providers distinct) in
      let found =
        subst (λ ns. All (λ (d : ProviderConfig). Memᴰ d.name ns) (of_vertical v c.providers))
          (sym names) (of_vertical-listed v c.providers c.providers (name-listed c.providers)) in
      held-HoldsVertical w ps k' c e v (of_vertical v c.providers) refl
        (ap (λ m. get m v) chains ∙ built ∙ ap (chain_of w ps k') (get-group [] c.providers v))
        apart found

  assemble-HoldsVertical :
      (e : Engine) (v : String)
      → AreNamed registry
      → AreDistinct c.providers
      → assemble w place registry c k ≡ made e
      → HoldsVertical c e v
  unfolding assemble
  assemble-HoldsVertical e v named distinct h =
      elim (Made-cases (instantiate registry c.providers)) [
        | inr (x, e') ↦ absurd (ground arith)
        | inl (ps, e') ↦
            let f =
              Fetch.new c.fetch.rps (pos_part (seconds c.fetch.cache_ttl_seconds))
                c.fetch.respect_robots (w.clock k) in
            elim (Made-cases (with_disk place f c.fetch.disk_cache)) [
              | inr (x, e'') ↦ absurd (ground arith)
              | inl (f', e'') ↦
                  let same : record {
                    chains = build w ps (group [] c.providers) (suc k);
                    fetcher = f';
                  }
                      ≡ e =
                    ground arith in
                  built-HoldsVertical ps e v distinct
                    (instantiate-names registry c.providers ps named e')
                    (ap (λ (x : Engine). x.chains) (sym same))
            ]
      ]

  -- An engine that New makes has, for each vertical, a chain of exactly the providers configured
  -- for it, each once and in the order of the configuration, and no chain where none is
  -- configured, if each factory names its provider as configured.
  pub new-HoldsVertical :
      (e : Engine) (v : String)
      → AreNamed registry
      → new w place registry c k ≡ made e
      → HoldsVertical c e v
  unfolding new
  new-HoldsVertical e v named h = elim (Option-cases (validate registry c)) [
    | inr (x, bad) ↦ absurd (ground arith)
    | inl fine ↦
        assemble-HoldsVertical e v named ((validate_iff registry c).0 fine).distinct (ground arith)
  ]
