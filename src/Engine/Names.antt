-- ===== src/Engine/Names.antt =====
-- The names of providers along New of saka.go: what the factories and each chain make of them.
use mathlib.Core.List.{Memᴰ, map-append}
use saka.Base.{
  ℕ, suc, ◌≡◌, ◌≢◌, refl, ap, sym, ◌∙◌, ◌⊎◌, inl, inr, String, some, List, [], ◌∷◌, ◌++◌, map, get,
  str_eq, eq_iff, All, All-mem, Option-cases, Bool-cases, if◌then◌else◌, arith,
}
use saka.World.{World}
use saka.Types.{Provider, ProviderConfig, Outcome-cases, Outcome, ok}
use saka.Types.Registry.{Registry}
use saka.Config.Valid.{AreDistinct}
use saka.Chain
use saka.Chain.{Entry, entries_for, entry_for}
use saka.Engine.{Made, made, refused, instantiate}

abbrev pub config_names : List ProviderConfig → List String
config_names = map (λ (c : ProviderConfig). c.name)

abbrev pub provider_names : List Provider → List String
provider_names = map (λ (p : Provider). p.name)

abbrev pub entry_names : List Entry → List String
entry_names = map (λ (e : Entry). e.provider.name)

-- The names that are equal to `name`.
abbrev pub same_names : String → List String → List String
same_names name [] = []
same_names name (n ∷ ns) = let rest = same_names name ns in if str_eq n name then n ∷ rest else rest

-- The providers of a vertical, in the order of the configuration.
abbrev pub of_vertical : String → List ProviderConfig → List ProviderConfig
of_vertical v [] = []
of_vertical v (c ∷ cs) =
    let rest = of_vertical v cs in if str_eq c.vertical v then c ∷ rest else rest

-- A factory gives its provider the configured name.
abbrev pub AreNamed : Registry → Type 0
AreNamed registry =
    (c : ProviderConfig) (f : ProviderConfig → Outcome Provider) (p : Provider)
    → get registry c.name ≡ some f
    → f c ≡ ok p
    → p.name ≡ c.name

pub Made-cases {ℓ} :
    {A : Type ℓ} (m : Made A) → ((a : A) × (m ≡ made a)) ⊎ ((x : _) × (m ≡ refused x))
Made-cases (made a) = inl (a, refl)
Made-cases (refused x) = inr (x, refl)

pub instantiate-names :
    (registry : Registry) (cs : List ProviderConfig) (ps : List Provider)
    → AreNamed registry
    → instantiate registry cs ≡ made ps
    → provider_names ps ≡ config_names cs
unfolding instantiate
instantiate-names registry [] ps named h =
    let e : [] ≡ ps = ground arith in ap provider_names (sym e)
instantiate-names registry (c ∷ cs) ps named h = elim (Option-cases (get registry c.name)) [
  | inl e ↦ absurd (ground arith)
  | inr (f, e) ↦ elim (Outcome-cases (f c)) [
    | inr (x, e') ↦ absurd (ground arith)
    | inl (p, e') ↦ elim (Made-cases (instantiate registry cs)) [
      | inr (x, e'') ↦ absurd (ground arith)
      | inl (qs, e'') ↦
          let same : p ∷ qs ≡ ps = ground arith in
          ap provider_names (sym same)
          ∙ ap (λ ns. p.name ∷ ns) (instantiate-names registry cs qs named e'')
          ∙ ap (λ n. n ∷ config_names cs) (named c f p e e')
    ]
  ]
]

pub entries_for-names :
    (w : World) (c : ProviderConfig) (ps : List Provider) (k : ℕ)
    → entry_names (entries_for w c ps k).0 ≡ same_names c.name (provider_names ps)
unfolding entries_for entry_for
entries_for-names w c [] k = refl
entries_for-names w c (p ∷ ps) k = elim (Bool-cases (str_eq p.name c.name)) [
  | inl same ↦ rw (same, entries_for) (ap (λ ns. p.name ∷ ns) (entries_for-names w c ps (suc k)))
  | inr other ↦ rw (other, entries_for) (entries_for-names w c ps k)
]

-- Distinct names.
abbrev pub AreApart : List String → Type 0
AreApart [] = Unit
AreApart (n ∷ ns) = All (λ n'. n' ≢ n) ns × AreApart ns

pub same_names-none :
    (name : String) (ns : List String) → All (λ n. n ≢ name) ns → same_names name ns ≡ []
same_names-none name [] h = refl
same_names-none name (n ∷ ns) h = ground (arith, eq_iff n name, same_names-none name ns h.1, h.0)

pub same_names-one :
    (name : String) (ns : List String) → AreApart ns → Memᴰ name ns → same_names name ns ≡ name ∷ []
same_names-one name [] h m = elim m [ ]
same_names-one name (n ∷ ns) h (Memᴰ.head e) =
    let apart : All (λ n'. n' ≢ name) ns = rw e h.0 in
    ground (arith, eq_iff n name, same_names-none name ns apart, e)
same_names-one name (n ∷ ns) h (Memᴰ.tail m) = elim (Bool-cases (str_eq n name)) [
  | inl same ↦ absurd (All-mem (λ n'. n' ≢ n) ns name h.0 m (sym ((eq_iff n name).0 same)))
  | inr other ↦ rw other (same_names-one name ns h.1 m)
]

pub new-names :
    (w : World) (cs : List ProviderConfig) (ps : List Provider) (k : ℕ)
    → AreApart (provider_names ps)
    → All (λ (c : ProviderConfig). Memᴰ c.name (provider_names ps)) cs
    → entry_names (Chain.new w cs ps k).0 ≡ config_names cs
unfolding Chain.new
new-names w [] ps k apart h = refl
new-names w (c ∷ cs) ps k apart h =
    let (here, k') = entries_for w c ps k in
    map-append (λ (e : Entry). e.provider.name) here (Chain.new w cs ps k').0
    ∙ ap (λ ns. ns ++ entry_names (Chain.new w cs ps k').0)
        (entries_for-names w c ps k ∙ same_names-one c.name (provider_names ps) apart h.0)
    ∙ ap (λ ns. c.name ∷ ns) (new-names w cs ps k' apart h.1)

pub distinct-AreApart : (cs : List ProviderConfig) → AreDistinct cs → AreApart (config_names cs)
distinct-AreApart [] h = tt
distinct-AreApart (c ∷ cs) h = (others cs h.0, distinct-AreApart cs h.1)
  where
    others :
        (ds : List ProviderConfig)
        → All (λ (d : ProviderConfig). d.name ≢ c.name) ds
        → All (λ n. n ≢ c.name) (config_names ds)
    others [] h = tt
    others (d ∷ ds) h = (h.0, others ds h.1)

pub of_vertical-listed :
    (v : String) (cs ds : List ProviderConfig)
    → ((d : ProviderConfig) → Memᴰ d cs → Memᴰ d.name (config_names ds))
    → All (λ (d : ProviderConfig). Memᴰ d.name (config_names ds)) (of_vertical v cs)
of_vertical-listed v [] ds h = tt
of_vertical-listed v (c ∷ cs) ds h = elim (Bool-cases (str_eq c.vertical v)) [
  | inl same ↦ rw same (h c (Memᴰ.head refl), of_vertical-listed v cs ds (λ d m. h d (Memᴰ.tail m)))
  | inr other ↦ rw other (of_vertical-listed v cs ds (λ d m. h d (Memᴰ.tail m)))
]

pub name-listed :
    (cs : List ProviderConfig) (d : ProviderConfig) → Memᴰ d cs → Memᴰ d.name (config_names cs)
name-listed [] d m = elim m [ ]
name-listed (c ∷ cs) d (Memᴰ.head e) = Memᴰ.head (ap (λ (c : ProviderConfig). c.name) e)
name-listed (c ∷ cs) d (Memᴰ.tail m) = Memᴰ.tail (name-listed cs d m)
