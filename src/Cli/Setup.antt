-- ===== src/Cli/Setup.antt =====
-- cli/saka/main.go: loadEngine, with what it needs of the rest of the program.
use saka.Base.{
  ℕ, ◌≡◌, refl, sym, ◌∙◌, ap, subst, ◌⊎◌, inl, inr, false, String, Option, none, some, List, [],
  ◌∷◌, is_empty, get, get-All, pos_part, All, Option-cases, Bool-cases, arith, if◌then◌else◌,
}
use saka.World.{World}
use saka.Types.{ProviderConfig, Error, no_url, err, Outcome-cases}
use saka.Types.Registry.{ProviderFactory}
use saka.Provider.Builtin.{Outside, inits}
use saka.Provider.Builtin.Laws.{NeedsUrl, inits-NeedsUrl, run_inits-inits}
use saka.Config.{Config, DiskCacheConfig, default_config, validate}
use saka.Config.Valid.{IsValid, IsSound, validate_iff}
use saka.Config.Load.{Document, Loaded, loaded, failed, load_config, load_config_iff}
use saka.Fetch
use saka.Fetch.{Fetcher}
use saka.Engine.{
  seconds, Engine, NewError, invalid, unregistered, failed_factory, no_directory, made, refused,
  Place, instantiate, expand, attach, with_disk, assemble, new,
}
use saka.Engine.Names.{Made-cases}
use saka.Cli.Exit.{Fatal, load_failed, new_failed}

-- The surroundings of the process; the registry is that of the init functions.
pub record Setting : Type 0 where
  pub world : World
  pub place : Place
  pub outside : Outside
  pub read : String → Option String
  pub json : String → Option Document

module _ (s : Setting) where
  unfoldable pub make_engine : Config → ℕ → Engine ⊎ Fatal
  unfolding new
  make_engine c k = elim (new s.world s.place (inits s.outside) c k) [
    | refused x ↦ inr (new_failed x)
    | made e ↦ inl e
  ]

  -- loadEngine
  unfoldable pub load_engine : String → ℕ → Engine ⊎ Fatal
  unfolding load_config make_engine
  load_engine path k =
      if is_empty path
      then make_engine default_config k
      else elim (load_config (inits s.outside) s.read s.json path) [
        | failed x ↦ inr (load_failed x)
        | loaded c ↦ make_engine c k
      ]

-- What New may still fail with once a configuration is valid: a directory that cannot be made, or
-- a provider searxng-images without a URL.
abbrev pub IsOutside : NewError → Type 0
IsOutside (failed_factory name x) = (name ≡ "searxng-images") × (x ≡ no_url name)
IsOutside (no_directory dir) = Unit
IsOutside (invalid x) = ⊥
IsOutside (unregistered name) = ⊥

module _ (o : Outside) where
  factory-IsOutside :
      (c : ProviderConfig) (f : ProviderFactory) (x : Error)
      → IsSound (inits o) c
      → get (inits o) c.name ≡ some f
      → f c ≡ err x
      → IsOutside (failed_factory c.name x)
  factory-IsOutside c f x sound e h =
      let (same, no_address, which) =
        get-All (NeedsUrl o) (inits o) c.name f (inits-NeedsUrl o) e c x h in
      elim which [
        | inl is_searxng ↦ absurd ((sound.addressed is_searxng).0 no_address)
        | inr is_images ↦ (is_images, same)
      ]

  instantiate-IsOutside :
      (cs : List ProviderConfig) (x : NewError)
      → All (IsSound (inits o)) cs
      → instantiate (inits o) cs ≡ refused x
      → IsOutside x
  unfolding instantiate
  instantiate-IsOutside [] x sound h = absurd (ground arith)
  instantiate-IsOutside (c ∷ cs) x (sound, others) h = elim (Option-cases (get (inits o) c.name)) [
    | inl e ↦ absurd (sound.known e)
    | inr (factory, e) ↦ elim (Outcome-cases (factory c)) [
      | inr (y, e') ↦
          let same : failed_factory c.name y ≡ x =
            let left : instantiate (inits o) (c ∷ cs) ≡ refused (failed_factory c.name y) =
              rw (e, instantiate, e') refl in
            ground (arith, left) in
          subst IsOutside same (factory-IsOutside c factory y sound e e')
      | inl (p, e') ↦ elim (Made-cases (instantiate (inits o) cs)) [
        | inl (ps, e'') ↦
            let left : instantiate (inits o) (c ∷ cs) ≡ made (p ∷ ps) =
              rw (e, instantiate, e', e'') refl in
            absurd (ground (arith, left))
        | inr (y, e'') ↦
            let same : y ≡ x =
              let left : instantiate (inits o) (c ∷ cs) ≡ refused y =
                rw (e, instantiate, e', e'') refl in
              ground (arith, left) in
            instantiate-IsOutside cs x others (e'' ∙ ap refused same)
      ]
    ]
  ]

with_disk-IsOutside :
    (place : Place) (f : Fetcher) (c : Config) (x : NewError)
    → with_disk place f c.fetch.disk_cache ≡ refused x
    → IsOutside x
unfolding with_disk attach
with_disk-IsOutside place f c x h = elim (Option-cases c.fetch.disk_cache) [
  | inl e ↦ absurd (ground arith)
  | inr (disk, e) ↦ by_dir disk (sym (rw (e, with_disk) refl) ∙ h)
]
  where
    by_dir : (disk : DiskCacheConfig) → attach place f disk ≡ refused x → IsOutside x
    by_dir disk k = elim (Bool-cases (is_empty disk.dir)) [
      | inl e ↦ absurd (ground arith)
      | inr e ↦ elim (Bool-cases (place.can_make (expand place.home disk.dir))) [
        | inl e' ↦ absurd (ground arith)
        | inr e' ↦
            let same : no_directory (expand place.home disk.dir) ≡ x = ground arith in
            subst IsOutside same tt
      ]
    ]

module _ (s : Setting) where
  new-IsOutside :
      (c : Config) (k : ℕ) (x : NewError)
      → IsValid (inits s.outside) c
      → new s.world s.place (inits s.outside) c k ≡ refused x
      → IsOutside x
  unfolding new assemble
  new-IsOutside c k x valid h = elim (Made-cases (instantiate (inits s.outside) c.providers)) [
    | inr (y, e) ↦
        let same : y ≡ x = ground (arith, (validate_iff (inits s.outside) c).1 valid) in
        instantiate-IsOutside s.outside c.providers x valid.sound (e ∙ ap refused same)
    | inl (ps, e) ↦ elim (Made-cases (with_disk s.place (fetcher_of c k) c.fetch.disk_cache)) [
      | inl (f, e') ↦ absurd (ground (arith, (validate_iff (inits s.outside) c).1 valid))
      | inr (y, e') ↦
          let same : y ≡ x = ground (arith, (validate_iff (inits s.outside) c).1 valid) in
          with_disk-IsOutside s.place (fetcher_of c k) c x (e' ∙ ap refused same)
    ]
  ]
    where
      fetcher_of : Config → ℕ → Fetcher
      fetcher_of c k =
          Fetch.new c.fetch.rps (pos_part (seconds c.fetch.cache_ttl_seconds))
            c.fetch.respect_robots (s.world.clock k)

  make_engine-IsOutside :
      (c : Config) (k : ℕ) (x : NewError)
      → IsValid (inits s.outside) c
      → make_engine s c k ≡ inr (new_failed x)
      → IsOutside x
  unfolding make_engine
  make_engine-IsOutside c k x valid h =
      elim (Made-cases (new s.world s.place (inits s.outside) c k)) [
        | inl (e, e') ↦ absurd (ground arith)
        | inr (y, e') ↦
            let same : y ≡ x = ground arith in new-IsOutside c k x valid (e' ∙ ap refused same)
      ]

  -- An engine that loadEngine fails to make for its configuration, the default or that of a file,
  -- has failed at the directory of the disk cache or at an entry searxng-images without a URL:
  -- all else that New refuses in a configuration, LoadConfig has refused before.
  pub load_engine-IsOutside :
      (path : String) (k : ℕ) (x : NewError)
      → load_engine s path k ≡ inr (new_failed x)
      → IsOutside x
  unfolding load_engine
  load_engine-IsOutside path k x h = elim (Bool-cases (is_empty path)) [
    | inl e ↦
        make_engine-IsOutside default_config k x
          ((validate_iff (inits s.outside) default_config).0 default_valid)
          (sym (rw (e, load_engine) refl) ∙ h)
    | inr e ↦ by_load (load_config (inits s.outside) s.read s.json path) refl e
  ]
    where
      default_valid : validate (inits s.outside) default_config ≡ none
      default_valid = let (_, _, _, valid) = run_inits-inits s.outside in valid

      by_load :
          (r : Loaded)
          → load_config (inits s.outside) s.read s.json path ≡ r
          → is_empty path ≡ false
          → IsOutside x
      by_load (failed y) e' e = absurd (ground arith)
      by_load (loaded c) e' e =
          let (_, _, _, _, _, valid) =
            (load_config_iff (inits s.outside) s.read s.json path c).0 e' in
          make_engine-IsOutside c k x valid (sym (rw (e, load_engine, e') refl) ∙ h)
