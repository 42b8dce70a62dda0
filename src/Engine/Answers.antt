-- ===== src/Engine/Answers.antt =====
-- What the answers of an engine with the providers of provider/ keep to, from New of saka.go on
-- and over all its searches.
use saka.Base.{
  ℕ, suc, ◌≡◌, refl, sym, subst, inl, inr, false, String, List, [], ◌∷◌, pos_part, le_zero, Dict,
  get, get-All, All-put, All, All-append, str_eq, Bool-cases, Option-cases, arith,
}
use saka.World.{World}
use saka.Types.{Query, with_defaults, Results, Provider, ProviderConfig, Outcome-cases}
use saka.Config.{Config, validate}
use saka.Chain
use saka.Chain.{Entry, entry_for, entries_for}
use saka.Chain.Shape.{AreKept, search_from-kept}
use saka.Chain.Fallback.{Fallback, answers, passes, search-Fallback}
use saka.Fetch
use saka.Provider.Builtin.{Outside, inits}
use saka.Provider.Builtin.Fitting.{IsFitting, Fits, factory-Fits}
use saka.Engine.{
  seconds, Engine, Place, made, instantiate, build, group, with_disk, assemble, new, search,
}
use saka.Engine.Names.{Made-cases}

abbrev AreFitting : List Entry → Type 0
AreFitting = All (λ (e : Entry). Fits e.provider)

-- Every provider of every chain fits.
abbrev pub AllFit : Dict (List Entry) → Type 0
AllFit = All (λ (c : String × List Entry). AreFitting c.1)

AreKept-AreFitting : (es es' : List Entry) → AreKept es es' → AreFitting es → AreFitting es'
AreKept-AreFitting [] [] k h = tt
AreKept-AreFitting [] (e' ∷ es') k h = absurd k
AreKept-AreFitting (e ∷ es) [] k h = absurd k
AreKept-AreFitting (e ∷ es) (e' ∷ es') k h =
    (subst Fits (sym k.0.provider) h.0, AreKept-AreFitting es es' k.1 h.1)

Fallback-IsFitting :
    (w : World) (q : Query) (es : List Entry) (r : Results)
    → le_zero q.max_results ≡ false
    → AreFitting es
    → Fallback w q es r
    → IsFitting q r.results
Fallback-IsFitting w q [] r some_wanted h f = elim f [ ]
Fallback-IsFitting w q (e ∷ es) r some_wanted h (answers i j closed found name text room) =
    h.0 j q r.results some_wanted found
Fallback-IsFitting w q (e ∷ es) r some_wanted h (passes p later) =
    Fallback-IsFitting w q es r some_wanted h.1 later

module _ (o : Outside) where
  instantiate-Fits :
      (cs : List ProviderConfig) (ps : List Provider)
      → instantiate (inits o) cs ≡ made ps
      → All Fits ps
  unfolding instantiate
  instantiate-Fits [] ps h = let same : [] ≡ ps = ground arith in subst (All Fits) same tt
  instantiate-Fits (c ∷ cs) ps h = elim (Option-cases (get (inits o) c.name)) [
    | inl e ↦ absurd (ground arith)
    | inr (f, e) ↦ elim (Outcome-cases (f c)) [
      | inr (x, e') ↦ absurd (ground arith)
      | inl (p, e') ↦ elim (Made-cases (instantiate (inits o) cs)) [
        | inr (x, e'') ↦ absurd (ground arith)
        | inl (qs, e'') ↦
            let left : instantiate (inits o) (c ∷ cs) ≡ made (p ∷ qs) =
              rw (e, instantiate, e', e'') refl in
            let same : p ∷ qs ≡ ps = ground (arith, left) in
            subst (All Fits) same (factory-Fits o c f p e e', instantiate-Fits cs qs e'')
      ]
    ]
  ]

entries_for-AreFitting :
    (w : World) (c : ProviderConfig) (ps : List Provider) (k : ℕ)
    → All Fits ps
    → AreFitting (entries_for w c ps k).0
unfolding entries_for entry_for
entries_for-AreFitting w c [] k h = tt
entries_for-AreFitting w c (p ∷ ps) k h = elim (Bool-cases (str_eq p.name c.name)) [
  | inl same ↦ rw (same, entries_for) (h.0, entries_for-AreFitting w c ps (suc k) h.1)
  | inr other ↦ rw (other, entries_for) (entries_for-AreFitting w c ps k h.1)
]

new-AreFitting :
    (w : World) (cs : List ProviderConfig) (ps : List Provider) (k : ℕ)
    → All Fits ps
    → AreFitting (Chain.new w cs ps k).0
unfolding Chain.new
new-AreFitting w [] ps k h = tt
new-AreFitting w (c ∷ cs) ps k h =
    let (here, k') = entries_for w c ps k in
    All-append (λ (e : Entry). Fits e.provider) here (Chain.new w cs ps k').0
      (entries_for-AreFitting w c ps k h) (new-AreFitting w cs ps k' h)

build-AllFit :
    (w : World) (ps : List Provider) (gs : Dict (List ProviderConfig)) (k : ℕ)
    → All Fits ps
    → AllFit (build w ps gs k)
unfolding build
build-AllFit w ps [] k h = tt
build-AllFit w ps (g ∷ gs) k h =
    (new-AreFitting w g.1 ps k h, build-AllFit w ps gs (Chain.new w g.1 ps k).1 h)

-- What a search that ended has answered.
abbrev pub AnswerFits : Query → Chain.Searched → Type 0
AnswerFits q (Chain.success res) = IsFitting q res.results
AnswerFits q (Chain.failure x) = Unit
AnswerFits q Chain.hangs = Unit

with_defaults-positive : (q : Query) → le_zero (with_defaults q).max_results ≡ false
unfolding with_defaults
with_defaults-positive q = ground arith

module _ (w : World) (place : Place) (o : Outside) where
  new-AllFit :
      (c : Config) (k : ℕ) (e : Engine) → new w place (inits o) c k ≡ made e → AllFit e.chains
  unfolding new assemble
  new-AllFit c k e h = elim (Option-cases (validate (inits o) c)) [
    | inr (x, bad) ↦ absurd (ground arith)
    | inl fine ↦ elim (Made-cases (instantiate (inits o) c.providers)) [
      | inr (x, e') ↦ absurd (ground arith)
      | inl (ps, e') ↦
          let f =
            Fetch.new c.fetch.rps (pos_part (seconds c.fetch.cache_ttl_seconds))
              c.fetch.respect_robots (w.clock k) in
          elim (Made-cases (with_disk place f c.fetch.disk_cache)) [
            | inr (x, e'') ↦ absurd (ground arith)
            | inl (f', e'') ↦
                let same : record {
                  chains = build w ps (group [] c.providers) (suc k);
                  fetcher = f';
                }
                    ≡ e =
                  ground arith in
                subst (λ (e : Engine). AllFit e.chains) same
                  (build-AllFit w ps (group [] c.providers) (suc k)
                    (instantiate-Fits o c.providers ps e'))
          ]
    ]
  ]

module _ (w : World) (fuel : ℕ) where
  search-Fits :
      (e : Engine) (q : Query) (k : ℕ)
      → AllFit e.chains
      → AllFit (search w fuel e q k).engine.chains
        × AnswerFits (with_defaults q) (search w fuel e q k).outcome
  unfolding search
  search-Fits e q k h = elim (Option-cases (get e.chains (with_defaults q).vertical)) [
    | inl none_there ↦ rw (none_there, search) (h, tt)
    | inr (es, found) ↦
        let q' = with_defaults q in
        let r = Chain.search w fuel q' es k in
        let fits : AreFitting es = get-All _ e.chains q'.vertical es h found in
        let kept = AreKept-AreFitting es r.entries (kept_by es q' k) fits in
        rw (found, search)
          (
            All-put _ e.chains q'.vertical r.entries h kept,
            by_outcome es q' k r.outcome refl fits (with_defaults-positive q),
          )
  ]
    where
      kept_by :
          (es : List Entry) (q' : Query) (k : ℕ) → AreKept es (Chain.search w fuel q' es k).entries
      kept_by es q' k = unfold Chain.search in search_from-kept w fuel q' (w.clock k) es (suc k)

      by_outcome :
          (es : List Entry) (q' : Query) (k : ℕ) (s : Chain.Searched)
          → (Chain.search w fuel q' es k).outcome ≡ s
          → AreFitting es
          → le_zero q'.max_results ≡ false
          → AnswerFits q' s
      by_outcome es q' k (Chain.success res) e fits some_wanted =
          Fallback-IsFitting w q' es res some_wanted fits (search-Fallback w fuel q' es k res e)
      by_outcome es q' k (Chain.failure x) e fits some_wanted = tt
      by_outcome es q' k Chain.hangs e fits some_wanted = tt

  -- The engine after some searches, each from an event on.
  abbrev pub searched : Engine → List (Query × ℕ) → Engine
  searched e [] = e
  searched e (asked ∷ later) = searched (search w fuel e asked.0 asked.1).engine later

  searched-AllFit :
      (e : Engine) (history : List (Query × ℕ))
      → AllFit e.chains
      → AllFit (searched e history).chains
  searched-AllFit e [] h = h
  searched-AllFit e (asked ∷ later) h =
      searched-AllFit (search w fuel e asked.0 asked.1).engine later
        (search-Fits e asked.0 asked.1 h).0

-- An engine that New makes with the providers of the program answers every search, after whatever
-- other searches, with results numbered from 1 on and at most as many as asked for, or 10 where
-- the query asks for none, whatever the backends send.
pub search-AnswerFits :
    (w : World) (fuel : ℕ) (place : Place) (o : Outside) (c : Config) (k : ℕ) (e : Engine)
    (history : List (Query × ℕ)) (q : Query) (j : ℕ)
    → new w place (inits o) c k ≡ made e
    → AnswerFits (with_defaults q) (search w fuel (searched w fuel e history) q j).outcome
search-AnswerFits w fuel place o c k e history q j h =
    (search-Fits w fuel (searched w fuel e history) q j
      (searched-AllFit w fuel e history (new-AllFit w place o c k e h))).1
