-- ===== src/Provider/Builtin/Fitting.antt =====
-- What the answers of all providers of the program keep to.
use saka.Base.{
  ℕ, suc, ◌-◌, ◌*◌, ◌≤◌, ◌≡◌, refl, ◌∙◌, ap, subst, true, false, String, ◌<>◌, Option, some, List,
  [], ◌∷◌, ℤ, pos, negsuc, pos_part, le_zero, length, Bool-cases, Option-cases, inl, inr, arith,
  get, get-All, is_empty,
}
use saka.Types.{second, Query, Result, Provider, ProviderConfig, Outcome-cases, ok}
use saka.Types.Registry.{ProviderFactory}
use saka.Provider.{Web, ask, reaches, is_positive, or_else}
use saka.Provider.Searxng.{ImageItem, image_results, images_form, search_images, search_web}
use saka.Provider.Duckduckgo.{search_ddg}
use saka.Provider.Startpage.{search_startpage}
use saka.Provider.Gdelt.{Article, doc_endpoint, article_results, gdelt_form, search_news}
use saka.Provider.Ranked.{IsRanked, search_ddg-Ranked, search_startpage-Ranked, search_web-Ranked}
use saka.Provider.Builtin.{
  Outside, inits, duckduckgo_factory, gdelt_factory, images_factory, searxng_factory,
  startpage_factory,
}

-- Results numbered from 1 on, and at most as many as the query asks for.
abbrev pub IsFitting : Query → List Result → Type 0
IsFitting q rs = IsRanked 0 rs × (length rs ≤ pos_part q.max_results)

below-reach :
    (max : ℤ) (i n : ℕ)
    → reaches i max ≡ false
    → n ≤ pos_part max - suc i
    → suc n ≤ pos_part max - i
below-reach (pos m) i n room bound = ground arith
below-reach (negsuc m) i n room bound = absurd (ground arith)

image_results-Ranked :
    (atoi : String → Option ℤ) (max : ℤ) (i : ℕ) (items : List ImageItem)
    → IsRanked i (image_results atoi max i items)
      × (length (image_results atoi max i items) ≤ pos_part max - i)
unfolding image_results
image_results-Ranked atoi max i [] = (tt, omega arith)
image_results-Ranked atoi max i (r ∷ rs) = elim (Bool-cases (reaches i max)) [
  | inl over ↦ rw over (tt, omega arith)
  | inr room ↦
      let (ranks, bound) = image_results-Ranked atoi max (suc i) rs in
      rw room ((refl, ranks), below-reach max i _ room bound)
]

is_positive-le_zero : (max : ℤ) → le_zero max ≡ false → is_positive max ≡ true
is_positive-le_zero (pos m) h = ground arith
is_positive-le_zero (negsuc m) h = ground arith

article_results-Ranked :
    (max : ℤ) (i : ℕ) (articles : List Article)
    → le_zero max ≡ false
    → IsRanked i (article_results max i articles)
      × (length (article_results max i articles) ≤ pos_part max - i)
unfolding article_results
article_results-Ranked max i [] h = (tt, omega arith)
article_results-Ranked max i (a ∷ rest) h = elim (Bool-cases (reaches i max)) [
  | inl over ↦ rw (is_positive-le_zero max h, over) (tt, omega arith)
  | inr room ↦
      let (ranks, bound) = article_results-Ranked max (suc i) rest h in
      rw (is_positive-le_zero max h, room) ((refl, ranks), below-reach max i _ room bound)
]

search_images-IsFitting :
    (web : Web) (base_url : String) (parse : String → Option (List ImageItem))
    (atoi : String → Option ℤ) (q : Query) (rs : List Result)
    → search_images web base_url parse atoi q ≡ ok rs
    → IsFitting q rs
unfolding search_images
search_images-IsFitting web base_url parse atoi q rs h =
    elim (Outcome-cases (
      ask web "searxng-images" (30 * second)
        (base_url <> ("/search?" <> web.encode (images_form q))) "")) [
          | inr (x, e) ↦ absurd (ground arith)
          | inl (body, e) ↦ elim (Option-cases (parse body)) [
            | inl e' ↦ absurd (ground arith)
            | inr (items, e') ↦
                let same : image_results atoi q.max_results 0 items ≡ rs = ground arith in
                let (ranks, few) = image_results-Ranked atoi q.max_results 0 items in
                subst (IsFitting q) same (ranks, omega (arith, few))
          ]
        ]

search_news-IsFitting :
    (web : Web) (endpoint : String) (parse : String → Option (List Article)) (q : Query)
    (rs : List Result)
    → le_zero q.max_results ≡ false
    → search_news web endpoint parse q ≡ ok rs
    → IsFitting q rs
unfolding search_news
search_news-IsFitting web endpoint parse q rs some_wanted h =
    elim (Outcome-cases
      (ask web "gdelt" (30 * second) (endpoint <> ("?" <> web.encode (gdelt_form q))) "")) [
        | inr (x, e) ↦ absurd (ground arith)
        | inl (body, e) ↦ elim (Option-cases (parse body)) [
          | inl e' ↦ absurd (ground arith)
          | inr (articles, e') ↦
              let same : article_results q.max_results 0 articles ≡ rs = ground arith in
              let (ranks, few) = article_results-Ranked q.max_results 0 articles some_wanted in
              subst (IsFitting q) same (ranks, omega (arith, few))
        ]
      ]

-- A provider whose answers fit every query for some results.
abbrev pub Fits : Provider → Type 0
Fits p =
    (k : ℕ) (q : Query) (rs : List Result)
    → le_zero q.max_results ≡ false
    → p.search k q ≡ ok rs
    → IsFitting q rs

module _ (o : Outside) where
  abbrev MakesFit : String × ProviderFactory → Type 0
  MakesFit entry = (c : ProviderConfig) (p : Provider) → entry.1 c ≡ ok p → Fits p

  duckduckgo-Fits : MakesFit ("duckduckgo", duckduckgo_factory o)
  unfolding duckduckgo_factory
  duckduckgo-Fits c p h k q rs some_wanted found =
      let same : record {
        name = "duckduckgo";
        search = λ k q. search_ddg (o.web k) o.urls o.document q;
      }
          ≡ p =
        ground arith in
      search_ddg-Ranked (o.web k) o.urls o.document q rs
        (ap (λ (p : Provider). p.search k q) same ∙ found)

  gdelt-Fits : MakesFit ("gdelt", gdelt_factory o)
  unfolding gdelt_factory
  gdelt-Fits c p h k q rs some_wanted found =
      let same : record {
        name = "gdelt";
        search = λ k q. search_news (o.web k) (or_else doc_endpoint c.url) o.articles q;
      }
          ≡ p =
        ground arith in
      search_news-IsFitting (o.web k) (or_else doc_endpoint c.url) o.articles q rs some_wanted
        (ap (λ (p : Provider). p.search k q) same ∙ found)

  startpage-Fits : MakesFit ("startpage", startpage_factory o)
  unfolding startpage_factory
  startpage-Fits c p h k q rs some_wanted found =
      let same : record {
        name = "startpage";
        search = λ k q. search_startpage (o.web k) o.document q;
      }
          ≡ p =
        ground arith in
      let (_, ranks, few) =
        search_startpage-Ranked (o.web k) o.document q rs
          (ap (λ (p : Provider). p.search k q) same ∙ found) in
      (ranks, few)

  images-Fits : MakesFit ("searxng-images", images_factory o)
  unfolding images_factory
  images-Fits c p h k q rs some_wanted found = elim (Bool-cases (is_empty c.url)) [
    | inl e ↦ absurd (ground arith)
    | inr e ↦
        let same : record {
          name = "searxng-images";
          search = λ k q. search_images (o.web k) c.url o.image_items o.atoi q;
        }
            ≡ p =
          ground arith in
        search_images-IsFitting (o.web k) c.url o.image_items o.atoi q rs
          (ap (λ (p : Provider). p.search k q) same ∙ found)
  ]

  searxng-Fits : MakesFit ("searxng", searxng_factory o)
  unfolding searxng_factory
  searxng-Fits c p h k q rs some_wanted found = elim (Bool-cases (is_empty c.url)) [
    | inl e ↦ absurd (ground arith)
    | inr e ↦
        let same : record {
          name = "searxng";
          search = λ k q. search_web (o.web k) c.url o.web_items q;
        }
            ≡ p =
          ground arith in
        search_web-Ranked (o.web k) c.url o.web_items q rs
          (ap (λ (p : Provider). p.search k q) same ∙ found)
  ]

  -- Every provider that a factory of the program makes fits.
  pub factory-Fits :
      (c : ProviderConfig) (f : ProviderFactory) (p : Provider)
      → get (inits o) c.name ≡ some f
      → f c ≡ ok p
      → Fits p
  factory-Fits c f p found made =
      get-All MakesFit (inits o) c.name f
        (duckduckgo-Fits, (gdelt-Fits, (images-Fits, (searxng-Fits, (startpage-Fits, tt))))) found c
        p made
