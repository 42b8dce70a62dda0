-- ===== src/Provider/Builtin.antt =====
-- provider/: the factories that the packages of the providers register when the program starts, in
-- the order of their init functions, that of the import paths and file names.
pub mod Laws
pub mod Fitting
use saka.Base.{
  ℕ, ◌⊎◌, inl, inr, String, Option, none, some, List, [], ◌∷◌, ℤ, is_empty, Dict, get, put,
  if◌then◌else◌,
}
use saka.Types.{Query, Result, Provider, ProviderConfig, no_url, Outcome, ok, err}
use saka.Types.Registry.{ProviderFactory, Registry, Registered, register, added}
use saka.Html.{Node}
use saka.Provider.{Web, or_else}
use saka.Provider.Searxng.{WebItem, ImageItem, search_web, search_images}
use saka.Provider.Gdelt.{Article, doc_endpoint, search_news}
use saka.Provider.Duckduckgo.{Urls, search_ddg}
use saka.Provider.Startpage.{search_startpage}

-- What the providers take from outside: the world at call `k`, the JSON of the answers, the
-- parser of documents, the functions of net/url and strconv.Atoi.
pub record Outside : Type 0 where
  pub web : ℕ → Web
  pub web_items : String → Option (List WebItem)
  pub image_items : String → Option (List ImageItem)
  pub articles : String → Option (List Article)
  pub document : String → Option Node
  pub urls : Urls
  pub atoi : String → Option ℤ

module _ (o : Outside) where
  -- newFromConfig of duckduckgo
  unfoldable pub duckduckgo_factory : ProviderFactory
  unfolding search_ddg
  duckduckgo_factory cfg =
      ok (record { name = "duckduckgo"; search = λ k q. search_ddg (o.web k) o.urls o.document q })

  -- newFromConfig of gdelt: New, or newWithEndpoint for another address.
  unfoldable pub gdelt_factory : ProviderFactory
  unfolding search_news
  gdelt_factory cfg = ok (record {
    name = "gdelt";
    search = λ k q. search_news (o.web k) (or_else doc_endpoint cfg.url) o.articles q;
  })

  -- newImagesFromConfig
  unfoldable pub images_factory : ProviderFactory
  unfolding search_images
  images_factory cfg =
      if is_empty cfg.url
      then err (no_url "searxng-images")
      else ok (record {
        name = "searxng-images";
        search = λ k q. search_images (o.web k) cfg.url o.image_items o.atoi q;
      })

  -- newFromConfig of searxng
  unfoldable pub searxng_factory : ProviderFactory
  unfolding search_web
  searxng_factory cfg =
      if is_empty cfg.url
      then err (no_url "searxng")
      else ok
          (record { name = "searxng"; search = λ k q. search_web (o.web k) cfg.url o.web_items q })

  -- newFromConfig of startpage
  unfoldable pub startpage_factory : ProviderFactory
  unfolding search_startpage
  startpage_factory cfg =
      ok (record { name = "startpage"; search = λ k q. search_startpage (o.web k) o.document q })

  -- The init functions of the program.
  abbrev pub inits : Dict ProviderFactory
  inits =
      ("duckduckgo", duckduckgo_factory)
      ∷ ("gdelt", gdelt_factory)
      ∷ ("searxng-images", images_factory)
      ∷ ("searxng", searxng_factory)
      ∷ ("startpage", startpage_factory)
      ∷ []

-- An init function panics where Register gives an error: `none`.
unfoldable pub run_inits : Dict ProviderFactory → Registry → Option Registry
unfolding register
run_inits [] r = some r
run_inits (init ∷ rest) r = elim (register init.0 (some init.1) r) [
  | added r' ↦ run_inits rest r'
  | _ ↦ none
]
