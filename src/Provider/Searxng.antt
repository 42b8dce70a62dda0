-- ===== src/Provider/Searxng.antt =====
-- provider/searxng/searxng.go and images.go: a SearXNG instance asked for pages or images.
use saka.Base.{
  ℕ, suc, ◌*◌, String, ◌<>◌, Option, none, some, List, [], ◌∷◌, ℤ, pos, Dict, put, is_empty,
  if◌then◌else◌,
}
use saka.Strings.{cut, trim_space}
use saka.Types.{second, Query, Result, decode, Outcome, ok, err}
use saka.Provider.{Web, ask, reaches, is_positive, or_else}

-- The items of the two JSON shapes that the program reads.
pub record WebItem : Type 0 where
  pub title : String
  pub url : String
  pub content : String

pub record ImageItem : Type 0 where
  pub title : String
  pub img_src : String
  pub thumbnail_src : String
  pub resolution : String

unfoldable pub lang_or_default : String → String
lang_or_default region = or_else "en-US" region

-- The form of a query, from the parameters that all queries have.
unfoldable pub searx_form : Dict String → Query → Dict String
searx_form base q =
    let paged = if is_positive q.max_results then put base "pageno" "1" else base in
    let sited = if is_empty q.site then paged else put paged "q" (q.text <> (" site:" <> q.site)) in
    if q.safe_search then put sited "safesearch" "1" else sited

unfoldable pub web_form : Query → Dict String
unfolding searx_form lang_or_default
web_form q =
    searx_form (("q", q.text) ∷ ("format", "json") ∷ ("language", lang_or_default q.region) ∷ []) q

unfoldable pub images_form : Query → Dict String
unfolding searx_form lang_or_default
images_form q =
    searx_form
      (("q", q.text)
        ∷ ("format", "json")
        ∷ ("language", lang_or_default q.region)
        ∷ ("categories", "images")
        ∷ [])
      q

-- The loop over the items from index `i`.
unfoldable pub web_results : ℤ → ℕ → List WebItem → List Result
web_results max i [] = []
web_results max i (r ∷ rs) =
    let rest = web_results max (suc i) rs in
    if reaches i max
    then []
    else record {
      title = r.title;
      url = r.url;
      snippet = r.content;
      source = "searxng";
      position = suc i;
      thumbnail_url = "";
      width = pos 0;
      height = pos 0;
    }
      ∷ rest

-- parseResolution; `atoi` is strconv.Atoi.
unfoldable pub parse_resolution : (String → Option ℤ) → String → ℤ × ℤ
unfolding cut trim_space
parse_resolution atoi res =
    let (before, after) = cut 120 res in
    elim after [
      | none ↦ (pos 0, pos 0)
      | some after ↦ elim (atoi (trim_space before)) [
        | none ↦ (pos 0, pos 0)
        | some w ↦ elim (atoi (trim_space after)) [ none ↦ (pos 0, pos 0) | some h ↦ (w, h) ]
      ]
    ]

unfoldable pub image_results : (String → Option ℤ) → ℤ → ℕ → List ImageItem → List Result
unfolding parse_resolution
image_results atoi max i [] = []
image_results atoi max i (r ∷ rs) =
    let rest = image_results atoi max (suc i) rs in
    let size = parse_resolution atoi r.resolution in
    if reaches i max
    then []
    else record {
      title = r.title;
      url = r.img_src;
      snippet = "";
      source = "searxng-images";
      position = suc i;
      thumbnail_url = r.thumbnail_src;
      width = size.0;
      height = size.1;
    }
      ∷ rest

module _ (web : Web) (base_url : String) where
  -- Search of Provider; `parse` is the JSON of the answer.
  unfoldable pub search_web : (String → Option (List WebItem)) → Query → Outcome (List Result)
  unfolding web_form web_results
  search_web parse q =
      elim (ask web "searxng" (30 * second) (base_url <> ("/search?" <> web.encode (web_form q)))
        "") [
          | err x ↦ err x
          | ok body ↦ elim (parse body) [
            | none ↦ err (decode "searxng")
            | some items ↦ ok (web_results q.max_results 0 items)
          ]
        ]

  -- Search of ImagesProvider.
  unfoldable pub search_images :
      (String → Option (List ImageItem)) → (String → Option ℤ) → Query → Outcome (List Result)
  unfolding images_form image_results
  search_images parse atoi q =
      elim (ask web "searxng-images" (30 * second)
        (base_url <> ("/search?" <> web.encode (images_form q))) "") [
          | err x ↦ err x
          | ok body ↦ elim (parse body) [
            | none ↦ err (decode "searxng-images")
            | some items ↦ ok (image_results atoi q.max_results 0 items)
          ]
        ]
