-- ===== src/Provider/Gdelt.antt =====
-- provider/gdelt/gdelt.go: news articles of the GDELT DOC 2.0 API.
use saka.Base.{
  ℕ, suc, ◌*◌, ◌&&◌, String, ◌<>◌, Option, none, some, List, [], ◌∷◌, ℤ, pos, le_zero, exceeds,
  pos_part, Dict, is_empty, if◌then◌else◌,
}
use saka.Types.{second, Query, Result, decode, Outcome, ok, err}
use saka.Tools.{decimal}
use saka.Provider.{Web, ask, reaches, is_positive}

pub record Article : Type 0 where
  pub url : String
  pub title : String
  pub domain : String

abbrev pub doc_endpoint : String
doc_endpoint = "https://api.gdeltproject.org/api/v2/doc/doc"

abbrev pub default_max_records : ℕ
default_max_records = 10

abbrev pub max_records_ceiling : ℕ
max_records_ceiling = 250

-- The number of records to ask for.
unfoldable pub max_records : ℤ → ℕ
max_records max =
    if le_zero max
    then default_max_records
    else if exceeds max_records_ceiling max
    then max_records_ceiling
    else pos_part max

unfoldable pub gdelt_form : Query → Dict String
unfolding max_records
gdelt_form q =
    ("query", if is_empty q.site then q.text else q.text <> (" domainis:" <> q.site))
    ∷ ("mode", "artlist")
    ∷ ("format", "json")
    ∷ ("maxrecords", decimal (max_records q.max_results))
    ∷ []

unfoldable pub article_results : ℤ → ℕ → List Article → List Result
article_results max i [] = []
article_results max i (a ∷ as_) =
    let rest = article_results max (suc i) as_ in
    if is_positive max && reaches i max
    then []
    else record {
      title = a.title;
      url = a.url;
      snippet = "";
      source = a.domain;
      position = suc i;
      thumbnail_url = "";
      width = pos 0;
      height = pos 0;
    }
      ∷ rest

-- Search; `parse` is the JSON of the answer.
unfoldable pub search_news :
    Web → String → (String → Option (List Article)) → Query → Outcome (List Result)
unfolding gdelt_form article_results
search_news web endpoint parse q =
    elim (ask web "gdelt" (30 * second) (endpoint <> ("?" <> web.encode (gdelt_form q))) "") [
      | err x ↦ err x
      | ok body ↦ elim (parse body) [
        | none ↦ err (decode "gdelt")
        | some articles ↦ ok (article_results q.max_results 0 articles)
      ]
    ]
