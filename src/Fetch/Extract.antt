-- ===== src/Fetch/Extract.antt =====
-- fetch/extract.go: the readable text of a page. html.Parse and the RFC 3339 parser are
-- parameters. Scores are exact fractions where the source has float64.
pub mod Best
use Prim.Native.String.{len}
use saka.Base.{
  ℕ, ◌+◌, ◌*◌, ◌<◌, Bool, true, false, ◌&&◌, ◌||◌, String, ◌<>◌, Option, none, some, List, [], ◌∷◌,
  ltb, ◌==◌, is_empty, str_eq, if◌then◌else◌,
}
use saka.Strings.{trim_space, split_lines, join_with}
use saka.Types.{Page, Outcome, ok, err, decode}
use saka.Html.{
  Node, node, Nodes, nil, cons, Attr, Kind, kind, content, attrs_of, is_element, is_text, is_among,
  walk,
}

abbrev pub skip_tags : List String
skip_tags =
    "script" ∷ "style" ∷ "nav" ∷ "header" ∷ "footer" ∷ "aside" ∷ "form" ∷ "noscript" ∷ "svg"
    ∷ "iframe" ∷ "button" ∷ []

abbrev pub block_tags : List String
block_tags = "p" ∷ "h1" ∷ "h2" ∷ "h3" ∷ "li" ∷ "blockquote" ∷ []

-- An element of one of these tags.
unfoldable pub is_one_of : List String → Kind → String → Bool
unfolding is_among
is_one_of tags k d = is_element k && is_among d tags

-- textContentLen: the bytes of all texts below a node.
unfoldable mutual
  pub text_content_len : Node → ℕ
  text_content_len (node k d attrs children) =
      (if is_text k then len d else 0) + text_contents_len children

  pub text_contents_len : Nodes → ℕ
  text_contents_len nil = 0
  text_contents_len (cons n ns) = text_content_len n + text_contents_len ns

pub record Counts : Type 0 where
  pub text_len : ℕ
  pub p_count : ℕ
  pub a_len : ℕ

unfoldable pub count_node : Kind → String → Counts → Counts
count_node k d c =
    if is_element k
    then if str_eq d "p" then record c { p_count = c.p_count + 1 } else c
    else if is_text k
    then record c { text_len = c.text_len + len (trim_space d) }
    else c

-- The inner walk of density.
unfoldable mutual
  pub count_from : Node → Counts → Counts
  count_from (node k d attrs children) c =
      let below = count_all children (count_node k d c) in
      if is_one_of skip_tags k d
      then c
      else if is_element k && str_eq d "a"
      then record c { a_len = c.a_len + text_content_len (node k d attrs children) }
      else below

  pub count_all : Nodes → Counts → Counts
  count_all nil c = c
  count_all (cons n ns) c = count_all ns (count_from n c)

-- The fraction num / den.
pub record Score : Type 0 where
  pub num : ℕ
  pub den : ℕ

abbrev pub exceeds_score : Score → Score → Bool
exceeds_score s t = ltb (t.num * s.den) (s.num * t.den)

unfoldable pub score_of : Counts → Score
score_of c =
    if c.text_len == 0
    then record { num = 0; den = 1 }
    else if ltb 0 c.a_len
    then record { num = (c.text_len + c.p_count * 100) * c.text_len; den = c.text_len + c.a_len }
    else record { num = c.text_len + c.p_count * 100; den = 1 }

unfoldable pub density : Node → Score
unfolding count_from count_node score_of
density n = score_of (count_from n (record { text_len = 0; p_count = 0; a_len = 0 }))

abbrev pub penalised : Score → Score
penalised s = record { num = s.num * 9; den = s.den * 10 }

-- The score of a node that is a candidate: an article by its density, the others by 9/10 of it.
unfoldable pub candidate_score : Node → Option Score
unfolding is_among
candidate_score n =
    if is_element (kind n)
    then if str_eq (content n) "article"
      then some (density n)
      else if is_among (content n) ("div" ∷ "main" ∷ "section" ∷ [])
      then some (penalised (density n))
      else none
    else none

pub record Leader : Type 0 where
  pub best : Option Node
  pub score : Score

unfoldable pub consider : Node → Leader → Leader
consider n b = elim (candidate_score n) [
  | none ↦ b
  | some s ↦ if exceeds_score s b.score then record { best = some n; score = s } else b
]

unfoldable pub best_of : Node → Leader
best_of doc = walk consider doc (record { best = none; score = record { num = 0; den = 1 } })

unfoldable pub find_best_container : Node → Node
unfolding best_of
find_best_container doc = elim (best_of doc).best [ none ↦ doc | some n ↦ n ]

unfoldable pub open_block : Kind → String → String → String
open_block k d sb = if is_one_of block_tags k d then sb <> "\n\n" else sb

unfoldable pub add_text : Kind → String → String → String
add_text k d sb = if is_text k then sb <> d else sb

-- collectText appends to the builder `sb`.
unfoldable mutual
  pub collect_text : Node → String → String
  collect_text (node k d attrs children) sb =
      let below = collect_all children (add_text k d (open_block k d sb)) in
      if is_one_of skip_tags k d then sb else below

  pub collect_all : Nodes → String → String
  collect_all nil sb = sb
  collect_all (cons n ns) sb = collect_all ns (collect_text n sb)

-- The lines that are not blank, trimmed.
unfoldable pub kept_lines : List String → List String
kept_lines [] = []
kept_lines (l ∷ ls) =
    let t = trim_space l in if is_empty t then kept_lines ls else t ∷ kept_lines ls

unfoldable pub normalize : String → String
unfolding kept_lines split_lines join_with trim_space
normalize s = join_with "\n\n" (kept_lines (split_lines s))

-- The loop over the attributes of a `meta` element: the last key and the last content.
unfoldable pub meta_key : String → List Attr → String
meta_key key [] = key
meta_key key (a ∷ rest) =
    meta_key (if str_eq a.key "property" || str_eq a.key "name" then a.val else key) rest

unfoldable pub meta_content : String → List Attr → String
meta_content found [] = found
meta_content found (a ∷ rest) = meta_content (if str_eq a.key "content" then a.val else found) rest

unfoldable pub visit_meta : String → Node → String → String
unfolding meta_key meta_content
visit_meta prop n found =
    if is_element (kind n) && str_eq (content n) "meta" && str_eq (meta_key "" (attrs_of n)) prop
    then meta_content "" (attrs_of n)
    else found

-- The walks of findMeta and findTag: a visit that answers, or not, and children that are walked
-- while nothing is found.
unfoldable mutual
  pub search_node : (Node → String → String) → Node → String → String
  search_node visit (node k d attrs children) found =
      search_nodes visit children (visit (node k d attrs children) found)

  pub search_nodes : (Node → String → String) → Nodes → String → String
  search_nodes visit nil found = found
  search_nodes visit (cons n ns) found =
      let later = search_nodes visit ns (search_node visit n found) in
      if is_empty found then later else found

unfoldable pub find_meta : Node → String → String
unfolding search_node visit_meta
find_meta doc prop = search_node (visit_meta prop) doc ""

unfoldable pub visit_tag : String → Node → String → String
visit_tag tag n found =
    if is_element (kind n) && str_eq (content n) tag then trim_space (collect_text n "") else found

unfoldable pub find_tag : Node → String → String
unfolding search_node visit_tag collect_text open_block add_text is_one_of trim_space
find_tag doc tag = search_node (visit_tag tag) doc ""

-- The title of og:title, else of the title element.
unfoldable pub title_of : Node → String
unfolding find_meta find_tag
title_of doc =
    let title = find_meta doc "og:title" in if is_empty title then find_tag doc "title" else title

module _ (parse : String → Option Node) (rfc3339 : String → ℕ) where
  -- parseTime; `rfc3339` is the time.Parse of a text, the zero time if it is none.
  unfoldable pub parse_time : String → ℕ
  parse_time s = if is_empty s then 0 else rfc3339 s

  unfoldable pub page_of : String → Node → Page
  unfolding parse_time
  page_of raw_url doc = record {
    url = raw_url;
    title = title_of doc;
    text = normalize (collect_text (find_best_container doc) "");
    published_at = parse_time (find_meta doc "article:published_time");
  }

  unfoldable pub extract : String → String → Outcome Page
  unfolding page_of
  extract raw_url body = elim (parse body) [
    | none ↦ err (decode "extract")
    | some doc ↦ ok (page_of raw_url doc)
  ]
