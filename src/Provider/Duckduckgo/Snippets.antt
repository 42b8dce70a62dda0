-- ===== src/Provider/Duckduckgo/Snippets.antt =====
-- Which snippet provider/duckduckgo/duckduckgo.go gives to which result.
use saka.Base.{
  ℕ, zero, suc, ◌+◌, ◌-◌, ◌≡◌, refl, ap, sym, ◌∙◌, String, Option, none, some, List, [], ◌∷◌, ◌++◌,
  ℤ, pos, negsuc, pos_part, get_elem?, take, length, length-append, ltb, ◌&&◌, not, is_empty,
  if◌then◌else◌, Bool-cases, inl, inr, true, false, arith,
}
use saka.Types.{Result}
use saka.Html.{Node, attr, text_of}
use saka.Html.Walk.{preorder, visit_each, walk_lem}
use saka.Provider.Duckduckgo.{
  Urls, is_link, has_room, titled, unwrap_ddg, visit_result, visit_snippet, attach, found_results,
  collect_snippets, parse_results,
}

-- The snippet of the i-th result, given the snippets of the page.
abbrev pub snippet_at : Option String → Result → String
snippet_at none r = r.snippet
snippet_at (some s) r = s

-- A result with its snippet, source and place.
abbrev pub placed : ℕ → Option String → Result → Result
placed i s r = record r { snippet = snippet_at s r; source = "duckduckgo"; position = suc i }

abbrev pub place : ℕ → Option String → Option Result → Option Result
place i s none = none
place i s (some r) = some (placed i s r)

attach-get_elem :
    (i j : ℕ) (rs : List Result) (snips : List String)
    → get_elem? (attach i rs snips) j ≡ place (i + j) (get_elem? snips j) (get_elem? rs j)
unfolding attach
attach-get_elem i j [] snips = refl
attach-get_elem i zero (r ∷ rs) [] =
    let e : i ≡ i + 0 = omega arith in ap (λ k. some (placed k none r)) e
attach-get_elem i zero (r ∷ rs) (s ∷ snips) =
    let e : i ≡ i + 0 = omega arith in ap (λ k. some (placed k (some s) r)) e
attach-get_elem i (suc j) (r ∷ rs) [] =
    let e : suc i + j ≡ i + suc j = omega arith in
    attach-get_elem (suc i) j rs [] ∙ ap (λ k. place k none (get_elem? rs j)) e
attach-get_elem i (suc j) (r ∷ rs) (s ∷ snips) =
    let e : suc i + j ≡ i + suc j = omega arith in
    attach-get_elem (suc i) j rs snips ∙ ap (λ k. place k (get_elem? snips j) (get_elem? rs j)) e

-- The links to results among nodes: those without a target are left out.
abbrev pub links : Urls → List Node → List Result
links urls [] = []
links urls (n ∷ ns) =
    let target = unwrap_ddg urls (attr n "href") in
    let rest = links urls ns in
    if is_link "result__a" n && not (is_empty target)
    then titled (text_of n) target ∷ rest
    else rest

-- The snippets among nodes.
abbrev pub snippets : List Node → List String
snippets [] = []
snippets (n ∷ ns) =
    let rest = snippets ns in if is_link "result__snippet" n then text_of n ∷ rest else rest

append-nil {ℓ} : {A : Type ℓ} (xs : List A) → xs ++ [] ≡ xs
append-nil [] = refl
append-nil (x ∷ xs) = ap (◌∷◌ x) (append-nil xs)

append-snoc {ℓ} :
    {A : Type ℓ} (xs : List A) (x : A) (ys : List A) → (xs ++ x ∷ []) ++ ys ≡ xs ++ x ∷ ys
append-snoc [] x ys = refl
append-snoc (y ∷ xs) x ys = ap (◌∷◌ y) (append-snoc xs x ys)

take-nil {ℓ} : {A : Type ℓ} (n : ℕ) → take {A = A} n [] ≡ []
take-nil zero = refl
take-nil (suc n) = refl

has_room-pos_part : (max : ℤ) (n : ℕ) → has_room max n ≡ ltb n (pos_part max)
has_room-pos_part (pos m) n = refl
has_room-pos_part (negsuc m) n = ground arith

visit_snippets :
    (ns : List Node) (acc : List String) → visit_each visit_snippet ns acc ≡ acc ++ snippets ns
unfolding visit_each visit_snippet
visit_snippets [] acc = sym (append-nil acc)
visit_snippets (n ∷ ns) acc = elim (Bool-cases (is_link "result__snippet" n)) [
  | inl is ↦
      rw (is, visit_each, visit_snippet)
        (visit_snippets ns (acc ++ text_of n ∷ []) ∙ append-snoc acc (text_of n) (snippets ns))
  | inr plain ↦ rw (plain, visit_each, visit_snippet) (visit_snippets ns acc)
]

module _ (urls : Urls) (max : ℤ) where
  -- What the visits of nodes add, with room for `left` results more.
  abbrev AddLinks : List Node → Type 0
  AddLinks ns =
      (acc : List Result) (left : ℕ)
      → left ≡ pos_part max - length acc
      → visit_each (visit_result urls max) ns acc ≡ acc ++ take left (links urls ns)

  add_link :
      (ns : List Node) (acc : List Result) (r : Result) (left : ℕ)
      → left ≡ pos_part max - length acc
      → AddLinks ns
      → visit_each
          (visit_result urls max)
          ns
          (if has_room max (length acc) then acc ++ r ∷ [] else acc)
        ≡ acc ++ take left (r ∷ links urls ns)
  add_link ns acc r zero e later =
      let full : has_room max (length acc) ≡ false =
        has_room-pos_part max (length acc) ∙ ground arith in
      rw full (later acc 0 e)
  add_link ns acc r (suc m) e later =
      let room : has_room max (length acc) ≡ true =
        has_room-pos_part max (length acc) ∙ ground arith in
      rw room (
        later (acc ++ r ∷ []) m (omega (arith, e, length-append acc (r ∷ [])))
        ∙ append-snoc acc r (take m (links urls ns)))

  visit_links : (ns : List Node) → AddLinks ns
  unfolding visit_each visit_result
  visit_links [] acc left e = rw (take-nil {A = Result} left) (sym (append-nil acc))
  visit_links (n ∷ ns) acc left e = elim (Bool-cases (is_link "result__a" n)) [
    | inr plain ↦ rw (plain, visit_each, visit_result) (visit_links ns acc left e)
    | inl is ↦
        let target = unwrap_ddg urls (attr n "href") in
        elim (Bool-cases (is_empty target)) [
          | inl none_there ↦
              rw (is, visit_each, visit_result, none_there) (visit_links ns acc left e)
          | inr there ↦
              rw (is, visit_each, visit_result, there)
                (add_link ns acc (titled (text_of n) target) left e (visit_links ns))
        ]
  ]

-- The results of a page are its links in the order of the document, without those that have no
-- target and at most as many as asked for, numbered from 1. Links and snippets are counted apart:
-- the j-th result has the j-th snippet of the page, also where a link before it was left out, and
-- the snippet "" where the page has no more.
pub parse_results-get_elem :
    (urls : Urls) (max : ℤ) (doc : Node) (j : ℕ)
    → get_elem? (parse_results urls max doc) j
      ≡ place j
          (get_elem? (snippets (preorder doc)) j)
          (get_elem? (take (pos_part max) (links urls (preorder doc))) j)
unfolding parse_results found_results collect_snippets
parse_results-get_elem urls max doc j =
    let e : 0 + j ≡ j = omega arith in
    let found =
      walk_lem (visit_result urls max) doc []
      ∙ visit_links urls max (preorder doc) [] (pos_part max) (omega arith) in
    let snips = walk_lem visit_snippet doc [] ∙ visit_snippets (preorder doc) [] in
    attach-get_elem 0 j (found_results urls max doc) (collect_snippets doc)
    ∙ ap
        (λ k.
          place k (get_elem? (collect_snippets doc) j) (get_elem? (found_results urls max doc) j))
        e
    ∙ ap (λ ss. place j (get_elem? ss j) (get_elem? (found_results urls max doc) j)) snips
    ∙ ap (λ rs. place j (get_elem? (snippets (preorder doc)) j) (get_elem? rs j)) found
