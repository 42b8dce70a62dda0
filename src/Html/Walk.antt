-- ===== src/Html/Walk.antt =====
-- Walking a document is a fold over its nodes in document order.
use saka.Base.{◌≡◌, refl, ap, sym, ◌∙◌, List, [], ◌∷◌, ◌++◌}
use saka.Html.{Node, node, Nodes, nil, cons, walk, walk_all}

-- The nodes of a document, each before its children.
unfoldable mutual
  pub preorder : Node → List Node
  preorder (node k d attrs children) = node k d attrs children ∷ preorder_all children

  pub preorder_all : Nodes → List Node
  preorder_all nil = []
  preorder_all (cons n ns) = preorder n ++ preorder_all ns

unfoldable pub visit_each {ℓ} : {S : Type ℓ} → (Node → S → S) → List Node → S → S
visit_each visit [] s = s
visit_each visit (n ∷ ns) s = visit_each visit ns (visit n s)

visit_each-append {ℓ} :
    {S : Type ℓ} (visit : Node → S → S) (xs ys : List Node) (s : S)
    → visit_each visit (xs ++ ys) s ≡ visit_each visit ys (visit_each visit xs s)
unfolding visit_each
visit_each-append visit [] ys s = refl
visit_each-append visit (x ∷ xs) ys s = visit_each-append visit xs ys (visit x s)

mutual
  unfolding walk preorder visit_each

  walk-preorder {ℓ} :
      {S : Type ℓ} (visit : Node → S → S) (n : Node) (s : S)
      → walk visit n s ≡ visit_each visit (preorder n) s
  walk-preorder visit (node k d attrs children) s = walk_all-preorder visit children _

  walk_all-preorder {ℓ} :
      {S : Type ℓ} (visit : Node → S → S) (ns : Nodes) (s : S)
      → walk_all visit ns s ≡ visit_each visit (preorder_all ns) s
  walk_all-preorder visit nil s = refl
  walk_all-preorder visit (cons n ns) s =
      walk_all-preorder visit ns (walk visit n s)
      ∙ ap (visit_each visit (preorder_all ns)) (walk-preorder visit n s)
      ∙ sym (visit_each-append visit (preorder n) (preorder_all ns) s)

-- Walk visits every node once, in document order.
pub walk_lem {ℓ} :
    {S : Type ℓ} (visit : Node → S → S) (n : Node) (s : S)
    → walk visit n s ≡ visit_each visit (preorder n) s
walk_lem visit n s = walk-preorder visit n s
