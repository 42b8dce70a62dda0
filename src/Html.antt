-- ===== src/Html.antt =====
-- The parsed document, and internal/htmd/htmd.go. html.Node of golang.org/x/net is a tree; of the
-- types of a node the program tells elements and texts from all others. `Data` is the tag of an
-- element and the text of a text node. Parsing is a parameter of the modules that parse.
use saka.Base.{Bool, true, false, ◌||◌, ◌<>◌, String, List, [], ◌∷◌, ◌++◌, str_eq, if◌then◌else◌}
use saka.Strings.{fields, trim_space}
pub mod Walk

pub data Kind : Type 0 where
  element text other : Kind

pub record Attr : Type 0 where
  pub key : String
  pub val : String

mutual
  pub data Node : Type 0 where
    node : Kind → String → List Attr → Nodes → Node

  pub data Nodes : Type 0 where
    nil : Nodes
    cons : Node → Nodes → Nodes

abbrev pub kind : Node → Kind
kind (node k data_ attrs children) = k

abbrev pub content : Node → String
content (node k data_ attrs children) = data_

abbrev pub attrs_of : Node → List Attr
attrs_of (node k data_ attrs children) = attrs

-- n.Type == html.ElementNode && n.Data == tag
abbrev pub is_element : Kind → Bool
is_element element = true
is_element _ = false

abbrev pub is_text : Kind → Bool
is_text text = true
is_text _ = false

-- Walk: `visit` on a node and all its descendants, in document order, over a state.
unfoldable mutual
  pub walk {ℓ} : {S : Type ℓ} → (Node → S → S) → Node → S → S
  walk visit (node k d attrs children) s =
      walk_all visit children (visit (node k d attrs children) s)

  pub walk_all {ℓ} : {S : Type ℓ} → (Node → S → S) → Nodes → S → S
  walk_all visit nil s = s
  walk_all visit (cons n ns) s = walk_all visit ns (walk visit n s)

-- Attr
find_attr : List Attr → String → String
find_attr [] key = ""
find_attr (a ∷ rest) key =
    let later = find_attr rest key in if str_eq a.key key then a.val else later

unfoldable pub attr : Node → String → String
unfolding find_attr
attr n key = find_attr (attrs_of n) key

unfoldable pub class : Node → String
unfolding attr
class n = attr n "class"

unfoldable pub is_among : String → List String → Bool
is_among s [] = false
is_among s (t ∷ ts) = str_eq t s || is_among s ts

unfoldable pub has_class : Node → String → Bool
unfolding class is_among fields
has_class n name = is_among name (fields (class n))

add_text : Node → String → String
add_text n sb = if is_text (kind n) then sb <> content n else sb

unfoldable pub text_of : Node → String
unfolding walk add_text trim_space
text_of n = trim_space (walk add_text n "")
