-- ===== src/Strings/Prefix.antt =====
-- What CutPrefix and HasPrefix answer.
use text.Mathlib.TextEquality.{Char-path}
use text.Mathlib.TextLemmas.{nil-append, cons-append}
use saka.Base.{◌≡◌, ap, ◌∙◌, ◌↔◌, String, ◌<>◌, some, arith}
use saka.Strings.{cut_prefix}

cut_prefix-append : (p s : String) → cut_prefix p (p <> s) ≡ some s
unfolding cut_prefix
cut_prefix-append String.[] s = rw nil-append
cut_prefix-append (String.◌∷◌ c p) s = rw cons-append (ground (arith, cut_prefix-append p s))

cut_prefix_sound : (p s r : String) → cut_prefix p s ≡ some r → s ≡ p <> r
unfolding cut_prefix
cut_prefix_sound String.[] s r h = ground (arith, nil-append r)
cut_prefix_sound (String.◌∷◌ c p) String.[] r h = cc
cut_prefix_sound (String.◌∷◌ c p) (String.◌∷◌ d s) r h =
    ground (arith, cut_prefix_sound p s r, Char-path c d, cons-append c p r)

-- CutPrefix finds the prefix exactly where the text is the prefix followed by the rest.
pub cut_prefix_iff : (p s r : String) → (cut_prefix p s ≡ some r) ↔ (s ≡ p <> r)
cut_prefix_iff p s r = (cut_prefix_sound p s r, λ e. ap (cut_prefix p) e ∙ cut_prefix-append p r)
