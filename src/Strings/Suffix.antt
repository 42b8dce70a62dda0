-- ===== src/Strings/Suffix.antt =====
-- filepath.Ext on a slash-separated path, and TrimSuffix.
use Prim.Native.Char.{Char, code}
use text.Mathlib.TextLemmas.{nil-append, cons-append}
use saka.Base.{
  ◌≡◌, refl, sym, ◌∙◌, ap, subst, ◌⊎◌, inl, inr, Bool, false, not, ◌&&◌, ◌||◌, String, ◌<>◌, ◌==◌,
  str_eq, is_empty, eq_iff, Bool-cases, arith, if◌then◌else◌,
}
use saka.Strings.{trim_suffix}

unfoldable pub has_slash : String → Bool
has_slash String.[] = false
has_slash (String.◌∷◌ c s) = code c == 47 || has_slash s

-- filepath.Ext: from the last full stop of the last element of the path on.
unfoldable pub ext : String → String
unfolding has_slash
ext String.[] = ""
ext (String.◌∷◌ c s) =
    let rest = ext s in
    if not (is_empty rest)
    then rest
    else if code c == 46 && not (has_slash s)
    then String.◌∷◌ c s
    else ""

trim_suffix-cons :
    (c : Char) (s p : String)
    → (String.◌∷◌ c s ≡ p) ⊎ (trim_suffix s p <> p ≡ s)
    → trim_suffix (String.◌∷◌ c s) p <> p ≡ String.◌∷◌ c s
unfolding trim_suffix
trim_suffix-cons c s p h = elim (Bool-cases (str_eq (String.◌∷◌ c s) p)) [
  | inl e ↦ rw e (nil-append p ∙ sym ((eq_iff (String.◌∷◌ c s) p).0 e))
  | inr e ↦ rw e (cons-append c (trim_suffix s p) p ∙ ap (String.◌∷◌ c) (later h e))
]
  where
    later :
        (String.◌∷◌ c s ≡ p) ⊎ (trim_suffix s p <> p ≡ s)
        → str_eq (String.◌∷◌ c s) p ≡ false
        → trim_suffix s p <> p ≡ s
    later (inl same) e = absurd (ground (arith, eq_iff (String.◌∷◌ c s) p))
    later (inr k) e = k

ext-cons :
    (c : Char) (s : String)
    → (ext (String.◌∷◌ c s) ≡ ext s) ⊎ (ext (String.◌∷◌ c s) ≡ String.◌∷◌ c s)
unfolding ext
ext-cons c s = elim (Bool-cases (is_empty (ext s))) [
  | inr e ↦ inl (rw (e, ext) refl)
  | inl e ↦ elim (Bool-cases (code c == 46 && not (has_slash s))) [
    | inl dot ↦ inr (rw (e, ext, dot) refl)
    | inr none_here ↦ inl (rw (e, ext, none_here) (sym ((eq_iff (ext s) "").0 e)))
  ]
]

-- The extension is an end of the path.
pub trim_suffix-ext : (path : String) → trim_suffix path (ext path) <> ext path ≡ path
unfolding trim_suffix ext
trim_suffix-ext String.[] = nil-append ""
trim_suffix-ext (String.◌∷◌ c s) =
    trim_suffix-cons c s (ext (String.◌∷◌ c s)) (elim (ext-cons c s) [
      | inr e ↦ inl (sym e)
      | inl e ↦ inr (subst (λ p. trim_suffix s p <> p ≡ s) (sym e) (trim_suffix-ext s))
    ])
