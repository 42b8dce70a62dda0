-- ===== src/Fetch/Robots/Rules.antt =====
-- Which paths the rules of fetch/robots.go block.
use Prim.Native.Char.{Char, code}
use Prim.Native.String.{char_at}
use mathlib.Core.List.{Memᴰ}
use text.Mathlib.TextEquality.{Char-path}
use saka.Base.{
  ℕ, zero, suc, ◌-◌, ◌<◌, ◌≡◌, refl, ap, subst, ◌≢◌, inl, inr, Bool, true, false, not, ◌&&◌, String,
  some, List, [], ◌∷◌, arith, All, All-append, All-mem, leb, ltb, ◌==◌, Bool-cases, Option-cases,
  is_empty, eq_iff,
}
use saka.Strings.{
  trim_space, trim_left, trim_right, cut_prefix, has_prefix, trim_prefix, split_lines, is_space,
}
use saka.Fetch.Robots.{Group, parse_line, lower, to_lower, parse_lines, parse_rules, blocks}

abbrev pub is_upper : Char → Bool
is_upper c = leb b'A' (code c) && leb (code c) b'Z'

-- No letter from A to Z.
abbrev pub NoUpper : String → Type 0
NoUpper String.[] = Unit
NoUpper (String.◌∷◌ c s) = (is_upper c ≡ false) × NoUpper s

small : ℕ → Bool
small i = not (is_upper (char_at "abcdefghijklmnopqrstuvwxyz" i))

each_below : ℕ → Bool
each_below zero = true
each_below (suc i) = each_below i && small i

each_below_sound : (n i : ℕ) → each_below n ≡ true → i < n → small i ≡ true
unfolding each_below
each_below_sound zero i h lt = absurd (omega arith)
each_below_sound (suc n) i h lt = elim (Bool-cases (i == n)) [
  | inl same ↦ let e : i ≡ n = ground arith in rw e (ground arith)
  | inr below ↦ each_below_sound n i (ground arith) (ground arith)
]

small_letters : each_below 26 ≡ true
unfolding each_below small
small_letters = refl

trim_left-NoUpper : (s : String) → NoUpper s → NoUpper (trim_left s)
unfolding trim_left
trim_left-NoUpper String.[] h = tt
trim_left-NoUpper (String.◌∷◌ c s) h = elim (Bool-cases (is_space c)) [
  | inl blank ↦ rw blank (trim_left-NoUpper s h.1)
  | inr seen ↦ rw seen h
]

trim_right-NoUpper : (s : String) → NoUpper s → NoUpper (trim_right s)
unfolding trim_right
trim_right-NoUpper String.[] h = tt
trim_right-NoUpper (String.◌∷◌ c s) h = elim (Bool-cases (is_empty (trim_right s) && is_space c)) [
  | inl blank ↦ rw blank tt
  | inr seen ↦ rw seen (h.0, trim_right-NoUpper s h.1)
]

trim_space-NoUpper : (s : String) → NoUpper s → NoUpper (trim_space s)
unfolding trim_space
trim_space-NoUpper s h = trim_right-NoUpper (trim_left s) (trim_left-NoUpper s h)

cut_prefix-NoUpper : (p s r : String) → NoUpper s → cut_prefix p s ≡ some r → NoUpper r
unfolding cut_prefix
cut_prefix-NoUpper String.[] s r h e = let same : s ≡ r = cc in rw (← same) h
cut_prefix-NoUpper (String.◌∷◌ c p) String.[] r h e = absurd (ground arith)
cut_prefix-NoUpper (String.◌∷◌ c p) (String.◌∷◌ d s) r h e =
    cut_prefix-NoUpper p s r h.1 (ground arith)

trim_prefix-NoUpper : (s p : String) → NoUpper s → NoUpper (trim_prefix s p)
unfolding trim_prefix
trim_prefix-NoUpper s p h = elim (Option-cases (cut_prefix p s)) [
  | inl e ↦ rw (e, trim_prefix) h
  | inr (r, e) ↦ rw (e, trim_prefix) (cut_prefix-NoUpper p s r h e)
]

-- A rule that the parser keeps: not empty, and in lower case.
abbrev pub IsRule : String → Type 0
IsRule p = (p ≢ "") × NoUpper p

parse_line-IsRule :
    (agent line : String) (g : Group)
    → NoUpper line
    → All IsRule g.disallow
    → All IsRule (parse_line agent line g).disallow
unfolding parse_line
parse_line-IsRule agent line g h k =
    let p = trim_space (trim_prefix line "disallow:") in
    let low =
      trim_space-NoUpper (trim_prefix line "disallow:") (trim_prefix-NoUpper line "disallow:" h) in
    elim (Bool-cases (has_prefix line "user-agent:")) [
      | inl agents ↦ rw agents k
      | inr other ↦ elim (Bool-cases (has_prefix line "disallow:" && (g.in_group && g.applies))) [
        | inr skipped ↦ ground (arith, eq_iff p "")
        | inl rule ↦ elim (Bool-cases (is_empty p)) [
          | inl empty ↦ ground arith
          | inr full ↦
              let more =
                All-append IsRule g.disallow (p ∷ []) k
                  ((λ e. ground (arith, eq_iff p ""), low), tt) in
              ground (arith, more)
        ]
      ]
    ]

module _ (fold : Char → Char) (fold_lower : (c : Char) → is_upper (fold c) ≡ false) where
  lower-NoUpper : (c : Char) → is_upper (lower fold c) ≡ false
  unfolding lower small
  lower-NoUpper c = elim (Bool-cases (is_upper c)) [
    | inl upper ↦
        rw upper (ground (arith, each_below_sound 26 (code c - b'A') small_letters (ground arith)))
    | inr other ↦ elim (Bool-cases (ltb (code c) 128)) [
      | inl ascii ↦ rw (other, ascii) other
      | inr letter ↦ rw (other, letter) (fold_lower c)
    ]
  ]

  to_lower-NoUpper : (s : String) → NoUpper (to_lower fold s)
  unfolding to_lower
  to_lower-NoUpper String.[] = tt
  to_lower-NoUpper (String.◌∷◌ c s) = (lower-NoUpper c, to_lower-NoUpper s)

  parse_lines-IsRule :
      (agent : String) (lines : List String) (g : Group)
      → All IsRule g.disallow
      → All IsRule (parse_lines fold agent lines g).disallow
  unfolding parse_lines
  parse_lines-IsRule agent [] g h = h
  parse_lines-IsRule agent (line ∷ lines) g h =
      let low = trim_space (to_lower fold line) in
      parse_lines-IsRule agent lines (parse_line agent low g) (
        parse_line-IsRule agent low g
          (trim_space-NoUpper (to_lower fold line) (to_lower-NoUpper line)) h)

  pub parse_rules-IsRule : (agent text : String) → All IsRule (parse_rules fold agent text)
  unfolding parse_rules
  parse_rules-IsRule agent text = parse_lines-IsRule agent (split_lines text) _ tt

-- A path is blocked exactly by a rule that it begins with.
blocks-some :
    (path : String) (rules : List String)
    → blocks path rules ≡ true
    → (p : String) × Memᴰ p rules × (has_prefix path p ≡ true)
unfolding blocks
blocks-some path [] h = absurd (ground arith)
blocks-some path (p ∷ ps) h = elim (Bool-cases (has_prefix path p)) [
  | inl hit ↦ (p, Memᴰ.head refl, hit)
  | inr miss ↦
      let (q, member, hit) = blocks-some path ps (rw miss at h) in (q, Memᴰ.tail member, hit)
]

-- A rule that a path with a capital letter behind its slash begins with.
rule-slash :
    (c : Char) (s p : String)
    → is_upper c ≡ true
    → IsRule p
    → has_prefix (String.◌∷◌ (char_at "/" 0) (String.◌∷◌ c s)) p ≡ true
    → p ≡ "/"
unfolding has_prefix cut_prefix
rule-slash c s String.[] up (full, low) h = absurd (full refl)
rule-slash c s (String.◌∷◌ d String.[]) up (full, low) h =
    ap (λ x. String.◌∷◌ x "") (Char-path d (char_at "/" 0) (ground arith))
rule-slash c s (String.◌∷◌ d (String.◌∷◌ e p)) up (full, low) h = absurd (ground arith)

-- The rules of a robots.txt file, read in lower case, block no path with a letter from A to Z
-- behind its first slash, unless the rule "/" is among them: the path is not put in lower case.
pub blocks-capital :
    (fold : Char → Char) (agent text : String) (c : Char) (s : String)
    → ((d : Char) → is_upper (fold d) ≡ false)
    → is_upper c ≡ true
    → blocks (String.◌∷◌ (char_at "/" 0) (String.◌∷◌ c s)) (parse_rules fold agent text) ≡ true
    → Memᴰ "/" (parse_rules fold agent text)
blocks-capital fold agent text c s small_fold up h =
    let (p, member, hit) = blocks-some _ (parse_rules fold agent text) h in
    let rule =
      All-mem IsRule (parse_rules fold agent text) p (parse_rules-IsRule fold small_fold agent text)
        member in
    subst (λ q. Memᴰ q (parse_rules fold agent text)) (rule-slash c s p up rule hit) member
