-- ===== src/Strings.antt =====
-- The functions of Go's package `strings` that the program calls, on texts of code points.
pub mod Prefix
pub mod Suffix
use Prim.Native.Char.{Char, code}
use Prim.Native.String.{String}
use saka.Base.{
  ℕ, ◌+◌, Bool, true, false, ◌&&◌, ◌||◌, Option, none, some, List, [], ◌∷◌, ◌++◌, ◌<>◌, leb, ◌==◌,
  is_empty, str_eq, if◌then◌else◌,
}

-- unicode.IsSpace
unfoldable pub is_space : Char → Bool
is_space ch =
    let c = code ch in
    (leb 9 c && leb c 13)
    || c == 32
    || c == 0x85
    || c == 0xa0
    || c == 0x1680
    || (leb 0x2000 c && leb c 0x200a)
    || c == 0x2028
    || c == 0x2029
    || c == 0x202f
    || c == 0x205f
    || c == 0x3000

unfoldable pub trim_left : String → String
trim_left String.[] = ""
trim_left (String.◌∷◌ c s) = let rest = trim_left s in if is_space c then rest else String.◌∷◌ c s

unfoldable pub trim_right : String → String
trim_right String.[] = ""
trim_right (String.◌∷◌ c s) =
    let rest = trim_right s in if is_empty rest && is_space c then "" else String.◌∷◌ c rest

-- strings.TrimSpace
unfoldable pub trim_space : String → String
unfolding trim_left trim_right is_space
trim_space s = trim_right (trim_left s)

-- strings.CutPrefix(s, p): what follows the prefix, if it is there.
unfoldable pub cut_prefix : String → String → Option String
cut_prefix String.[] s = some s
cut_prefix (String.◌∷◌ c p) String.[] = none
cut_prefix (String.◌∷◌ c p) (String.◌∷◌ d s) =
    let rest = cut_prefix p s in if code c == code d then rest else none

-- strings.HasPrefix(s, p)
unfoldable pub has_prefix : String → String → Bool
unfolding cut_prefix
has_prefix s p = elim (cut_prefix p s) [ none ↦ false | some _ ↦ true ]

-- strings.TrimPrefix(s, p)
unfoldable pub trim_prefix : String → String → String
unfolding cut_prefix
trim_prefix s p = elim (cut_prefix p s) [ none ↦ s | some rest ↦ rest ]

-- strings.TrimSuffix(s, p): the first end of the text that is `p` is taken off, if there is one.
unfoldable pub trim_suffix : String → String → String
trim_suffix String.[] p = ""
trim_suffix (String.◌∷◌ c s) p =
    let rest = trim_suffix s p in if str_eq (String.◌∷◌ c s) p then "" else String.◌∷◌ c rest

-- strings.Contains(s, sub)
unfoldable pub contains : String → String → Bool
unfolding has_prefix
contains String.[] sub = is_empty sub
contains (String.◌∷◌ c s) sub = has_prefix (String.◌∷◌ c s) sub || contains s sub

-- The first part and the others of a text cut at each character of code `sep`.
unfoldable pub split_parts : ℕ → String → String × List String
split_parts sep String.[] = ("", [])
split_parts sep (String.◌∷◌ c s) =
    let (part, parts) = split_parts sep s in
    if code c == sep then ("", part ∷ parts) else (String.◌∷◌ c part, parts)

-- strings.Split(s, "\n")
unfoldable pub split_lines : String → List String
unfolding split_parts
split_lines s = let (part, parts) = split_parts 10 s in part ∷ parts

-- strings.SplitN(s, sep, 2) for a separator of one character: the part before the first one, and
-- what follows it, if it occurs.
unfoldable pub cut : ℕ → String → String × Option String
cut sep String.[] = ("", none)
cut sep (String.◌∷◌ c s) =
    let (before, after) = cut sep s in
    if code c == sep then ("", some s) else (String.◌∷◌ c before, after)

-- strings.Join(parts, sep)
unfoldable pub join_with : String → List String → String
join_with sep [] = ""
join_with sep (s ∷ []) = s
join_with sep (s ∷ t ∷ ss) = s <> (sep <> join_with sep (t ∷ ss))

-- strings.Fields: the runs of characters that are no space. The first component is the run that
-- the text begins with.
unfoldable pub field_parts : String → String × List String
field_parts String.[] = ("", [])
field_parts (String.◌∷◌ c s) =
    let (run, runs) = field_parts s in
    if is_space c then ("", if is_empty run then runs else run ∷ runs) else (String.◌∷◌ c run, runs)

unfoldable pub fields : String → List String
unfolding field_parts is_space
fields s = let (run, runs) = field_parts s in if is_empty run then runs else run ∷ runs
