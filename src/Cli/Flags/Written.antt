-- ===== src/Cli/Flags/Written.antt =====
-- Command lines written out, and what Parse reads in them.
use Prim.Native.Char.{Char, code}
use text.Mathlib.TextLemmas.{nil-append, cons-append}
use saka.Base.{
  ◌≡◌, refl, sym, ◌∙◌, ap, Bool, true, false, not, ◌&&◌, String, ◌<>◌, Option, none, some, List, [],
  ◌∷◌, ℤ, ◌==◌, get, put, Option-cases, inl, inr, arith, ◌||◌, All,
}
use saka.Strings.{cut}
use saka.Cli.Flags.{
  FlagSet, Value, flag, classify, behind_dash, named, parsed, set_value, assign, parse_flag, step,
  parse_from, parse,
}

-- The name of a flag: not empty, without "=", and no dash in front.
abbrev NoEquals : String → Type 0
NoEquals String.[] = Unit
NoEquals (String.◌∷◌ c s) = ((code c == 61) ≡ false) × NoEquals s

abbrev pub IsName : String → Type 0
IsName String.[] = ⊥
IsName (String.◌∷◌ c s) = ((code c == 45) ≡ false) × ((code c == 61) ≡ false) × NoEquals s

has_equals : String → Bool
has_equals String.[] = false
has_equals (String.◌∷◌ c s) = code c == 61 || has_equals s

-- The same as a test.
unfoldable pub is_name : String → Bool
unfolding has_equals
is_name String.[] = false
is_name (String.◌∷◌ c s) = not (code c == 45) && not (has_equals (String.◌∷◌ c s))

has_equals-NoEquals : (s : String) → has_equals s ≡ false → NoEquals s
unfolding has_equals
has_equals-NoEquals String.[] h = tt
has_equals-NoEquals (String.◌∷◌ c s) h = (ground arith, has_equals-NoEquals s (ground arith))

pub is_name-IsName : (s : String) → is_name s ≡ true → IsName s
unfolding is_name has_equals
is_name-IsName String.[] h = absurd (ground arith)
is_name-IsName (String.◌∷◌ c s) h =
    (ground arith, ground arith, has_equals-NoEquals s (ground arith))

-- The flags as "-name=value", and "--" in front of the other arguments.
abbrev pub written : List (String × String) → List String → List String
written [] rest = "--" ∷ rest
written (given ∷ more) rest = ("-" <> (given.0 <> ("=" <> given.1))) ∷ written more rest

module _ (parse_int : String → Option ℤ) where
  -- The flags after these are set one by one; `none` where one is not declared or not of its type.
  abbrev pub assigned : FlagSet → List (String × String) → Option FlagSet
  assigned fs [] = some fs
  assigned fs (given ∷ more) = elim (get fs given.0) [
    | none ↦ none
    | some old ↦ elim (set_value parse_int old given.1) [
      | none ↦ none
      | some v ↦ assigned (put fs given.0 v) more
    ]
  ]

module _ (parse_int : String → Option ℤ) where
  pub assigned-cons :
      (fs : FlagSet) (name s : String) (more : List (String × String)) (old v : Value)
      → get fs name ≡ some old
      → set_value parse_int old s ≡ some v
      → assigned parse_int fs ((name, s) ∷ more) ≡ assigned parse_int (put fs name v) more
  assigned-cons fs name s more old v e e' = rw (e, assigned, e') refl

cut-equals : (s t : String) → NoEquals s → cut 61 (s <> ("=" <> t)) ≡ (s, some t)
unfolding cut
cut-equals String.[] t h = rw nil-append (rw cons-append (rw nil-append refl))
cut-equals (String.◌∷◌ c s) t h = rw cons-append (ground (arith, cut-equals s t h.1, h.0))

named-written : (name s : String) → IsName name → named (name <> ("=" <> s)) ≡ flag name (some s)
unfolding named
named-written String.[] s h = absurd h
named-written (String.◌∷◌ c name) s (no_dash, no_equals, rest) =
    let found = cut-equals (String.◌∷◌ c name) s (no_equals, rest) in
    let found' : cut 61 (String.◌∷◌ c (name <> ("=" <> s))) ≡ (String.◌∷◌ c name, some s) =
      ap (cut 61) (sym (cons-append c name ("=" <> s))) ∙ found in
    rw cons-append (rw (found', no_dash, no_equals) refl)

behind_dash-named :
    (c : Char) (s : String)
    → (code c == 45) ≡ false
    → behind_dash (String.◌∷◌ c s) ≡ named (String.◌∷◌ c s)
unfolding behind_dash
behind_dash-named c s h = rw h refl

classify-written :
    (name s : String) → IsName name → classify ("-" <> (name <> ("=" <> s))) ≡ flag name (some s)
unfolding classify behind_dash
classify-written String.[] s h = absurd h
classify-written (String.◌∷◌ c name) s h =
    let read = named-written (String.◌∷◌ c name) s h in
    let read' : named (String.◌∷◌ c (name <> ("=" <> s))) ≡ flag (String.◌∷◌ c name) (some s) =
      ap named (sym (cons-append c name ("=" <> s))) ∙ read in
    rw cons-append (rw nil-append (rw cons-append (behind_dash-named c _ h.0 ∙ read')))

module _ (parse_int : String → Option ℤ) where
  step-written :
      (fs : FlagSet) (name s : String) (old : Value)
      → IsName name
      → get fs name ≡ some old
      → step parse_int fs none ("-" <> (name <> ("=" <> s))) ≡ assign parse_int fs name old s
  unfolding step parse_flag
  step-written fs name s old h e = rw (classify-written name s h, step, parse_flag, e) refl

  parse_from-written :
      (fs : FlagSet) (given : List (String × String)) (rest : List String) (fs' : FlagSet)
      → All (λ (f : String × String). IsName f.0) given
      → assigned parse_int fs given ≡ some fs'
      → parse_from parse_int fs none (written given rest) ≡ parsed fs' rest
  unfolding parse_from step
  parse_from-written fs [] rest fs' names h = ground arith
  parse_from-written fs ((name, s) ∷ given) rest fs' names h = elim (Option-cases (get fs name)) [
    | inl e ↦ absurd (ground arith)
    | inr (old, e) ↦ elim (Option-cases (set_value parse_int old s)) [
      | inl e' ↦ absurd (ground arith)
      | inr (v, e') ↦
          let set : assigned parse_int (put fs name v) given ≡ some fs' = ground arith in
          rw (step-written fs name s old names.0 e, parse_from, e')
            (parse_from-written (put fs name v) given rest fs' names.1 set)
    ]
  ]

  -- Flags that are declared, with values of their types, can be written as "-name=value"; Parse
  -- sets them one by one, the last of one name for good, and leaves every argument behind "--",
  -- also one that begins with a dash.
  pub parse-written :
      (fs : FlagSet) (given : List (String × String)) (rest : List String) (fs' : FlagSet)
      → All (λ (f : String × String). IsName f.0) given
      → assigned parse_int fs given ≡ some fs'
      → parse parse_int fs (written given rest) ≡ parsed fs' rest
  unfolding parse
  parse-written fs given rest fs' names h = parse_from-written fs given rest fs' names h
