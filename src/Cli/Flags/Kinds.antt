-- ===== src/Cli/Flags/Kinds.antt =====
-- What Parse keeps of a FlagSet: the flags and the types of their values.
use mathlib.Core.Option
use saka.Base.{
  ◌≡◌, refl, sym, ◌∙◌, ap, String, Option, none, some, List, [], ◌∷◌, ◌++◌, ℤ, str_eq, eq_iff, get,
  put, get-put, ◌||◌, Option-cases, Bool-cases, inl, inr, arith,
}
use saka.Cli.Flags.{
  FlagSet, Value, text, number, switch, Step, stop, end, help, fail, next, waits, Arg, plain,
  terminator, malformed, flag, Parsed, parsed, helped, refused, set_value, assign, lone, parse_flag,
  step, classify, parse_bool, bad_syntax, parse_from, parse,
}

pub data Kind : Type 0 where
  text_kind number_kind switch_kind : Kind

abbrev pub kind_of : Value → Kind
kind_of (text s) = text_kind
kind_of (number n) = number_kind
kind_of (switch b) = switch_kind

-- The type of a flag, if it is declared.
abbrev pub kind_in : FlagSet → String → Option Kind
kind_in fs name = elim (get fs name) [ none ↦ none | some v ↦ some (kind_of v) ]

abbrev pub SameKinds : FlagSet → FlagSet → Type 0
SameKinds fs fs' = (name : String) → kind_in fs' name ≡ kind_in fs name

module _ (parse_int : String → Option ℤ) where
  set_value-kind :
      (old v : Value) (s : String) → set_value parse_int old s ≡ some v → kind_of v ≡ kind_of old
  unfolding set_value
  set_value-kind (text old) v s h = ground arith
  set_value-kind (number old) v s h = ground arith
  set_value-kind (switch old) v s h = elim (Option-cases (parse_bool s)) [
    | inl e ↦ absurd (Option.none-ne-some v (rw (e, set_value) at h))
    | inr (b, e) ↦
        let same : switch b ≡ v = Option.some-injective (switch b) v (rw (e, set_value) at h) in
        ap kind_of (sym same)
  ]

  put-SameKinds :
      (fs : FlagSet) (name : String) (v : Value)
      → kind_in fs name ≡ some (kind_of v)
      → SameKinds fs (put fs name v)
  put-SameKinds fs name v h other = elim (Bool-cases (str_eq name other)) [
    | inl same ↦ ground (arith, get-put fs name other v, eq_iff name other)
    | inr apart ↦ ground (arith, get-put fs name other v)
  ]

  abbrev StepKinds : FlagSet → Step → Type 0
  StepKinds fs (next fs') = SameKinds fs fs'
  StepKinds fs (waits name old) = kind_in fs name ≡ some (kind_of old)
  StepKinds fs _ = Unit

  abbrev WaitKinds : FlagSet → Option (String × Value) → Type 0
  WaitKinds fs none = Unit
  WaitKinds fs (some held) = kind_in fs held.0 ≡ some (kind_of held.1)

  assign-StepKinds :
      (fs : FlagSet) (name : String) (old : Value) (s : String)
      → kind_in fs name ≡ some (kind_of old)
      → StepKinds fs (assign parse_int fs name old s)
  unfolding assign
  assign-StepKinds fs name old s h = elim (Option-cases (set_value parse_int old s)) [
    | inl e ↦ rw (e, assign) tt
    | inr (v, e) ↦
        rw (e, assign) (put-SameKinds fs name v (h ∙ ap some (sym (set_value-kind old v s e))))
  ]

  lone-StepKinds :
      (fs : FlagSet) (name : String) (old : Value)
      → kind_in fs name ≡ some (kind_of old)
      → StepKinds fs (lone parse_int fs name old)
  unfolding lone
  lone-StepKinds fs name (text old) h = h
  lone-StepKinds fs name (number old) h = h
  lone-StepKinds fs name (switch old) h = put-SameKinds fs name _ h

  parse_flag-StepKinds :
      (fs : FlagSet) (name : String) (value : Option String)
      → StepKinds fs (parse_flag parse_int fs name value)
  unfolding parse_flag
  parse_flag-StepKinds fs name value = elim (Option-cases (get fs name)) [
    | inl e ↦ elim (Bool-cases (str_eq name "help" || str_eq name "h")) [
      | inl h ↦ rw (e, parse_flag, h) tt
      | inr h ↦ rw (e, parse_flag, h) tt
    ]
    | inr (old, e) ↦ rw (e, parse_flag) (by_value old value (rw (e, kind_in) refl))
  ]
    where
      by_value :
          (old : Value) (value : Option String)
          → kind_in fs name ≡ some (kind_of old)
          → StepKinds fs (elim value [
            | none ↦ lone parse_int fs name old
            | some s ↦ assign parse_int fs name old s
          ])
      by_value old none k = lone-StepKinds fs name old k
      by_value old (some s) k = assign-StepKinds fs name old s k

  step-StepKinds :
      (fs : FlagSet) (waiting : Option (String × Value)) (arg : String)
      → WaitKinds fs waiting
      → StepKinds fs (step parse_int fs waiting arg)
  unfolding step
  step-StepKinds fs (some held) arg h = assign-StepKinds fs held.0 held.1 arg h
  step-StepKinds fs none arg h = by_arg (classify arg)
    where
      by_arg :
          (a : Arg)
          → StepKinds fs (elim a [
            | plain ↦ stop
            | terminator ↦ end
            | malformed ↦ fail (bad_syntax arg)
            | flag name value ↦ parse_flag parse_int fs name value
          ])
      by_arg plain = tt
      by_arg terminator = tt
      by_arg malformed = tt
      by_arg (flag name value) = parse_flag-StepKinds fs name value

  -- The flags are those of `fs` with their types, and `rest` is an end of the arguments.
  abbrev pub KeepsKinds : FlagSet → List String → Parsed → Type 0
  KeepsKinds fs args (parsed fs' rest) =
      SameKinds fs fs' × ((used : List String) × (args ≡ used ++ rest))
  KeepsKinds fs args helped = Unit
  KeepsKinds fs args (refused x) = Unit

  later-KeepsKinds :
      (fs fs' : FlagSet) (arg : String) (args : List String) (r : Parsed)
      → SameKinds fs fs'
      → KeepsKinds fs' args r
      → KeepsKinds fs (arg ∷ args) r
  later-KeepsKinds fs fs' arg args (parsed fs'' rest) k h =
      ((λ name. h.0 name ∙ k name), (arg ∷ h.1.0, ap (λ xs. arg ∷ xs) h.1.1))
  later-KeepsKinds fs fs' arg args helped k h = tt
  later-KeepsKinds fs fs' arg args (refused x) k h = tt

  parse_from-KeepsKinds :
      (fs : FlagSet) (waiting : Option (String × Value)) (args : List String)
      → WaitKinds fs waiting
      → KeepsKinds fs args (parse_from parse_int fs waiting args)
  unfolding parse_from
  parse_from-KeepsKinds fs none [] w = ((λ name. refl), ([], refl))
  parse_from-KeepsKinds fs (some held) [] w = tt
  parse_from-KeepsKinds fs waiting (arg ∷ args) w =
      by_step (step parse_int fs waiting arg) (step-StepKinds fs waiting arg w)
        (λ fs'' w' h. parse_from-KeepsKinds fs'' w' args h)
    where
      by_step :
          (s : Step)
          → StepKinds fs s
          → ((fs'' : FlagSet) (w' : Option (String × Value))
              → WaitKinds fs'' w'
              → KeepsKinds fs'' args (parse_from parse_int fs'' w' args))
          → KeepsKinds fs (arg ∷ args) (elim s [
            | stop ↦ parsed fs (arg ∷ args)
            | end ↦ parsed fs args
            | help ↦ helped
            | fail x ↦ refused x
            | next fs' ↦ parse_from parse_int fs' none args
            | waits name old ↦ parse_from parse_int fs (some (name, old)) args
          ])
      by_step stop h later = ((λ name. refl), ([], refl))
      by_step end h later = ((λ name. refl), (arg ∷ [], refl))
      by_step help h later = tt
      by_step (fail x) h later = tt
      by_step (next fs') h later = later-KeepsKinds fs fs' arg args _ h (later fs' none tt)
      by_step (waits name old) h later =
          later-KeepsKinds fs fs arg args _ (λ name. refl) (later fs (some (name, old)) h)

  -- Where Parse goes through, the flags are those that were declared, each with the type of its
  -- declaration, and the arguments left are an end of those given.
  pub parse-KeepsKinds :
      (fs : FlagSet) (args : List String) → KeepsKinds fs args (parse parse_int fs args)
  unfolding parse
  parse-KeepsKinds fs args = parse_from-KeepsKinds fs none args tt
