-- ===== src/Cli/Flags/Compared.antt =====
-- Parse from two FlagSets that differ at one switch: it goes the same way from both.
use saka.Base.{
  ◌≡◌, refl, sym, subst, ◌≢◌, Bool, String, Option, none, some, List, [], ◌∷◌, ℤ, str_eq, eq_iff,
  get, put, get-put, ◌||◌, Option-cases, Bool-cases, inl, inr, arith,
}
use saka.Cli.Flags.{
  FlagSet, Value, text, number, switch, Step, stop, end, help, fail, next, waits, Arg, plain,
  terminator, malformed, flag, Parsed, parsed, helped, refused, set_value, assign, lone, parse_flag,
  step, classify, parse_bool, bad_syntax, parse_from, parse,
}

module _ (key : String) where
  -- Equal but for the switch `key`, which both have.
  pub record AreAlike (fs gs : FlagSet) : Type 0 where
    pub others : (name : String) → name ≢ key → get fs name ≡ get gs name
    pub left_switch : (b : Bool) × (get fs key ≡ some (switch b))
    pub right_switch : (b : Bool) × (get gs key ≡ some (switch b))

  -- Two ends of Parse.
  abbrev pub EndAlike : Parsed → Parsed → Type 0
  EndAlike (parsed fs rest) r = elim r [ parsed gs rest' ↦ AreAlike fs gs × (rest ≡ rest') | _ ↦ ⊥ ]
  EndAlike helped r = r ≡ helped
  EndAlike (refused x) r = r ≡ refused x

  abbrev StepAlike : Step → Step → Type 0
  StepAlike (next fs) s = elim s [ next gs ↦ AreAlike fs gs | _ ↦ ⊥ ]
  StepAlike (waits name old) s = (s ≡ waits name old) × (name ≢ key)
  StepAlike other s = s ≡ other

  put-AreAlike :
      (fs gs : FlagSet) (name : String) (v : Value)
      → AreAlike fs gs
      → name ≢ key
      → AreAlike (put fs name v) (put gs name v)
  put-AreAlike fs gs name v a ne = record {
    others = λ n h. ground (arith, get-put fs name n v, get-put gs name n v, a.others n h);
    left_switch =
        (a.left_switch.0, ground (arith, get-put fs name key v, eq_iff name key, a.left_switch.1));
    right_switch = (
      a.right_switch.0,
      ground (arith, get-put gs name key v, eq_iff name key, a.right_switch.1),
    );
  }

  put_switch-AreAlike :
      (fs gs : FlagSet) (b c : Bool)
      → AreAlike fs gs
      → AreAlike (put fs key (switch b)) (put gs key (switch c))
  put_switch-AreAlike fs gs b c a = record {
    others = λ n h. ground (
      arith,
      get-put fs key n (switch b),
      get-put gs key n (switch c),
      eq_iff key n,
      a.others n h,
    );
    left_switch = (b, ground (arith, get-put fs key key (switch b), eq_iff key key));
    right_switch = (c, ground (arith, get-put gs key key (switch c), eq_iff key key));
  }

  module _ (parse_int : String → Option ℤ) where
    assign-StepAlike :
        (fs gs : FlagSet) (name : String) (old : Value) (s : String)
        → AreAlike fs gs
        → name ≢ key
        → StepAlike (assign parse_int fs name old s) (assign parse_int gs name old s)
    unfolding assign
    assign-StepAlike fs gs name old s a ne = elim (Option-cases (set_value parse_int old s)) [
      | inl e ↦ rw (e, assign) refl
      | inr (v, e) ↦ rw (e, assign) (put-AreAlike fs gs name v a ne)
    ]

    assign_switch-StepAlike :
        (fs gs : FlagSet) (b c : Bool) (s : String)
        → AreAlike fs gs
        → StepAlike (assign parse_int fs key (switch b) s) (assign parse_int gs key (switch c) s)
    unfolding assign set_value
    assign_switch-StepAlike fs gs b c s a = elim (Option-cases (parse_bool s)) [
      | inl e ↦ rw (e, assign, set_value) refl
      | inr (v, e) ↦ rw (e, assign, set_value) (put_switch-AreAlike fs gs v v a)
    ]

    lone-StepAlike :
        (fs gs : FlagSet) (name : String) (old : Value)
        → AreAlike fs gs
        → name ≢ key
        → StepAlike (lone parse_int fs name old) (lone parse_int gs name old)
    unfolding lone
    lone-StepAlike fs gs name (text old) a ne = (refl, ne)
    lone-StepAlike fs gs name (number old) a ne = (refl, ne)
    lone-StepAlike fs gs name (switch old) a ne = put-AreAlike fs gs name _ a ne

    switch-StepAlike :
        (fs gs : FlagSet) (value : Option String)
        → AreAlike fs gs
        → StepAlike (parse_flag parse_int fs key value) (parse_flag parse_int gs key value)
    unfolding parse_flag lone
    switch-StepAlike fs gs none a =
        rw (a.left_switch.1, parse_flag, a.right_switch.1) (put_switch-AreAlike fs gs _ _ a)
    switch-StepAlike fs gs (some s) a =
        rw (a.left_switch.1, parse_flag, a.right_switch.1)
          (assign_switch-StepAlike fs gs a.left_switch.0 a.right_switch.0 s a)

    other-StepAlike :
        (fs gs : FlagSet) (name : String) (value : Option String)
        → AreAlike fs gs
        → name ≢ key
        → StepAlike (parse_flag parse_int fs name value) (parse_flag parse_int gs name value)
    unfolding parse_flag
    other-StepAlike fs gs name value a ne = elim (Option-cases (get gs name)) [
      | inl e ↦ elim (Bool-cases (str_eq name "help" || str_eq name "h")) [
        | inl h ↦ rw (a.others name ne, parse_flag, e, h) refl
        | inr h ↦ rw (a.others name ne, parse_flag, e, h) refl
      ]
      | inr (old, e) ↦ rw (a.others name ne, parse_flag, e) (by_value old value)
    ]
      where
        by_value :
            (old : Value) (value : Option String)
            → StepAlike
                (elim value [
                  | none ↦ lone parse_int fs name old
                  | some s ↦ assign parse_int fs name old s
                ])
                (elim value [
                  | none ↦ lone parse_int gs name old
                  | some s ↦ assign parse_int gs name old s
                ])
        by_value old none = lone-StepAlike fs gs name old a ne
        by_value old (some s) = assign-StepAlike fs gs name old s a ne

    parse_flag-StepAlike :
        (fs gs : FlagSet) (name : String) (value : Option String)
        → AreAlike fs gs
        → StepAlike (parse_flag parse_int fs name value) (parse_flag parse_int gs name value)
    parse_flag-StepAlike fs gs name value a = elim (Bool-cases (str_eq name key)) [
      | inl h ↦
          subst (λ n. StepAlike (parse_flag parse_int fs n value) (parse_flag parse_int gs n value))
            (sym ((eq_iff name key).0 h)) (switch-StepAlike fs gs value a)
      | inr h ↦ other-StepAlike fs gs name value a (ground (arith, eq_iff name key))
    ]

    abbrev WaitApart : Option (String × Value) → Type 0
    WaitApart none = Unit
    WaitApart (some held) = held.0 ≢ key

    step-StepAlike :
        (fs gs : FlagSet) (waiting : Option (String × Value)) (arg : String)
        → AreAlike fs gs
        → WaitApart waiting
        → StepAlike (step parse_int fs waiting arg) (step parse_int gs waiting arg)
    unfolding step
    step-StepAlike fs gs (some held) arg a w = assign-StepAlike fs gs held.0 held.1 arg a w
    step-StepAlike fs gs none arg a w = by_arg (classify arg)
      where
        by_arg :
            (x : Arg)
            → StepAlike
                (elim x [
                  | plain ↦ stop
                  | terminator ↦ end
                  | malformed ↦ fail (bad_syntax arg)
                  | flag name value ↦ parse_flag parse_int fs name value
                ])
                (elim x [
                  | plain ↦ stop
                  | terminator ↦ end
                  | malformed ↦ fail (bad_syntax arg)
                  | flag name value ↦ parse_flag parse_int gs name value
                ])
        by_arg plain = refl
        by_arg terminator = refl
        by_arg malformed = refl
        by_arg (flag name value) = parse_flag-StepAlike fs gs name value a

    parse_from-EndAlike :
        (fs gs : FlagSet) (waiting : Option (String × Value)) (args : List String)
        → AreAlike fs gs
        → WaitApart waiting
        → EndAlike (parse_from parse_int fs waiting args) (parse_from parse_int gs waiting args)
    unfolding parse_from
    parse_from-EndAlike fs gs none [] a w = (a, refl)
    parse_from-EndAlike fs gs (some held) [] a w = refl
    parse_from-EndAlike fs gs waiting (arg ∷ args) a w =
        by_step (step parse_int fs waiting arg) (step parse_int gs waiting arg)
          (step-StepAlike fs gs waiting arg a w)
          (λ fs' gs' w' a' h. parse_from-EndAlike fs' gs' w' args a' h)
      where
        onwards : FlagSet → Step → Parsed
        onwards hs s = elim s [
          | stop ↦ parsed hs (arg ∷ args)
          | end ↦ parsed hs args
          | help ↦ helped
          | fail x ↦ refused x
          | next hs' ↦ parse_from parse_int hs' none args
          | waits name old ↦ parse_from parse_int hs (some (name, old)) args
        ]

        by_step :
            (s t : Step)
            → StepAlike s t
            → ((fs' gs' : FlagSet) (w' : Option (String × Value))
                → AreAlike fs' gs'
                → WaitApart w'
                → EndAlike (parse_from parse_int fs' w' args) (parse_from parse_int gs' w' args))
            → EndAlike (onwards fs s) (onwards gs t)
        by_step stop t h later = rw h (a, refl)
        by_step end t h later = rw h (a, refl)
        by_step help t h later = rw h refl
        by_step (fail x) t h later = rw h refl
        by_step (next fs') (next gs') h later = later fs' gs' none h tt
        by_step (next fs') _ h later = absurd h
        by_step (waits name old) t h later = rw h.0 (later fs gs (some (name, old)) a h.1)

    -- Two FlagSets that differ only at one switch are parsed alike.
    pub parse-EndAlike :
        (fs gs : FlagSet) (args : List String)
        → AreAlike fs gs
        → EndAlike (parse parse_int fs args) (parse parse_int gs args)
    unfolding parse
    parse-EndAlike fs gs args a = parse_from-EndAlike fs gs none args a tt
