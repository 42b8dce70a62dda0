-- ===== src/Cli/Flags.antt =====
-- The package `flag` of the language, as cli/saka uses it: a FlagSet with the flags that a command
-- declares, and its Parse. strconv.ParseInt is a parameter.
pub mod Kinds
pub mod Written
pub mod Compared
use Prim.Native.Char.{code}
use saka.Base.{
  Bool, true, false, ◌||◌, String, Option, none, some, List, [], ◌∷◌, ℤ, pos, ◌==◌, str_eq,
  is_empty, Dict, get, put, if◌then◌else◌,
}
use saka.Strings.{cut}

-- The value of a flag: fs.String, fs.Int and fs.Bool.
pub data Value : Type 0 where
  text : String → Value
  number : ℤ → Value
  switch : Bool → Value

abbrev pub FlagSet : Type 0
FlagSet = Dict Value

pub data FlagError : Type 0 where
  bad_syntax : String → FlagError
  undefined : String → FlagError
  invalid : String → String → FlagError
  needs_argument : String → FlagError

-- What an argument is: the first that is no flag, "--", or a flag with what follows its "=".
pub data Arg : Type 0 where
  plain : Arg
  terminator : Arg
  malformed : Arg
  flag : String → Option String → Arg

-- The name behind the dashes.
unfoldable pub named : String → Arg
unfolding cut
named String.[] = malformed
named (String.◌∷◌ c s) =
    let (name, value) = cut 61 (String.◌∷◌ c s) in
    if code c == 45 || code c == 61 then malformed else flag name value

unfoldable pub behind_dash : String → Arg
unfolding named
behind_dash String.[] = plain
behind_dash (String.◌∷◌ c s) =
    if code c == 45 then if is_empty s then terminator else named s else named (String.◌∷◌ c s)

unfoldable pub classify : String → Arg
unfolding behind_dash
classify String.[] = plain
classify (String.◌∷◌ c s) = if code c == 45 then behind_dash s else plain

-- strconv.ParseBool
unfoldable pub parse_bool : String → Option Bool
parse_bool s =
    if str_eq s "1"
      || str_eq s "t"
      || str_eq s "T"
      || str_eq s "true"
      || str_eq s "TRUE"
      || str_eq s "True"
    then some true
    else if str_eq s "0"
        || str_eq s "f"
        || str_eq s "F"
        || str_eq s "false"
        || str_eq s "FALSE"
        || str_eq s "False"
    then some false
    else none

-- What Parse answers: the flags with the arguments behind them, the request for help, or an error.
pub data Parsed : Type 0 where
  parsed : FlagSet → List String → Parsed
  helped : Parsed
  refused : FlagError → Parsed

-- What parseOne does with an argument; `waits` takes the next argument as the flag's value.
pub data Step : Type 0 where
  stop : Step
  end : Step
  help : Step
  fail : FlagError → Step
  next : FlagSet → Step
  waits : String → Value → Step

module _ (parse_int : String → Option ℤ) where
  -- The method Set of a value.
  unfoldable pub set_value : Value → String → Option Value
  unfolding parse_bool
  set_value (text old) s = some (text s)
  set_value (number old) s = elim (parse_int s) [ none ↦ none | some n ↦ some (number n) ]
  set_value (switch old) s = elim (parse_bool s) [ none ↦ none | some b ↦ some (switch b) ]

  unfoldable pub assign : FlagSet → String → Value → String → Step
  unfolding set_value
  assign fs name old s = elim (set_value old s) [
    | none ↦ fail (invalid name s)
    | some v ↦ next (put fs name v)
  ]

  -- A declared flag, without a value behind "=".
  unfoldable pub lone : FlagSet → String → Value → Step
  lone fs name (switch old) = next (put fs name (switch true))
  lone fs name (text old) = waits name (text old)
  lone fs name (number old) = waits name (number old)

  unfoldable pub parse_flag : FlagSet → String → Option String → Step
  unfolding assign lone
  parse_flag fs name value = elim (get fs name) [
    | none ↦ if str_eq name "help" || str_eq name "h" then help else fail (undefined name)
    | some old ↦ elim value [ none ↦ lone fs name old | some s ↦ assign fs name old s ]
  ]

  -- parseOne on an argument; with a flag that waits for its value, the argument is that value.
  unfoldable pub step : FlagSet → Option (String × Value) → String → Step
  unfolding classify parse_flag assign
  step fs (some held) arg = assign fs held.0 held.1 arg
  step fs none arg = elim (classify arg) [
    | plain ↦ stop
    | terminator ↦ end
    | malformed ↦ fail (bad_syntax arg)
    | flag name value ↦ parse_flag fs name value
  ]

  -- The loop of Parse.
  unfoldable pub parse_from : FlagSet → Option (String × Value) → List String → Parsed
  unfolding step
  parse_from fs none [] = parsed fs []
  parse_from fs (some held) [] = refused (needs_argument held.0)
  parse_from fs waiting (arg ∷ args) = elim (step fs waiting arg) [
    | stop ↦ parsed fs (arg ∷ args)
    | end ↦ parsed fs args
    | help ↦ helped
    | fail x ↦ refused x
    | next fs' ↦ parse_from fs' none args
    | waits name old ↦ parse_from fs (some (name, old)) args
  ]

  -- Parse
  unfoldable pub parse : FlagSet → List String → Parsed
  unfolding parse_from
  parse fs args = parse_from fs none args

-- What a command reads of its flags.
unfoldable pub text_of : FlagSet → String → String
text_of fs name = elim (get fs name) [ some (text s) ↦ s | _ ↦ "" ]

unfoldable pub switch_of : FlagSet → String → Bool
switch_of fs name = elim (get fs name) [ some (switch b) ↦ b | _ ↦ false ]

unfoldable pub number_of : FlagSet → String → ℤ
number_of fs name = elim (get fs name) [ some (number n) ↦ n | _ ↦ pos 0 ]
