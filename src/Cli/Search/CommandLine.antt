-- ===== src/Cli/Search/CommandLine.antt =====
-- Every search written out as a command line of saka search.
use saka.Base.{
  ◌≡◌, refl, ◌∙◌, ◌⊎◌, Bool, true, false, String, Option, some, List, [], ◌∷◌, ℤ, pos, All, drop,
  get, put, if◌then◌else◌,
}
use saka.Strings.{join_with}
use saka.Types.{Query}
use saka.Types.Contract.{Searcher}
use saka.Cli.Flags.{
  FlagSet, text, number, switch, set_value, parse, parsed, text_of, number_of, switch_of,
}
use saka.Cli.Flags.Written.{written, assigned, IsName, is_name-IsName, assigned-cons, parse-written}
use saka.Cli.Exit.{Fatal}
use saka.Cli.Output.{Printing}
use saka.Cli.Search.{search_flags, query_of, search_with, search_for, search_parsed, run_search}

-- What a user may ask for: `count` is the text of the number `n`.
pub record Asked : Type 0 where
  pub config : String
  pub count : String
  pub n : ℤ
  pub format : String
  pub site : String
  pub vertical : String
  pub streams : Bool

abbrev flags_of : Asked → List (String × String)
flags_of a =
    ("config", a.config)
    ∷ ("n", a.count)
    ∷ ("format", a.format)
    ∷ ("site", a.site)
    ∷ ("vertical", a.vertical)
    ∷ ("stream", if a.streams then "true" else "false")
    ∷ []

abbrev pub command_line : Asked → List String → List String
command_line a words = written (flags_of a) words

-- The query that is meant.
abbrev pub meant : Asked → List String → Query
meant a words = record {
  text = join_with " " words;
  max_results = a.n;
  region = "";
  safe_search = false;
  site = a.site;
  vertical = a.vertical;
}

abbrev set_flags : Asked → FlagSet
set_flags a =
    ("config", text a.config)
    ∷ ("n", number a.n)
    ∷ ("format", text a.format)
    ∷ ("site", text a.site)
    ∷ ("vertical", text a.vertical)
    ∷ ("stream", switch a.streams)
    ∷ []

flags_of-names : (a : Asked) → All (λ (f : String × String). IsName f.0) (flags_of a)
unfolding saka.Cli.Flags.Written.is_name
flags_of-names a = (
  is_name-IsName "config" refl,
  (
    is_name-IsName "n" refl,
    (
      is_name-IsName "format" refl,
      (
        is_name-IsName "site" refl,
        (is_name-IsName "vertical" refl, (is_name-IsName "stream" refl, tt)),
      ),
    ),
  ),
)

module _ (p : Printing) (parse_int : String → Option ℤ) where
  set_value-switch :
      (b : Bool)
      → set_value parse_int (switch false) (if b then "true" else "false") ≡ some (switch b)
  unfolding set_value
  set_value-switch true = refl
  set_value-switch false = refl

  flags_of-assigned :
      (a : Asked)
      → parse_int a.count ≡ some a.n
      → assigned parse_int search_flags (flags_of a) ≡ some (set_flags a)
  unfolding get put set_value
  flags_of-assigned a h =
      let fs₁ = put search_flags "config" (text a.config) in
      let fs₂ = put fs₁ "n" (number a.n) in
      let fs₃ = put fs₂ "format" (text a.format) in
      let fs₄ = put fs₃ "site" (text a.site) in
      let fs₅ = put fs₄ "vertical" (text a.vertical) in
      assigned-cons parse_int search_flags "config" a.config (drop 1 (flags_of a)) (text "")
        (text a.config) refl refl
      ∙ assigned-cons parse_int fs₁ "n" a.count (drop 2 (flags_of a)) (number (pos 10)) (number a.n)
          refl (rw (h, set_value) refl)
      ∙ assigned-cons parse_int fs₂ "format" a.format (drop 3 (flags_of a)) (text "table")
          (text a.format) refl refl
      ∙ assigned-cons parse_int fs₃ "site" a.site (drop 4 (flags_of a)) (text "") (text a.site) refl
          refl
      ∙ assigned-cons parse_int fs₄ "vertical" a.vertical (drop 5 (flags_of a)) (text "")
          (text a.vertical) refl refl
      ∙ assigned-cons parse_int fs₅ "stream" (if a.streams then "true" else "false") []
          (switch false) (switch a.streams) refl (set_value-switch a.streams)

  -- Every search can be asked for: with the flags written out as "-name=value" and the words of
  -- the query, whatever they are, behind "--", the command carries out the search that is meant,
  -- in its format, streamed or not, on the engine of its configuration.
  pub run_search-command_line :
      (new_engine : String → Searcher ⊎ Fatal) (a : Asked) (word : String) (words : List String)
      → parse_int a.count ≡ some a.n
      → run_search p parse_int new_engine (command_line a (word ∷ words))
        ≡ search_with p a.streams a.format (meant a (word ∷ words)) (new_engine a.config)
  unfolding run_search search_parsed search_for query_of text_of number_of switch_of get
  run_search-command_line new_engine a word words h =
      rw
        (
          parse-written parse_int search_flags (flags_of a) (word ∷ words) (set_flags a)
              (flags_of-names a) (flags_of-assigned a h),
          run_search,
        )
        refl
