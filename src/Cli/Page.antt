-- ===== src/Cli/Page.antt =====
-- cli/saka/main.go: the fetch command. The constructor of the engine is a parameter.
use saka.Base.{◌⊎◌, inl, inr, String, Option, List, [], ◌∷◌, ℤ}
use saka.Types.{ok, err}
use saka.Types.Contract.{Searcher}
use saka.Cli.Flags.{FlagSet, text, parse, Parsed, parsed, helped, refused, text_of}
use saka.Cli.Exit.{Fatal, not_one_url, failed, returned, shown_help, flag_error, fatal, Run, exits}
use saka.Cli.Output.{Printing, print_page}

abbrev pub fetch_flags : FlagSet
fetch_flags = ("config", text "") ∷ ("format", text "text") ∷ []

module _ (p : Printing) (parse_int : String → Option ℤ)
    (new_engine : String → Searcher ⊎ Fatal) where
  -- doFetch behind the parse of its flags.
  unfoldable pub fetch_one : FlagSet → List String → Run
  unfolding print_page text_of
  fetch_one fs (url ∷ []) = elim (new_engine (text_of fs "config")) [
    | inr x ↦ exits (fatal x)
    | inl e ↦ elim (e.fetch url) [
      | err x ↦ exits (fatal (failed x))
      | ok page ↦ record { stdout = print_page p (text_of fs "format") page; status = returned }
    ]
  ]
  fetch_one fs _ = exits (fatal not_one_url)

  unfoldable pub fetch_parsed : Parsed → Run
  unfolding fetch_one
  fetch_parsed helped = exits shown_help
  fetch_parsed (refused x) = exits (flag_error x)
  fetch_parsed (parsed fs rest) = fetch_one fs rest

  -- doFetch
  unfoldable pub do_fetch : List String → Run
  unfolding fetch_parsed
  do_fetch args = fetch_parsed (parse parse_int fetch_flags args)
