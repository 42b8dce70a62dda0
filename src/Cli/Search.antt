-- ===== src/Cli/Search.antt =====
-- cli/saka/main.go: the search command. The constructor of the engine is a parameter, as it is
-- one of runSearch; so is strconv.ParseInt.
pub mod Stream
pub mod Words
pub mod CommandLine
use saka.Base.{◌⊎◌, inl, inr, Bool, false, String, Option, List, [], ◌∷◌, ℤ, pos, if◌then◌else◌}
use saka.Strings.{join_with}
use saka.Types.{Query, Result, Results, Outcome, ok, err}
use saka.Types.Contract.{Searcher, finished, broken, left}
use saka.Cli.Flags.{
  FlagSet, text, number, switch, parse, Parsed, parsed, helped, refused, text_of, number_of,
  switch_of,
}
use saka.Cli.Exit.{
  Fatal, no_query, failed, Status, returned, shown_help, flag_error, fatal, hangs, Run, exits,
}
use saka.Cli.Output.{Printing, print_each, print_results}

-- The flags that runSearch declares, with their defaults.
abbrev pub search_flags : FlagSet
search_flags =
    ("config", text "")
    ∷ ("n", number (pos 10))
    ∷ ("format", text "table")
    ∷ ("site", text "")
    ∷ ("vertical", text "")
    ∷ ("stream", switch false)
    ∷ []

unfoldable pub query_of : FlagSet → List String → Query
unfolding join_with text_of number_of
query_of fs words = record {
  text = join_with " " words;
  max_results = number_of fs "n";
  region = "";
  safe_search = false;
  site = text_of fs "site";
  vertical = text_of fs "vertical";
}

module _ (p : Printing) where
  -- streamSearch: with neither a last value nor an error, the select waits for good.
  unfoldable pub stream_search : Searcher → Query → String → Run
  unfolding print_each
  stream_search e q format =
      let flow = e.search_stream q in
      record {
        stdout = print_each p format flow.items;
        status = elim flow.ended [
          | finished res ↦ returned
          | broken x ↦ fatal (failed x)
          | left ↦ hangs
        ];
      }

  -- The end of runSearch without --stream.
  unfoldable pub batch_search : Searcher → Query → String → Run
  unfolding print_results
  batch_search e q format = elim (e.search q) [
    | err x ↦ exits (fatal (failed x))
    | ok res ↦ record { stdout = print_results p format res; status = returned }
  ]

  -- The end of runSearch, for the engine that was made or the error that ends the process.
  unfoldable pub search_with : Bool → String → Query → Searcher ⊎ Fatal → Run
  unfolding stream_search batch_search
  search_with streams format q (inr x) = exits (fatal x)
  search_with streams format q (inl e) =
      if streams then stream_search e q format else batch_search e q format

  module _ (parse_int : String → Option ℤ) (new_engine : String → Searcher ⊎ Fatal) where
    -- runSearch behind the parse of its flags.
    unfoldable pub search_for : FlagSet → List String → Run
    unfolding query_of search_with text_of switch_of
    search_for fs [] = exits (fatal no_query)
    search_for fs (word ∷ words) =
        search_with (switch_of fs "stream") (text_of fs "format") (query_of fs (word ∷ words))
          (new_engine (text_of fs "config"))

    -- With ExitOnError, Parse itself ends the process where it does not go through.
    unfoldable pub search_parsed : Parsed → Run
    unfolding search_for
    search_parsed helped = exits shown_help
    search_parsed (refused x) = exits (flag_error x)
    search_parsed (parsed fs rest) = search_for fs rest

    -- runSearch, with the fatal of doSearch on its error.
    unfoldable pub run_search : List String → Run
    unfolding search_parsed
    run_search args = search_parsed (parse parse_int search_flags args)
