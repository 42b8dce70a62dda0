-- ===== src/Cli/Search/Words.antt =====
-- The search and fetch commands: arguments behind the first that is no flag, and failing runs.
use saka.Base.{
  ◌≡◌, ◌≢◌, refl, sym, ◌∙◌, ap, ◌⊎◌, inl, inr, Bool, true, false, ◌||◌, String, Option, none, some,
  List, [], ◌∷◌, ℤ, pos, ◌==◌, Bool-cases, arith, if◌then◌else◌,
}
use saka.Strings.{cut_prefix, has_prefix, join_with}
use saka.Types.{Query, Outcome-cases, ok, err}
use saka.Types.Contract.{Searcher}
use saka.Engine.{stream_outcome}
use saka.Cli.Flags.{
  FlagSet, Parsed, parsed, helped, refused, plain, classify, step, parse_from, parse, text_of,
  switch_of,
}
use saka.Cli.Exit.{Fatal, failed, returned, fatal, not_one_url, Run, exits, exit_code}
use saka.Cli.Output.{Printing, print_each, print_page}
use saka.Cli.Search.{
  query_of, stream_search, batch_search, search_with, search_for, search_parsed, run_search,
}
use saka.Cli.Search.Stream.{IsStreaming, AreStreaming}
use saka.Cli.Page.{fetch_one, fetch_parsed, do_fetch}

classify-word : (word : String) → has_prefix word "-" ≡ false → classify word ≡ plain
unfolding classify has_prefix cut_prefix
classify-word String.[] h = refl
classify-word (String.◌∷◌ c s) h = ground arith

module _ (parse_int : String → Option ℤ) where
  parse-word :
      (fs : FlagSet) (word : String) (args : List String)
      → has_prefix word "-" ≡ false
      → parse parse_int fs (word ∷ args) ≡ parsed fs (word ∷ args)
  unfolding parse parse_from step
  parse-word fs word args h = rw (classify-word word h, parse, parse_from, step) refl

-- A search of all the words, with the defaults of the flags.
abbrev pub plain_query : List String → Query
plain_query words = record {
  text = join_with " " words;
  max_results = pos 10;
  region = "";
  safe_search = false;
  site = "";
  vertical = "";
}

module _ (p : Printing) (parse_int : String → Option ℤ)
    (new_engine : String → Searcher ⊎ Fatal) where
  -- Whatever follows a first argument without a dash is no flag: the search command takes it into
  -- the text of the query and keeps the defaults of all flags, and the fetch command, given
  -- anything behind the URL, prints its usage and exits.
  pub run_search-words :
      (word other : String) (args : List String)
      → has_prefix word "-" ≡ false
      → (run_search p parse_int new_engine (word ∷ args)
          ≡ search_with p false "table" (plain_query (word ∷ args)) (new_engine ""))
        × (do_fetch p parse_int new_engine (word ∷ other ∷ args) ≡ exits (fatal not_one_url))
  unfolding run_search search_parsed search_for do_fetch fetch_parsed query_of text_of saka.Base.get
  run_search-words word other args h = (
    rw (parse-word parse_int _ word args h, run_search) refl,
    rw (parse-word parse_int _ word (other ∷ args) h, do_fetch) refl,
  )

-- A run that does not exit with 0 has printed nothing.
abbrev pub IsSilent : Run → Type 0
IsSilent r = (exit_code r.status ≡ some 0) ⊎ (r.stdout ≡ "")

module _ (p : Printing) where
  stream_search-IsSilent :
      (e : Searcher) (q : Query) (format : String)
      → IsStreaming e
      → IsSilent (stream_search p e q format)
  unfolding stream_search stream_outcome exit_code print_each
  stream_search-IsSilent e q format h = elim (Outcome-cases (e.search q)) [
    | inl (res, e') ↦ inl (rw (h q, stream_search, e') refl)
    | inr (x, e') ↦ inr (rw (h q, stream_search, e') refl)
  ]

  batch_search-IsSilent :
      (e : Searcher) (q : Query) (format : String) → IsSilent (batch_search p e q format)
  unfolding batch_search exit_code
  batch_search-IsSilent e q format = elim (Outcome-cases (e.search q)) [
    | inl (res, e') ↦ inl (rw (e', batch_search) refl)
    | inr (x, e') ↦ inr (rw (e', batch_search) refl)
  ]

  search_with-IsSilent :
      (b : Bool) (format : String) (q : Query) (made : Searcher ⊎ Fatal)
      → ((e : Searcher) → made ≡ inl e → IsStreaming e)
      → IsSilent (search_with p b format q made)
  unfolding search_with
  search_with-IsSilent b format q (inr x) h = inr refl
  search_with-IsSilent true format q (inl e) h = stream_search-IsSilent e q format (h e refl)
  search_with-IsSilent false format q (inl e) h = batch_search-IsSilent e q format

  module _ (parse_int : String → Option ℤ) (new_engine : String → Searcher ⊎ Fatal) where
    search_parsed-IsSilent :
        (r : Parsed) → AreStreaming new_engine → IsSilent (search_parsed p parse_int new_engine r)
    unfolding search_parsed search_for
    search_parsed-IsSilent helped h = inr refl
    search_parsed-IsSilent (refused x) h = inr refl
    search_parsed-IsSilent (parsed fs []) h = inr refl
    search_parsed-IsSilent (parsed fs (word ∷ words)) h =
        search_with-IsSilent (switch_of fs "stream") (text_of fs "format")
          (query_of fs (word ∷ words)) (new_engine (text_of fs "config")) (h (text_of fs "config"))

    fetch_one-IsSilent :
        (fs : FlagSet) (urls : List String) → IsSilent (fetch_one p parse_int new_engine fs urls)
    unfolding fetch_one exit_code
    fetch_one-IsSilent fs [] = inr refl
    fetch_one-IsSilent fs (url ∷ other ∷ urls) = inr refl
    fetch_one-IsSilent fs (url ∷ []) = by_engine (new_engine (text_of fs "config"))
      where
        by_engine :
            (made : Searcher ⊎ Fatal)
            → IsSilent (elim made [
              | inr x ↦ exits (fatal x)
              | inl e ↦ elim (e.fetch url) [
                | err x ↦ exits (fatal (failed x))
                | ok page ↦ record {
                  stdout = print_page p (text_of fs "format") page;
                  status = returned;
                }
              ]
            ])
        by_engine (inr x) = inr refl
        by_engine (inl e) = elim (Outcome-cases (e.fetch url)) [
          | inl (page, e') ↦ inl (rw e' refl)
          | inr (x, e') ↦ inr (rw e' refl)
        ]

    fetch_parsed-IsSilent : (r : Parsed) → IsSilent (fetch_parsed p parse_int new_engine r)
    unfolding fetch_parsed
    fetch_parsed-IsSilent helped = inr refl
    fetch_parsed-IsSilent (refused x) = inr refl
    fetch_parsed-IsSilent (parsed fs urls) = fetch_one-IsSilent fs urls

    -- A search or a fetch that does not exit with 0, whatever has failed, its flags, the engine or
    -- the call, has printed nothing on standard output, with --stream too where the streams of
    -- the engine carry what its searches answer.
    pub run_search-IsSilent :
        (args : List String)
        → AreStreaming new_engine
        → IsSilent (run_search p parse_int new_engine args)
          × IsSilent (do_fetch p parse_int new_engine args)
    unfolding run_search do_fetch
    run_search-IsSilent args h = (
      search_parsed-IsSilent (parse parse_int _ args) h,
      fetch_parsed-IsSilent (parse parse_int _ args),
    )
