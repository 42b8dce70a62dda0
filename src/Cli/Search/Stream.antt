-- ===== src/Cli/Search/Stream.antt =====
-- The search command with and without --stream.
use saka.Base.{
  ◌≡◌, ◌≢◌, refl, sym, subst, ◌⊎◌, inl, inr, Bool, true, false, ◌||◌, String, Option, none, List,
  [], ◌∷◌, ℤ, str_eq, get, put, get-put, eq_iff, Bool-cases, arith,
}
use saka.Types.{Query, Results, Outcome, Outcome-cases, ok, err}
use saka.Types.Contract.{Searcher}
use saka.Chain
use saka.Chain.{Searched}
use saka.Engine.{stream_outcome}
use saka.Cli.Flags.{
  FlagSet, switch, Parsed, parsed, helped, refused, parse, text_of, switch_of, number_of,
}
use saka.Cli.Flags.Compared.{AreAlike, EndAlike, parse-EndAlike}
use saka.Cli.Exit.{Fatal, Run}
use saka.Cli.Output.{Printing, print_results}
use saka.Cli.Search.{
  search_flags, query_of, stream_search, batch_search, search_with, search_for, search_parsed,
  run_search,
}

-- The end of a search of the engine, as its interface answers it.
abbrev as_searched : Outcome Results → Searched
as_searched (ok res) = Chain.success res
as_searched (err x) = Chain.failure x

-- An engine whose streams carry what its searches answer, as those of saka.go do while the
-- context goes on.
abbrev pub IsStreaming : Searcher → Type 0
IsStreaming e = (q : Query) → e.search_stream q ≡ stream_outcome none (as_searched (e.search q))

abbrev pub AreStreaming : (String → Searcher ⊎ Fatal) → Type 0
AreStreaming new_engine = (path : String) (e : Searcher) → new_engine path ≡ inl e → IsStreaming e

-- The formats in which a batch is more than its results one by one.
abbrev pub is_framed : String → Bool
is_framed format = str_eq format "json" || str_eq format "markdown"

-- Equal runs, or, in a framed format, runs that end alike.
abbrev pub Agree : Bool → Run → Run → Type 0
Agree false a b = a ≡ b
Agree true a b = a.status ≡ b.status

Agree-refl : (framed : Bool) (a : Run) → Agree framed a a
Agree-refl true a = refl
Agree-refl false a = refl

Agree-sym : (framed : Bool) (a b : Run) → Agree framed a b → Agree framed b a
Agree-sym true a b h = sym h
Agree-sym false a b h = sym h

apart : (s t : String) → str_eq s t ≡ false → s ≢ t
apart s t h = ground (arith, eq_iff s t)

-- What the flags but the switch say.
module _ (fs gs : FlagSet) (a : AreAlike "stream" fs gs) where
  text_of-AreAlike : (name : String) → name ≢ "stream" → text_of fs name ≡ text_of gs name
  unfolding text_of
  text_of-AreAlike name ne = rw (a.others name ne, text_of) refl

  query_of-AreAlike : (words : List String) → query_of fs words ≡ query_of gs words
  unfolding query_of number_of text_of
  query_of-AreAlike words =
      rw
        (
          a.others "n" (apart "n" "stream" refl),
          a.others "site" (apart "site" "stream" refl),
          a.others "vertical" (apart "vertical" "stream" refl),
          query_of,
          number_of,
          text_of,
        )
        refl

-- The format that a parsed command line asks for.
unfoldable pub format_in : Parsed → String
format_in (parsed fs rest) = text_of fs "format"
format_in _ = "table"

abbrev streaming_flags : FlagSet
streaming_flags = put search_flags "stream" (switch true)

streaming-AreAlike : AreAlike "stream" streaming_flags search_flags
unfolding get put
streaming-AreAlike = record {
  others = λ name ne.
      ground (arith, get-put search_flags "stream" name (switch true), eq_iff "stream" name);
  left_switch = (true, refl);
  right_switch = (false, refl);
}

module _ (p : Printing) where
  stream_search-Agree :
      (e : Searcher) (q : Query) (format : String)
      → IsStreaming e
      → Agree (is_framed format) (stream_search p e q format) (batch_search p e q format)
  unfolding stream_search batch_search print_results stream_outcome
  stream_search-Agree e q format h = elim (Outcome-cases (e.search q)) [
    | inr (x, e') ↦ rw (h q, stream_search, e', batch_search) (Agree-refl (is_framed format) _)
    | inl (res, e') ↦ elim (Bool-cases (str_eq format "json")) [
      | inl j ↦ rw (j) (rw (h q, stream_search, e', batch_search) refl)
      | inr j ↦ elim (Bool-cases (str_eq format "markdown")) [
        | inl m ↦ rw (j, m) (rw (h q, stream_search, e', batch_search) refl)
        | inr m ↦ rw (j, m) (rw (h q, stream_search, e', batch_search, j, m) refl)
      ]
    ]
  ]

  module _ (parse_int : String → Option ℤ) (new_engine : String → Searcher ⊎ Fatal) where
    search_with-Agree :
        (b c : Bool) (format : String) (q : Query) (engine : Searcher ⊎ Fatal)
        → ((e : Searcher) → engine ≡ inl e → IsStreaming e)
        → Agree
            (is_framed format)
            (search_with p b format q engine)
            (search_with p c format q engine)
    unfolding search_with
    search_with-Agree b c format q (inr x) h = Agree-refl (is_framed format) _
    search_with-Agree true true format q (inl e) h = Agree-refl (is_framed format) _
    search_with-Agree true false format q (inl e) h = stream_search-Agree e q format (h e refl)
    search_with-Agree false true format q (inl e) h =
        Agree-sym (is_framed format) _ _ (stream_search-Agree e q format (h e refl))
    search_with-Agree false false format q (inl e) h = Agree-refl (is_framed format) _

    -- Flags that differ only at the switch.
    search_for-Agree :
        (fs gs : FlagSet) (rest : List String)
        → AreStreaming new_engine
        → AreAlike "stream" fs gs
        → Agree
            (is_framed (text_of gs "format"))
            (search_for p parse_int new_engine fs rest)
            (search_for p parse_int new_engine gs rest)
    unfolding search_for
    search_for-Agree fs gs [] h a = Agree-refl (is_framed (text_of gs "format")) _
    search_for-Agree fs gs (word ∷ words) h a =
        rw
          (
            text_of-AreAlike fs gs a "config" (apart "config" "stream" refl),
            search_for,
            text_of-AreAlike fs gs a "format" (apart "format" "stream" refl),
            query_of-AreAlike fs gs a (word ∷ words),
          )
          (search_with-Agree (switch_of fs "stream") (switch_of gs "stream") (text_of gs "format")
            (query_of gs (word ∷ words)) (new_engine (text_of gs "config"))
            (h (text_of gs "config")))

    search_parsed-Agree :
        (r s : Parsed)
        → AreStreaming new_engine
        → EndAlike "stream" r s
        → Agree
            (is_framed (format_in s))
            (search_parsed p parse_int new_engine r)
            (search_parsed p parse_int new_engine s)
    unfolding search_parsed format_in
    search_parsed-Agree (parsed fs rest) (parsed gs rest') h e =
        subst
          (λ xs.
            Agree (is_framed (text_of gs "format")) (search_for p parse_int new_engine fs rest)
              (search_for p parse_int new_engine gs xs))
          e.1 (search_for-Agree fs gs rest h e.0)
    search_parsed-Agree (parsed fs rest) helped h e = absurd e
    search_parsed-Agree (parsed fs rest) (refused x) h e = absurd e
    search_parsed-Agree helped s h e = rw e (Agree-refl (is_framed "table") _)
    search_parsed-Agree (refused x) s h e = rw e (Agree-refl (is_framed "table") _)

    -- With --stream in front of a command line, the search command prints the same and ends alike,
    -- but for the formats json and markdown, where it still ends alike, if the streams of the
    -- engine carry what its searches answer.
    pub run_search-stream :
        (args : List String)
        → AreStreaming new_engine
        → Agree
            (is_framed (format_in (parse parse_int search_flags args)))
            (run_search p parse_int new_engine ("--stream" ∷ args))
            (run_search p parse_int new_engine args)
    unfolding run_search parse get
    run_search-stream args h =
        let later : parse parse_int search_flags ("--stream" ∷ args)
            ≡ parse parse_int streaming_flags args =
          refl in
        rw (later, run_search)
          (search_parsed-Agree (parse parse_int streaming_flags args)
            (parse parse_int search_flags args) h
            (parse-EndAlike "stream" parse_int streaming_flags search_flags args
              streaming-AreAlike))
