-- ===== src/Cli/Output.antt =====
-- cli/saka/main.go: what the commands print. The JSON of encoding/json, with the newline that an
-- Encoder ends it with, and the quoted text of %q are parameters.
use saka.Base.{ℕ, String, ◌<>◌, List, [], ◌∷◌, ltb, str_eq, if◌then◌else◌}
use saka.Types.{Result, Results, Page}
use saka.Tools.{decimal}

-- `results` and `page` are indented.
pub record Printing : Type 0 where
  pub quote : String → String
  pub result : Result → String
  pub results : Results → String
  pub page : Page → String

-- The verb %2d.
unfoldable pub padded : ℕ → String
unfolding decimal
padded n = if ltb n 10 then " " <> decimal n else decimal n

module _ (p : Printing) where
  unfoldable pub print_result : String → Result → String
  unfolding padded
  print_result format r =
      if str_eq format "json"
      then p.result r
      else if str_eq format "markdown"
      then decimal r.position
        <> (". **[" <> (r.title <> ("](" <> (r.url <> (")**\n   > " <> (r.snippet <> "\n\n"))))))
      else padded r.position
        <> (". " <> (r.title <> ("\n    " <> (r.url <> ("\n    " <> (r.snippet <> "\n\n"))))))

  unfoldable pub print_each : String → List Result → String
  unfolding print_result
  print_each format [] = ""
  print_each format (r ∷ rs) = print_result format r <> print_each format rs

  unfoldable pub print_results : String → Results → String
  unfolding print_each
  print_results format res =
      if str_eq format "json"
      then p.results res
      else if str_eq format "markdown"
      then "# Results for "
        <> (p.quote res.query
            <> (" _(via " <> (res.provider <> (")_\n\n" <> print_each format res.results))))
      else print_each format res.results

  -- The end of doFetch.
  unfoldable pub print_page : String → Page → String
  print_page format page =
      if str_eq format "json"
      then p.page page
      else if str_eq format "markdown"
      then "# "
        <> (page.title <> ("\n\n_Source: " <> (page.url <> ("_\n\n" <> (page.text <> "\n")))))
      else page.text <> "\n"
