-- ===== src/Cli/Declared.antt =====
-- cli/saka: the flags that the four commands declare, and those that they read.
use saka.Base.{◌≡◌, String, some, List, [], ◌∷◌, All}
use saka.Cli.Flags.{FlagSet, Parsed, parsed, helped, refused}
use saka.Cli.Flags.Kinds.{Kind, text_kind, number_kind, switch_kind, kind_in}

-- The flags whose values a command uses, with the types that it uses them at.
abbrev pub Reads : Type 0
Reads = List (String × Kind)

abbrev pub search_reads : Reads
search_reads =
    ("config", text_kind)
    ∷ ("n", number_kind)
    ∷ ("format", text_kind)
    ∷ ("site", text_kind)
    ∷ ("vertical", text_kind)
    ∷ ("stream", switch_kind)
    ∷ []

abbrev pub fetch_reads : Reads
fetch_reads = ("config", text_kind) ∷ ("format", text_kind) ∷ []

abbrev pub serve_reads : Reads
serve_reads =
    ("config", text_kind)
    ∷ ("mcp", switch_kind)
    ∷ ("addr", text_kind)
    ∷ ("keys", text_kind)
    ∷ ("admin-key", text_kind)
    ∷ []

abbrev pub keys_reads : Reads
keys_reads =
    ("tier", text_kind) ∷ ("priv", text_kind) ∷ ("exp-days", number_kind) ∷ ("n", number_kind) ∷ []

abbrev pub AreIn : Reads → FlagSet → Type 0
AreIn reads fs = All (λ (r : String × Kind). kind_in fs r.0 ≡ some r.1) reads

-- Where the parse goes through, the flags are there with their types.
abbrev pub AreGiven : Reads → Parsed → Type 0
AreGiven reads (parsed fs rest) = AreIn reads fs
AreGiven reads helped = Unit
AreGiven reads (refused x) = Unit
