-- ===== src/Cli/Serve.antt =====
-- cli/saka/main.go: the serve command, up to the server that it runs.
pub mod Keyed
mod Tests
use saka.Base.{
  ℕ, ◌⊎◌, inl, inr, Bool, false, String, Option, none, some, List, [], ◌∷◌, ℤ, ◌==◌, is_empty,
  if◌then◌else◌,
}
use saka.Strings.{trim_space}
use saka.Types.Contract.{Searcher}
use saka.Server.Keys.{signed_lookup}
use saka.Server.Http.{Options}
use saka.Server.Gate.{Server}
use saka.Server.Mcp
use saka.Cli.Flags.{
  FlagSet, text, switch, Parsed, parsed, helped, refused, parse, text_of, switch_of,
}
use saka.Cli.Exit.{
  Fatal, unreadable, bad_base64, key_size, failed, interrupted, Status, returned, shown_help,
  flag_error, fatal,
}
use saka.Cli.Files.{Disk, read_file}
use saka.Cli.Keys.{Ring, size, crypto_of}

-- The flags that doServe declares.
abbrev pub serve_flags : FlagSet
serve_flags =
    ("config", text "")
    ∷ ("mcp", switch false)
    ∷ ("addr", text ":8080")
    ∷ ("keys", text "")
    ∷ ("admin-key", text "")
    ∷ []

-- An HTTP server: `key` is the public key of its SignedKeys.
pub record Listening : Type 0 where
  pub engine : Searcher
  pub addr : String
  pub admin_key : String
  pub key : Option String

-- What doServe comes to: the end of the process, MCP over stdio, or an HTTP server.
pub data Service : Type 0 where
  ends : Status → Service
  speaks : Searcher → Service
  listens : Listening → Service

-- The end of the process behind ServeStdio.
unfoldable pub mcp_status : Mcp.Ended → Status
mcp_status (Mcp.end_of_input none) = returned
mcp_status (Mcp.end_of_input (some x)) = fatal (failed x)
mcp_status Mcp.cancelled = fatal interrupted

module _ (ring : Ring) where
  -- loadPublicKey
  unfoldable pub load_public_key : Disk → String → String ⊎ Fatal
  unfolding read_file trim_space size
  load_public_key d path = elim (read_file d path) [
    | none ↦ inr (unreadable path)
    | some content ↦ elim (ring.decode (trim_space content)) [
      | none ↦ inr bad_base64
      | some raw ↦ if size raw == 32 then inl raw else inr (key_size (size raw))
    ]
  ]

  -- The Options of a server, at time `now`; no ID is revoked.
  unfoldable pub options : Listening → ℕ → Options
  unfolding signed_lookup
  options l now = record {
    keys = elim l.key [
      | none ↦ none
      | some pk ↦ some (λ key. signed_lookup (crypto_of ring "" pk) (λ id. false) key now)
    ];
    admin_key = l.admin_key;
  }

  -- The server of NewWithOptions: usage is tracked where there is a key source.
  unfoldable pub new_server : Listening → Server
  new_server l = record { buckets = []; usage = elim l.key [ none ↦ none | some pk ↦ some [] ] }

  -- The part of doServe behind --mcp.
  unfoldable pub listen : FlagSet → Disk → Searcher → Service
  unfolding load_public_key text_of
  listen fs d e =
      if is_empty (text_of fs "keys")
      then listens (record {
        engine = e;
        addr = text_of fs "addr";
        admin_key = text_of fs "admin-key";
        key = none;
      })
      else elim (load_public_key d (text_of fs "keys")) [
        | inr x ↦ ends (fatal x)
        | inl pk ↦ listens (record {
          engine = e;
          addr = text_of fs "addr";
          admin_key = text_of fs "admin-key";
          key = some pk;
        })
      ]

  module _ (parse_int : String → Option ℤ) (new_engine : String → Searcher ⊎ Fatal) where
    unfoldable pub serve_parsed : Parsed → Disk → Service
    unfolding listen switch_of
    serve_parsed helped d = ends shown_help
    serve_parsed (refused x) d = ends (flag_error x)
    serve_parsed (parsed fs rest) d = elim (new_engine (text_of fs "config")) [
      | inr x ↦ ends (fatal x)
      | inl e ↦ if switch_of fs "mcp" then speaks e else listen fs d e
    ]

    -- doServe
    unfoldable pub do_serve : List String → Disk → Service
    unfolding serve_parsed
    do_serve args d = serve_parsed (parse parse_int serve_flags args) d
