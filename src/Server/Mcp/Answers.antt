-- ===== src/Server/Mcp/Answers.antt =====
-- Which lines Serve of server/mcp.go answers.
use saka.Base.{
  ℕ, suc, ◌≡◌, refl, Bool, String, Option, none, some, List, [], ◌∷◌, map, is_empty, if◌then◌else◌,
  arith,
}
use saka.Types.{Error}
use saka.Types.Contract.{Searcher}
use saka.Server.Mcp.{Decoding, RpcResponse, respond, serve}

-- The lines that Serve reads before the context is done, without the empty ones.
abbrev pub lines_read : (ℕ → Bool) → ℕ → List String → List String
lines_read done i [] = []
lines_read done i (line ∷ lines) =
    let rest = lines_read done (suc i) lines in
    if done i then [] else if is_empty line then rest else line ∷ rest

-- The id that a response to the line has to carry: its own, or none where it is no request.
abbrev pub id_of : Decoding → String → String
id_of d line = elim (d.request line) [ none ↦ "" | some req ↦ req.id ]

respond-id :
    (d : Decoding) (engine : Searcher) (line : String) → (respond d engine line).id ≡ id_of d line
unfolding respond
respond-id d engine line = ground arith

-- Until the context is done, each line that is not empty has one response, in the order of the
-- lines and with the id of its request, or none where it is no request. So has a notification,
-- which the comment in the source and JSON-RPC 2.0 leave without a response.
pub serve-ids :
    (d : Decoding) (engine : Searcher) (done : ℕ → Bool) (failure : Option Error) (i : ℕ)
    (lines : List String)
    → map (λ (r : RpcResponse). r.id) (serve d engine done failure i lines).responses
      ≡ map (id_of d) (lines_read done i lines)
unfolding serve
serve-ids d engine done failure i [] = refl
serve-ids d engine done failure i (line ∷ lines) =
    ground (arith, serve-ids d engine done failure (suc i) lines, respond-id d engine line)
