-- ===== src/Server/Mcp.antt =====
-- server/mcp.go: JSON-RPC over lines of text. The lines are those of the scanner; the decoding of
-- a line and of the parameters of a call are parameters, and so is the context at each line.
pub mod Answers
pub mod Listed
use saka.Base.{
  ℕ, suc, ◌⊎◌, inl, inr, Bool, true, false, String, ◌<>◌, Option, none, some, List, [], ◌∷◌, ℤ,
  negsuc, is_empty, str_eq, if◌then◌else◌,
}
use saka.Types.{Error, Outcome, ok, err}
use saka.Types.Contract.{Searcher}
use saka.Tools.{Codec, execute_tool}
use saka.Tools.Schemas.{Tool, search_schema, fetch_schema}

-- A request; `id` is the raw JSON of its id.
pub record RpcRequest : Type 0 where
  pub id : String
  pub method : String
  pub params : String

pub record CallParams : Type 0 where
  pub name : String
  pub arguments : String

pub record RpcError : Type 0 where
  pub code : ℤ
  pub message : String

-- The results of dispatch.
pub data RpcResult : Type 0 where
  initialized : RpcResult
  nothing : RpcResult
  tools : List Tool → RpcResult
  content : String → RpcResult
  tool_error : Error → RpcResult

-- `id` is "" for a request without one.
pub record RpcResponse : Type 0 where
  pub id : String
  pub answer : RpcError ⊎ RpcResult

-- The decoding of a line and of the parameters of a call.
pub record Decoding : Type 0 where
  pub request : String → Option RpcRequest
  pub call : String → Option CallParams
  pub codec : Codec

-- The tools of tools/list.
abbrev pub tools_listed : List Tool
tools_listed =
    record {
      name = "web_search";
      description = "Search the web for free. Returns title, URL, snippet, position.";
      schema = search_schema;
    }
    ∷ record {
      name = "fetch_page";
      description = "Fetch a URL and return extracted readable article text.";
      schema = fetch_schema;
    }
    ∷ []

-- Why Serve returns.
pub data Ended : Type 0 where
  end_of_input : Option Error → Ended
  cancelled : Ended

pub record Session : Type 0 where
  pub responses : List RpcResponse
  pub ended : Ended

abbrev pub parse_error : RpcResponse
parse_error = record {
  id = "";
  answer = inl (record { code = negsuc 32699; message = "parse error" });
}

module _ (d : Decoding) (engine : Searcher) where
  unfoldable pub call_tool : String → RpcError ⊎ RpcResult
  call_tool params = elim (d.call params) [
    | none ↦ inl (record { code = negsuc 32601; message = "invalid params" })
    | some p ↦ elim (execute_tool d.codec engine p.name p.arguments) [
      | err x ↦ inr (tool_error x)
      | ok text ↦ inr (content text)
    ]
  ]

  unfoldable pub dispatch : String → String → RpcError ⊎ RpcResult
  unfolding call_tool
  dispatch method params =
      if str_eq method "initialize"
      then inr initialized
      else if str_eq method "notifications/initialized"
      then inr nothing
      else if str_eq method "tools/list"
      then inr (tools tools_listed)
      else if str_eq method "tools/call"
      then call_tool params
      else inl (record { code = negsuc 32600; message = "method not found: " <> method })

  -- The response to a line that is not empty.
  unfoldable pub respond : String → RpcResponse
  unfolding dispatch
  respond line = elim (d.request line) [
    | none ↦ parse_error
    | some req ↦ record { id = req.id; answer = dispatch req.method req.params }
  ]

  -- Serve from line `i` on; `done i` says whether the context is done at line i, and `failure` is
  -- the error of the scanner at the end.
  unfoldable pub serve : (ℕ → Bool) → Option Error → ℕ → List String → Session
  unfolding respond
  serve done failure i [] = record { responses = []; ended = end_of_input failure }
  serve done failure i (line ∷ lines) =
      let rest = serve done failure (suc i) lines in
      if done i
      then record { responses = []; ended = cancelled }
      else if is_empty line
      then rest
      else record { responses = respond line ∷ rest.responses; ended = rest.ended }
