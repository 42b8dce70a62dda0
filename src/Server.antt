-- ===== src/Server.antt =====
-- server/: API keys, usage and the handlers of the HTTP server. The parts of a request that the
-- program reads, and its replies; the handlers stand in the modules below.
pub mod Auth
pub mod Keys
pub mod Usage
pub mod Http
pub mod Gate
pub mod Mcp
mod Tests
use saka.Base.{ℕ, String, List}
use Usage.{Shown}
use saka.Types.{Error, Results, Result, Page, Chunk}

-- `param` is the query's Get, `authorization` the header, "" where it is absent.
pub record Request : Type 0 where
  pub method : String
  pub path : String
  pub authorization : String
  pub param : String → String

-- An event of a stream.
pub data Event : Type 0 where
  result_event : Result → Event
  results_event : Results → Event
  chunk_event : Chunk → Event
  end_event : Event
  error_event : Error → Event

-- What a handler writes: a plain text, the error of http.Error, JSON, Markdown or a stream.
pub data Body : Type 0 where
  plain : String → Body
  problem : String → Body
  failure : Error → Body
  results_json : Results → Body
  results_markdown : Results → Body
  page_json : Page → Body
  page_markdown : Page → Body
  usage_json : Shown → Body
  events : List Event → Body

pub record Reply : Type 0 where
  pub status : ℕ
  pub body : Body
