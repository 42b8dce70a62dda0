-- ===== src/Server/Mcp/Listed.antt =====
-- The tools that are declared and those that ExecuteTool runs.
use mathlib.Core.List.{Memᴰ}
use saka.Base.{
  ◌≡◌, ◌≢◌, refl, sym, ◌∙◌, ◌↔◌, inl, inr, false, String, List, map, str_eq, eq_iff, Bool-cases,
  Option-cases, arith,
}
use saka.Types.{Query, unknown_tool, Outcome-cases, err}
use saka.Types.Contract.{Searcher}
use saka.Tools.{Codec, tool_query, web_search, fetch_page, execute_tool}
use saka.Tools.Schemas.{Tool, OpenAiTool, openai_schemas, anthropic_schemas}
use saka.Server.Mcp.{tools_listed}

abbrev pub names : List Tool → List String
names = map (λ (t : Tool). t.name)

abbrev pub functions : List OpenAiTool → List Tool
functions = map (λ (t : OpenAiTool). t.function)

-- No search or fetch fails with the error for an unknown tool.
pub record IsPlain (engine : Searcher) : Type 0 where
  pub search : (q : Query) (name : String) → engine.search q ≢ err (unknown_tool name)
  pub fetch : (url name : String) → engine.fetch url ≢ err (unknown_tool name)

module _ (codec : Codec) (engine : Searcher) (plain : IsPlain engine) where
  web_search-known : (args name : String) → web_search codec engine args ≢ err (unknown_tool name)
  unfolding web_search
  web_search-known args name h = elim (Option-cases (codec.search_args args)) [
    | inl e ↦ ground arith
    | inr (a, e) ↦ elim (Outcome-cases (engine.search (tool_query a))) [
      | inl (res, e') ↦ ground arith
      | inr (x, e') ↦ plain.search (tool_query a) name (ground arith)
    ]
  ]

  fetch_page-known : (args name : String) → fetch_page codec engine args ≢ err (unknown_tool name)
  unfolding fetch_page
  fetch_page-known args name h = elim (Option-cases (codec.fetch_args args)) [
    | inl e ↦ ground arith
    | inr (url, e) ↦ elim (Outcome-cases (engine.fetch url)) [
      | inl (page, e') ↦ ground arith
      | inr (x, e') ↦ plain.fetch url name (ground arith)
    ]
  ]

  unknown_iff :
      (name args : String)
      → (execute_tool codec engine name args ≡ err (unknown_tool name))
        ↔ ¬ Memᴰ name (names anthropic_schemas)
  unfolding execute_tool
  unknown_iff name args = elim (Bool-cases (str_eq name "web_search")) [
    | inl e ↦
        let same : name ≡ "web_search" = (eq_iff name "web_search").0 e in
        (
          λ h. absurd (web_search-known args name (sym (rw (e, execute_tool) refl) ∙ h)),
          λ h. absurd (h (Memᴰ.head same)),
        )
    | inr e ↦ elim (Bool-cases (str_eq name "fetch_page")) [
      | inl e' ↦
          let same : name ≡ "fetch_page" = (eq_iff name "fetch_page").0 e' in
          (
            λ h. absurd (fetch_page-known args name (sym (rw (e, execute_tool, e') refl) ∙ h)),
            λ h. absurd (h (Memᴰ.tail (Memᴰ.head same))),
          )
      | inr e' ↦ ((λ h. unlisted e e'), λ h. rw (e, execute_tool, e') refl)
    ]
  ]
    where
      unlisted :
          str_eq name "web_search" ≡ false
          → str_eq name "fetch_page" ≡ false
          → ¬ Memᴰ name (names anthropic_schemas)
      unlisted e e' (Memᴰ.head same) = ground (arith, eq_iff name "web_search")
      unlisted e e' (Memᴰ.tail (Memᴰ.head same)) = ground (arith, eq_iff name "fetch_page")
      unlisted e e' (Memᴰ.tail (Memᴰ.tail m)) = elim m [ ]

-- A call of a tool is answered as that of an unknown tool exactly if no declaration names it, and
-- the declarations for OpenAI, for Anthropic and of MCP are of the same tools with the same
-- schemas, where the engine itself does not answer with that error.
pub execute_tool-listed :
    (codec : Codec) (engine : Searcher) (name args : String)
    → IsPlain engine
    → ((execute_tool codec engine name args ≡ err (unknown_tool name))
        ↔ ¬ Memᴰ name (names anthropic_schemas))
      × (functions openai_schemas ≡ anthropic_schemas)
      × (names tools_listed ≡ names anthropic_schemas)
      × (map (λ (t : Tool). t.schema) tools_listed ≡ map (λ (t : Tool). t.schema) anthropic_schemas)
execute_tool-listed codec engine name args plain =
    (unknown_iff codec engine plain name args, refl, refl, refl)
