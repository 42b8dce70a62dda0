-- ===== src/Tools/Schemas.antt =====
-- tools/tools.go: the declarations of the tools for models. A JSON schema is an object's
-- properties with those that are required.
use saka.Base.{ℕ, String, Option, none, some, List, [], ◌∷◌}

pub record Property : Type 0 where
  pub name : String
  pub kind : String
  pub description : String
  pub default_value : Option ℕ

pub record Schema : Type 0 where
  pub properties : List Property
  pub required : List String

-- searchSchema, and the result of SearchSchema
abbrev pub search_schema : Schema
search_schema = record {
  properties =
      record {
        name = "query";
        kind = "string";
        description = "The search query text.";
        default_value = none;
      }
      ∷ record {
        name = "max_results";
        kind = "integer";
        description = "Maximum number of results to return (default 10).";
        default_value = some 10;
      }
      ∷ record {
        name = "site";
        kind = "string";
        description = "Restrict results to this domain, e.g. 'arxiv.org'.";
        default_value = none;
      }
      ∷ record {
        name = "vertical";
        kind = "string";
        description =
            "Search a specific vertical instead of general web results, e.g. 'news'. Omit for general web search.";
        default_value = none;
      }
      ∷ [];
  required = "query" ∷ [];
}

-- fetchSchema, and the result of FetchSchema
abbrev pub fetch_schema : Schema
fetch_schema = record {
  properties =
      record {
        name = "url";
        kind = "string";
        description = "The URL of the page to fetch and extract readable text from.";
        default_value = none;
      }
      ∷ [];
  required = "url" ∷ [];
}

-- A tool by its name, what it is for, and the schema of its arguments.
pub record Tool : Type 0 where
  pub name : String
  pub description : String
  pub schema : Schema

-- The calling format of OpenAI: a tool of a type.
pub record OpenAiTool : Type 0 where
  pub kind : String
  pub function : Tool

abbrev pub openai_schemas : List OpenAiTool
openai_schemas =
    record {
      kind = "function";
      function = record {
        name = "web_search";
        description =
            "Search the web for free. Returns structured results with title, URL, and snippet.";
        schema = search_schema;
      };
    }
    ∷ record {
      kind = "function";
      function = record {
        name = "fetch_page";
        description = "Fetch a web page and return its extracted readable article text.";
        schema = fetch_schema;
      };
    }
    ∷ []

abbrev pub anthropic_schemas : List Tool
anthropic_schemas =
    record {
      name = "web_search";
      description =
          "Search the web for free. Returns structured results with title, URL, and snippet.";
      schema = search_schema;
    }
    ∷ record {
      name = "fetch_page";
      description = "Fetch a web page and return its extracted readable article text.";
      schema = fetch_schema;
    }
    ∷ []
