-- ===== src/Server/Tests.antt =====
-- Tests of server/ and instances of its theorems.
use saka.Base.{
  ◌+◌, ◌-◌, ◌*◌, ◌≤◌, ◌≡◌, refl, ◌↔◌, ◌⊎◌, inl, Bool, true, false, not, ◌&&◌, ◌||◌, ◌<>◌, String,
  Option, none, some, [], ◌∷◌, pos, map, str_eq, eq_iff, ltb, ◌==◌, if◌then◌else◌, get, arith,
}
use mathlib.Core.List.{Memᴰ}
use saka.RateLimit.Bucket.{last_time}
use saka.Types.{ok, err, status, unknown_tool}
use saka.Server.{Request}
use saka.Server.Mcp
use saka.Server.Mcp.{Decoding, RpcResponse}
use saka.Server.Mcp.Listed.{names, functions, execute_tool-listed}
use saka.Server.Mcp.{tools_listed}
use saka.Tools.{Codec, execute_tool}
use saka.Tools.Schemas.{Tool, openai_schemas, anthropic_schemas}
use saka.Server.Mcp.Answers.{id_of, lines_read, serve-ids}
use saka.Server.Auth.{token, allow, authenticate, take_token}
use saka.Server.Auth.Bound.{run, run_bound}
use saka.Server.Keys.{
  KeyPayload, Crypto, sign_key, verify_key, signed_lookup, valid, invalid, expired, parts,
}
use saka.Server.Keys.Sound.{verify_key-sign_key, verify_key-valid}
use saka.Server.Usage.{UsageStats, KeyUsage, blank}
use saka.Types.Contract.{Searcher, left}
use saka.Server.Http.{Site, Options, handle_search}
use saka.Server.Http.Counts.{IsChargedSearch, handle_search-Charged}
use saka.Server.Gate.{Server, Moment, serve, is_admin}
use saka.Server.Gate.Guard.{Verdict, serve-Verdict}
use saka.Server.Gate.Isolation.{Untouched, serve-Untouched}

run_bound_example :
    (run "k" 10 [] (5 ∷ 6 ∷ 7 ∷ [])).count * token
    ≤ 10 * token + (last_time 5 (6 ∷ 7 ∷ []) - 5) * 10
unfolding get
run_bound_example = run_bound "k" 10 [] 5 (6 ∷ 7 ∷ []) refl (omega arith, (omega arith, tt))

-- A payload, its JSON, and libraries that know these.
abbrev payload : KeyPayload
payload = record { id = "k_1"; tier = "pro"; exp = 100; n = pos 1 }

abbrev crypto : Crypto
crypto = record {
  marshal = λ p. some "{k_1}";
  unmarshal = λ s. if str_eq s "{k_1}" then some payload else none;
  encode = λ s. if str_eq s "{k_1}" then "e2tfMX0" else "c2ln";
  decode = λ s.
      if str_eq s "e2tfMX0" then some "{k_1}" else if str_eq s "c2ln" then some "sig" else none;
  sign = λ body. "sig";
  verify = λ body sig. str_eq body "{k_1}" && str_eq sig "sig";
}

abbrev signed : String
signed = "sk-1.e2tfMX0.c2ln"

is_signed : sign_key crypto payload ≡ some signed
unfolding sign_key
is_signed = refl

verify_key-sign_key_example :
    (verify_key crypto signed 50
      ≡ (if not (payload.exp == 0) && ltb payload.exp 50 then invalid expired else valid payload))
    × ((revoked : String → Bool)
        → (signed_lookup crypto revoked signed 50 ≡ (
            if (not (payload.exp == 0) && ltb payload.exp 50) || revoked "k_1"
            then none
            else some "pro")))
verify_key-sign_key_example =
    verify_key-sign_key crypto payload "{k_1}" signed 50 refl refl
      (refl, (refl, (refl, (refl, (refl, (refl, (refl, tt))))))) refl refl refl is_signed

accepted : verify_key crypto signed 50 ≡ valid payload
unfolding verify_key saka.Server.Keys.check_signed
accepted = refl

too_old : verify_key crypto signed 101 ≡ invalid expired
unfolding verify_key saka.Server.Keys.check_signed
too_old = refl

verify_key-valid_example :
    (bs : String × String) × (body : String) × (sig : String) × (parts signed ≡ some bs)
    × (crypto.decode bs.0 ≡ some body)
    × (crypto.decode bs.1 ≡ some sig)
    × (crypto.verify body sig ≡ true)
    × (crypto.unmarshal body ≡ some payload)
    × ((payload.exp ≡ 0) ⊎ (50 ≤ payload.exp))
verify_key-valid_example = verify_key-valid crypto signed 50 payload accepted

-- A server with one key.
abbrev engine : Searcher
engine = record {
  search = λ q. ok (record { query = q.text; results = []; provider = "searxng"; took_ms = 1 });
  fetch = λ u. err (status u 404);
  search_stream = λ q. record { items = []; ended = left };
  fetch_stream = λ u. record { items = []; ended = left };
}

abbrev site : Site
site = record { engine = engine; atoi = λ s. none; flusher = true; takes_close = false }

abbrev lookup : String → Option String
lookup key = if str_eq key "secret" then some "free" else none

abbrev opts : Options
opts = record { keys = some lookup; admin_key = "root" }

abbrev moment : Moment
moment = record { created = 1; now = 2; today = "2026-01-01" }

abbrev server : Server
server = record { buckets = []; usage = some [] }

abbrev request : Request
request = record {
  method = "GET";
  path = "/v1/search";
  authorization = "Bearer secret";
  param = λ name. if str_eq name "q" then "go" else "";
}

answers : (serve site opts moment server request).reply.status ≡ 200
unfolding serve authenticate saka.Server.Usage.recording_lookup allow take_token get
    saka.Server.Gate.serve_mux saka.Strings.trim_space saka.Server.Http.answer_search
answers = refl

-- The free tier may not stream a page.
gated : (serve site opts moment server (record request { path = "/v1/stream" })).reply.status ≡ 402
unfolding serve authenticate saka.Server.Usage.recording_lookup allow take_token get
gated = refl

-- It may stream a search.
not_gated :
    (serve site opts moment server (record request { path = "/v1/search/stream" })).reply.status
    ≡ 200
unfolding serve authenticate saka.Server.Usage.recording_lookup allow take_token get
    saka.Server.Gate.serve_mux saka.Strings.trim_space
not_gated = refl

serve-Verdict_example :
    Verdict site opts moment lookup server request (serve site opts moment server request)
serve-Verdict_example =
    serve-Verdict site opts moment lookup server request refl
      (λ e. ground (arith, eq_iff "/v1/search" "/health"))
      (inl (λ e. ground (arith, eq_iff "/v1/search" "/v1/usage")))

serve-Untouched_example : Untouched "other" server (serve site opts moment server request).server
serve-Untouched_example =
    serve-Untouched site opts moment server request "other" (λ e. ground (arith, eq_iff "other" ""))
      (λ e. ground (arith, eq_iff "Bearer secret" ("Bearer " <> "other")))

abbrev usage : UsageStats
usage = ("secret", blank "2026-01-01" 2) ∷ []

usage-known : get usage "secret" ≡ some (blank "2026-01-01" 2)
unfolding get
usage-known = refl

handle_search-Charged_example :
    IsChargedSearch site request "secret"
      (blank "2026-01-01" 2)
      (handle_search site "secret" (some usage) request)
handle_search-Charged_example =
    handle_search-Charged site "secret" (some usage) (blank "2026-01-01" 2)
      (λ e. ground (arith, eq_iff "secret" "")) usage-known request

-- A session of three lines, the first of which is no request.
abbrev decoding : Decoding
decoding = record {
  request = λ line.
      if str_eq line "{}"
      then some (record { id = "7"; method = "tools/list"; params = "" })
      else none;
  call = λ params. none;
  codec = record { search_args = λ a. none; fetch_args = λ a. none; date = λ t. "" };
}

serve-ids_example :
    map
      (λ (r : RpcResponse). r.id)
      (Mcp.serve decoding engine (λ i. false) none 0 ("x" ∷ "" ∷ "{}" ∷ [])).responses
    ≡ map (id_of decoding) (lines_read (λ i. false) 0 ("x" ∷ "" ∷ "{}" ∷ []))
serve-ids_example = serve-ids decoding engine (λ i. false) none 0 ("x" ∷ "" ∷ "{}" ∷ [])

abbrev plain_engine : Searcher
plain_engine = record {
  search = λ q. err (status "a" 500);
  fetch = λ url. err (status "a" 500);
  search_stream = λ q. record { items = []; ended = left };
  fetch_stream = λ url. record { items = []; ended = left };
}

abbrev no_codec : Codec
no_codec = record { search_args = λ s. none; fetch_args = λ s. some s; date = λ t. "" }

execute_tool-listed_example :
    ((execute_tool no_codec plain_engine "delete_page" "{}" ≡ err (unknown_tool "delete_page"))
      ↔ ¬ Memᴰ "delete_page" (names anthropic_schemas))
    × (functions openai_schemas ≡ anthropic_schemas)
    × (names tools_listed ≡ names anthropic_schemas)
    × (map (λ (t : Tool). t.schema) tools_listed ≡ map (λ (t : Tool). t.schema) anthropic_schemas)
execute_tool-listed_example =
    execute_tool-listed no_codec plain_engine "delete_page" "{}"
      (record { search = λ q name h. ground arith; fetch = λ url name h. ground arith })
