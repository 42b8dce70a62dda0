-- ===== src/Lib.antt =====
-- A model of saka, a library, command line tool and server in Go that searches the web through free
-- providers and fetches pages as readable text.
--
-- The parts and how they interact. The engine (saka.go) holds a chain of providers for each
-- vertical and one fetcher. A chain (chain/) tries its providers in order, each behind a token
-- bucket (ratelimit/), with retries, pauses and a circuit breaker. The fetcher (fetch/) answers
-- from memory, then from a directory, then from the network, behind a bucket and robots.txt, and
-- extracts the text of a page as a whole or as a stream of chunks. The server (server/) puts the
-- engine behind HTTP, with API keys, tiers and usage counters, and behind JSON-RPC over lines of
-- text, where tools/ carries out the calls. types/ has the shared data and the registry of providers,
-- which the providers (provider/) enter as the program starts. The commands (cli/saka) make an
-- engine from a configuration file and search, fetch or serve with it, or sign API keys.
--
-- Which file models which part:
--   Types, Types/Registry, Types/Contract   types/types.go, types/registry.go
--   RateLimit                               ratelimit/ratelimit.go: New, Wait
--   Chain                                   chain/chain.go: New, Search, isOpen, recordFailure
--   Config, Config/Load                     saka.go: Config, DefaultConfig, Validate, LoadConfig
--   Engine                                  saka.go: New, Search, SearchStream
--   Strings                                 the functions of Go's strings package that are called
--   Html                                    internal/htmd/htmd.go, and the tree of html.Node
--   Fetch                                   fetch/fetch.go: New, Fetch, FetchStream
--   Fetch/Concurrent                        fetch/fetch.go: calls of Fetch at the same time
--   Fetch/Robots                            fetch/robots.go: Allowed, fetchRules
--   Fetch/DiskCache                         fetch/diskcache.go: Get, Put, GC
--   Fetch/Extract, Fetch/Stream             fetch/extract.go, fetch/stream.go
--   Provider/Searxng, Provider/Gdelt        provider/searxng, provider/gdelt
--   Provider/Duckduckgo, Provider/Startpage provider/duckduckgo, provider/startpage
--   Server/Auth, Server/Keys, Server/Usage  server/auth.go, server/keys.go, server/usage.go
--   Server/Http, Server/Gate                server/http.go: the handlers and mux, Handler
--   Provider/Builtin                        provider/: the init functions and factories
--   Server/Mcp, Tools, Tools/Schemas        server/mcp.go, tools/tools.go
--   Cli/Flags                               Go's package flag, with which the commands are parsed
--   Cli/Search, Cli/Page, Cli/Output        cli/saka/main.go: runSearch, doFetch, what they print
--   Cli/Setup, Cli/Serve, Cli/Main          cli/saka/main.go: loadEngine, doServe, main
--   Cli/Keys, Cli/Files                     cli/saka/keys.go and the files it works on
-- Names are those of the source in the spelling of this language: recordFailure is
-- record_failure. The modules below a part state what holds of it; its tests are in Tests.
--
-- State and time. Stateful code takes its state and returns the new one. What a run takes from
-- outside, the clock, the choices of select, random numbers and the answers of providers and
-- of the network, is a function of the number of the event (World), so that all such functions
-- together are all runs. What a mutex guards is one step. A search is modelled as if no other
-- ran at the same time; the theorems on buckets and breakers range over the steps of any number of
-- goroutines in the order in which they get the lock. Fetch is modelled both alone (Fetch) and
-- as moves between its locks, which the moves of other calls may interleave (Fetch/Concurrent).
--
-- Numbers. Times count nanoseconds. Rates and tokens, float64 in the source, are exact scaled
-- numbers: thousandths of a request per second in RateLimit and Config, a sixtieth of 10⁻⁹ of a
-- request in Server/Auth; the scores of Fetch/Extract are fractions. The shift of a backoff and
-- the counters of usage wrap at 64 bits.
-- Texts are sequences of code points; lengths that the source counts in bytes are in bytes.
--
-- Fuel. The loop of Wait runs on fuel, and every search and fetch passes the fuel on; 2 rounds are
-- enough wherever the bucket has room for a token, and a wait that has none ends only by its
-- context. All other loops are structural, but for those of splitChunks and of %d, whose fuel is
-- the length of the text and the number itself.
--
-- Parameters, for code that is not in the repository: the HTTP client, url.Parse, the parser of
-- golang.org/x/net/html, time.Parse, the syntax of JSON, base64, sha256, ed25519 and strconv.
--
-- Not modelled: HTTP headers and user agents, the rendering of the server's replies as JSON or
-- Markdown, the texts of messages on standard error, and the listener of net/http. To a chain a
-- provider is any function of the event and the query; Provider/Builtin has those of the program.
-- A file is written whole or not at all. Searches at the same time are not modelled.
pub mod Base
pub mod Chain
pub mod Cli
pub mod Config
pub mod Engine
pub mod Fetch
pub mod Html
pub mod Provider
pub mod RateLimit
pub mod Server
pub mod Strings
pub mod Tools
pub mod Types
pub mod World
