-- ===== src/Fetch/Tests.antt =====
-- Tests of fetch/ and instances of its theorems.
use Prim.Native.Char.{Char}
use Prim.Native.String.{char_at}
use saka.Base.{
  ◌≡◌, refl, ◌⊎◌, inl, inr, true, false, ◌&&◌, String, none, some, [], ◌∷◌, arith, pos, str_eq,
  eq_iff, str_eq-ne, ◌==◌, if◌then◌else◌, get, All, length,
}
use saka.World.{settled, settled-Timely}
use saka.Types.{Page}
use saka.Html.{Node, Nodes, node, nil, cons, element, text, other}
use saka.Fetch.DiskCache
use saka.Fetch.DiskCache.{Codec, File, Files, read, write, gc, is_expired}
use saka.Fetch.Robots.{
  Url, Response, parse_rules, parse_lines, parse_line, to_lower, blocks, allowed, rules_for,
  rules_from,
}
use saka.Fetch.{
  Net, Fetcher, Fetch, fetched, fetch, new, set_disk_cache, fetch_below, fetch_net, fetch_stream,
  download, admit, bot_user_agent,
}
use saka.Fetch.Cache.{as_fetch, fetch-IsSound, fetch_stream-fetch}
use saka.Fetch.Again.{IsRepeated, fetch-again}
use saka.Fetch.DiskCache.Store.{read-write, ArePaths}
use saka.Fetch.Extract.Best.{find_best_container_lem, ScoresAtMost}
use saka.Fetch.Stream.{chunks_of}
use saka.Fetch.Stream.Chunks.{chunks_of_lem, texts, seqs, visible, upto, AllButLastFull}
use saka.Fetch.Robots.Rules.{blocks-capital}
use saka.Html.Walk.{preorder}
use mathlib.Core.List.{Memᴰ}
use saka.Types.Chunking.{join}
use saka.RateLimit
use saka.RateLimit.{wait, take_token}
use saka.Fetch.Extract.{
  extract, find_best_container, density, candidate_score, consider, best_of, title_of, normalize,
  collect_text, find_tag, find_meta, Score,
}
use saka.Fetch.Genuine.{IsFaithful, IsGenuine}
use saka.Fetch.Sound.{IsSound}

abbrev words : String → Node
words s = node text s [] nil

abbrev tag : String → Nodes → Node
tag t children = node element t [] children

abbrev go_doc : Node
go_doc = tag "html" (
    cons (tag "head" (cons (tag "title" (cons (words "Go") nil)) nil)) (
      cons
        (tag "body" (
          cons (tag "article" (cons (tag "p" (cons (words "The Go language") nil)) nil))
            (cons (tag "nav" (cons (words "menu") nil)) nil)))
        nil))

abbrev pub go_page : Page
go_page = record {
  url = "https://go.dev";
  title = "Go";
  text = "The Go language";
  published_at = 0;
}

-- A JSON of the pages of go.dev.
abbrev go_codec : Codec
go_codec = record {
  marshal = λ p.
      if str_eq p.url "https://go.dev" && str_eq p.title "Go" && p.published_at == 0
      then some p.text
      else none;
  unmarshal =
      λ b. some (record { url = "https://go.dev"; title = "Go"; text = b; published_at = 0 });
}

abbrev robots_txt : String
robots_txt = "User-agent: *\nDisallow: /private\n"

-- A network in which go.dev has a page and rules.
abbrev pub go_net : Net
go_net = record {
  parse_url = λ u. some (record { scheme = "https"; host = "go.dev"; path = "/" });
  is_request = λ u. true;
  client = λ k u.
      if str_eq u "https://go.dev/robots.txt"
      then some (record { status_code = 200; body = robots_txt; first_read = robots_txt })
      else some (record { status_code = 200; body = "<html>"; first_read = "<html>" });
  parse_html = λ b. some go_doc;
  rfc3339 = λ s. 0;
  fold = λ c. c;
  key = λ u. u;
  codec = go_codec;
}

pub go_net-IsFaithful : IsFaithful go_net
go_net-IsFaithful = record {
  round_trip = λ p q b e d. ground (arith, eq_iff p.url "https://go.dev", eq_iff p.title "Go");
  key_apart = λ u v e. e;
}

abbrev pub fetcher : Fetcher
fetcher = set_disk_cache (new (pos 2000) 3600 true 0) (record { dir = "/tmp"; ttl = pos 86400 })

fetches : (fetch go_net settled 2 fetcher "https://go.dev" 0).ending ≡ fetched go_page
unfolding fetch fetch_below fetch_net download admit new set_disk_cache wait take_token
    RateLimit.new allowed rules_for rules_from read extract find_best_container density
    candidate_score consider best_of title_of normalize collect_text find_tag find_meta get
    saka.Fetch.Robots.robots_url parse_rules parse_lines parse_line saka.Strings.has_prefix to_lower
    saka.Strings.trim_prefix saka.Html.walk
fetches = refl

pub fetcher-IsGenuine : IsGenuine go_net fetcher
unfolding new set_disk_cache get
fetcher-IsGenuine = record {
  cached = λ url e h. absurd (ground arith);
  on_disk = λ url file p h d. absurd (ground arith);
}

fetch-IsSound_example :
    IsSound go_net settled 2 "https://go.dev" (fetch go_net settled 2 fetcher "https://go.dev" 0)
fetch-IsSound_example =
    fetch-IsSound go_net settled 2 fetcher "https://go.dev" 0 go_net-IsFaithful fetcher-IsGenuine

fetch_stream-fetch_example :
    as_fetch go_net settled 2 "https://go.dev"
      (fetch_stream go_net settled 2 fetcher "https://go.dev" 3)
    ≡ fetch go_net settled 2 fetcher "https://go.dev" 0
unfolding new set_disk_cache get
fetch_stream-fetch_example =
    fetch_stream-fetch go_net settled 2 fetcher "https://go.dev"
      (record { scheme = "https"; host = "go.dev"; path = "/" }) 0 refl (inl refl) (inr refl)

fetch-again_example :
    IsRepeated go_net settled 2 fetcher "https://go.dev" 0 go_page
      (fetch go_net settled 2 fetcher "https://go.dev" 0)
fetch-again_example =
    fetch-again go_net settled 2 fetcher "https://go.dev" 0 go_page settled-Timely fetches

abbrev cache : DiskCache.DiskCache
cache = record { dir = "/tmp"; ttl = pos 86400 }

abbrev files : Files
files =
    ("a.json", record { bytes = "new"; mod_time = 90000 })
    ∷ ("b.json", record { bytes = "old"; mod_time = 1 })
    ∷ []

files-ArePaths : ArePaths files
unfolding get
files-ArePaths = (refl, (refl, tt))

abbrev written : Files
written = (gc (λ p. true) cache (write (λ u. u) go_codec cache files "a" go_page 90000) 90001).files

read-write_example :
    ((read (λ u. u) go_codec cache written "a" 90002).page ≡ some go_page)
    × ((read (λ u. u) go_codec cache written "b.json" 90002).page
        ≡ (read (λ u. u) go_codec cache files "b.json" 90002).page)
read-write_example =
    read-write (λ u. u) go_codec (λ p. true) cache files "a" "b.json" "The Go language" go_page
      90000 90001 90002 files-ArePaths (omega arith) refl refl (str_eq-ne "b.json" "a" refl)

find_best_container_lem_example :
    ((find_best_container go_doc ≡ go_doc)
      × All (ScoresAtMost (record { num = 0; den = 1 })) (preorder go_doc))
    ⊎ ((s : Score) × Memᴰ (find_best_container go_doc) (preorder go_doc)
        × (candidate_score (find_best_container go_doc) ≡ some s)
        × All (ScoresAtMost s) (preorder go_doc))
find_best_container_lem_example = find_best_container_lem go_doc

chunks_of_lem_example :
    (join (texts (chunks_of go_doc)) ≡ visible go_doc)
    × (seqs (chunks_of go_doc) ≡ upto (length (chunks_of go_doc)))
    × AllButLastFull (chunks_of go_doc)
chunks_of_lem_example = chunks_of_lem go_doc

-- A file that closes all of a site.
abbrev closed_txt : String
closed_txt = "User-agent: *\nDisallow: /\nDisallow: /Private\n"

abbrev small_a : Char → Char
small_a c = char_at "a" 0

closed :
    blocks
      (String.◌∷◌ (char_at "/" 0) (String.◌∷◌ (char_at "P" 0) "rivate"))
      (parse_rules small_a bot_user_agent closed_txt)
    ≡ true
unfolding blocks parse_rules parse_lines parse_line to_lower saka.Strings.split_lines
    saka.Strings.has_prefix saka.Strings.trim_space saka.Strings.trim_prefix
closed = refl

blocks-capital_example : Memᴰ "/" (parse_rules small_a bot_user_agent closed_txt)
blocks-capital_example =
    blocks-capital small_a bot_user_agent closed_txt (char_at "P" 0) "rivate" (λ d. refl) refl
      closed

-- Without the rule "/", the line `Disallow: /Private` does not close /Private.
opened :
    blocks "/Private" (parse_rules small_a bot_user_agent "User-agent: *\nDisallow: /Private")
    ≡ false
unfolding blocks parse_rules parse_lines parse_line to_lower saka.Strings.split_lines
    saka.Strings.has_prefix saka.Strings.trim_space saka.Strings.trim_prefix
opened = refl

-- A group for the name SakaBot itself does not apply.
unnamed : parse_rules small_a bot_user_agent "User-agent: SakaBot\nDisallow: /" ≡ []
unfolding parse_rules parse_lines parse_line to_lower saka.Strings.split_lines
    saka.Strings.has_prefix saka.Strings.trim_space saka.Strings.trim_prefix saka.Strings.contains
unnamed = refl
