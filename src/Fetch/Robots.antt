-- ===== src/Fetch/Robots.antt =====
-- fetch/robots.go: rules of robots.txt, cached for each host. url.Parse, the HTTP client and the
-- lower case of letters outside ASCII are parameters.
pub mod Rules
use Prim.Native.Char.{Char, code}
use Prim.Native.String.{char_at}
use saka.Base.{
  ℕ, suc, ◌+◌, ◌-◌, ◌*◌, Bool, true, false, not, ◌&&◌, ◌||◌, String, ◌<>◌, Option, none, some, List,
  [], ◌∷◌, ◌++◌, ltb, leb, ◌==◌, is_empty, str_eq, Dict, get, put, if◌then◌else◌,
}
use saka.Strings.{trim_space, has_prefix, trim_prefix, contains, split_lines}
use saka.World.{World}
use saka.Types.{second}

-- The parts of a parsed URL that the program reads.
pub record Url : Type 0 where
  pub scheme : String
  pub host : String
  pub path : String

-- An HTTP answer: `first_read` is what the first Read of the body returns.
pub record Response : Type 0 where
  pub status_code : ℕ
  pub body : String
  pub first_read : String

pub record HostRules : Type 0 where
  pub disallow : List String
  pub fetched_at : ℕ
  pub allow_all : Bool

abbrev pub RobotsCache : Type 0
RobotsCache = Dict HostRules

abbrev pub hour : ℕ
hour = 3600 * second

-- The variables of the parser's loop.
pub record Group : Type 0 where
  pub in_group : Bool
  pub applies : Bool
  pub disallow : List String

unfoldable pub start_group : String → String → Group → Group
start_group agent ua g = record g {
  in_group = true;
  applies =
      (if g.in_group && g.applies then false else g.applies) || str_eq ua "*" || contains agent ua;
}

unfoldable pub add_rule : String → Group → Group
add_rule p g =
    if g.in_group && g.applies
    then if is_empty p then g else record g { disallow = g.disallow ++ p ∷ [] }
    else g

-- One round of the loop, at a line in lower case and trimmed.
unfoldable pub parse_line : String → String → Group → Group
unfolding start_group add_rule
parse_line agent line g =
    if has_prefix line "user-agent:"
    then start_group agent (trim_space (trim_prefix line "user-agent:")) g
    else if has_prefix line "disallow:"
    then add_rule (trim_space (trim_prefix line "disallow:")) g
    else g

abbrev pub is_nil : List String → Bool
is_nil [] = true
is_nil (x ∷ xs) = false

pub record Permission : Type 0 where
  pub cache : RobotsCache
  pub allowed : Bool

-- Whether a cached entry may be used at time `now`.
unfoldable pub is_fresh : HostRules → ℕ → Bool
is_fresh hr now = not (ltb hour (now - hr.fetched_at))

unfoldable pub blocks : String → List String → Bool
blocks path [] = false
blocks path (prefix ∷ prefixes) = has_prefix path prefix || blocks path prefixes

unfoldable pub permits : HostRules → String → Bool
unfolding blocks
permits hr path = hr.allow_all || not (blocks path hr.disallow)

unfoldable pub robots_url : Url → String
robots_url u = u.scheme <> ("://" <> (u.host <> "/robots.txt"))

abbrev pub open_rules : ℕ → HostRules
open_rules now = record { disallow = []; fetched_at = now; allow_all = true }

abbrev pub read_rules : ℕ → List String → HostRules
read_rules now rules = record { disallow = rules; fetched_at = now; allow_all = is_nil rules }

module _ (fold : Char → Char) where
  -- unicode.ToLower; `fold` answers for the letters outside ASCII.
  unfoldable pub lower : Char → Char
  lower c =
      if leb b'A' (code c) && leb (code c) b'Z'
      then char_at "abcdefghijklmnopqrstuvwxyz" (code c - b'A')
      else if ltb (code c) 128
      then c
      else fold c

  -- strings.ToLower
  unfoldable pub to_lower : String → String
  unfolding lower
  to_lower String.[] = ""
  to_lower (String.◌∷◌ c s) = String.◌∷◌ (lower c) (to_lower s)

  unfoldable pub parse_lines : String → List String → Group → Group
  parse_lines agent [] g = g
  parse_lines agent (line ∷ lines) g =
      parse_lines agent lines (parse_line agent (trim_space (to_lower line)) g)

  unfoldable pub parse_rules : String → String → List String
  parse_rules agent text =
      (parse_lines agent (split_lines text)
        (record { in_group = false; applies = false; disallow = [] })).disallow

  -- fetchRules: the answer to the request of robots.txt, if there is one, read at time `now`.
  unfoldable pub rules_from : String → ℕ → Option Response → HostRules
  rules_from agent now none = open_rules now
  rules_from agent now (some resp) =
      if resp.status_code == 200
      then read_rules now (parse_rules agent resp.first_read)
      else open_rules now

  -- The rules to use: cached and fresh ones, or newly fetched ones, which are then cached.
  unfoldable pub rules_for :
      (ℕ → String → Option Response)
      → World
      → String
      → RobotsCache
      → Url
      → ℕ
      → HostRules × RobotsCache
  unfolding is_fresh
  rules_for client w agent rc u k =
      let fetched = rules_from agent (w.clock (1 + k)) (client (2 + k) (robots_url u)) in
      elim (get rc u.host) [
        | none ↦ (fetched, put rc u.host fetched)
        | some hr ↦ if is_fresh hr (w.clock k) then (hr, rc) else (fetched, put rc u.host fetched)
      ]

  -- Allowed, from event `k`.
  unfoldable pub allowed :
      (String → Option Url)
      → (ℕ → String → Option Response)
      → World
      → String
      → RobotsCache
      → String
      → ℕ
      → Permission
  unfolding permits
  allowed parse_url client w agent rc raw_url k = elim (parse_url raw_url) [
    | none ↦ record { cache = rc; allowed = false }
    | some u ↦
        let (hr, rc') = rules_for client w agent rc u k in
        record { cache = rc'; allowed = permits hr u.path }
  ]
