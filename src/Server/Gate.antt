-- ===== src/Server/Gate.antt =====
-- server/http.go: the function of Handler, the mux behind its protection.
pub mod Guard
pub mod Isolation
use saka.Base.{
  ℕ, Bool, true, false, not, ◌&&◌, String, Option, none, some, List, [], ◌∷◌, is_empty, str_eq,
  Dict, get, put, if◌then◌else◌,
}
use saka.Strings.{cut_prefix}
use saka.Server.{Request, Reply}
use saka.Server.Auth.{
  Bucket, Decision, missing_key, invalid_key, too_many, no_stream, pass, authenticate, Checked,
}
use saka.Server.Usage.{UsageStats, recording_lookup}
use saka.Server.Http.{Site, Options, error_reply, route}

-- The state of the server between requests.
pub record Server : Type 0 where
  pub buckets : Dict Bucket
  pub usage : Option UsageStats

-- A moment: the times at which a new bucket and the refill read the clock, and today's date.
pub record Moment : Type 0 where
  pub created : ℕ
  pub now : ℕ
  pub today : String

pub record Served : Type 0 where
  pub reply : Reply
  pub server : Server

module _ (site : Site) (opts : Options) (m : Moment) where
  -- The mux, for a request whose context has the key `key`, "" for none.
  unfoldable pub serve_mux : Server → String → Request → Served
  unfolding route
  serve_mux s key r =
      let h = route site key s.usage opts.admin_key m.today r in
      record { reply = h.reply; server = record s { usage = h.usage } }

  -- The key source: recording where usage is tracked.
  abbrev pub recorded : Option UsageStats → UsageStats
  recorded none = []
  recorded (some u) = u

  abbrev pub if_tracked : Option UsageStats → UsageStats → Option UsageStats
  if_tracked none u = none
  if_tracked (some _) u = some u

  unfoldable pub key_source :
      (String → Option String)
      → Option UsageStats
      → UsageStats
      → String
      → Option String × UsageStats
  key_source lookup none u key = (lookup key, u)
  key_source lookup (some _) u key = recording_lookup lookup m.today m.now u key

  -- What follows the decision of the middleware.
  unfoldable pub follow : Server → Request → Decision → Served
  follow s r missing_key = record { reply = error_reply 401 "missing api key"; server = s }
  follow s r invalid_key = record { reply = error_reply 401 "invalid api key"; server = s }
  follow s r (too_many tier) = record { reply = error_reply 429 "rate limit exceeded"; server = s }
  follow s r no_stream = record {
    reply = error_reply 402 "streaming requires standard tier";
    server = s;
  }
  follow s r (pass key tier) = serve_mux s key r

  unfoldable pub serve_protected : (String → Option String) → Server → Request → Served
  unfolding key_source follow
  serve_protected lookup s r =
      let c =
        authenticate (key_source lookup s.usage) s.buckets (recorded s.usage) r m.created m.now in
      follow (record { buckets = c.buckets; usage = if_tracked s.usage c.usage }) r c.decision

  -- Whether the request carries the admin key.
  unfoldable pub is_admin : Request → Bool
  is_admin r = elim (cut_prefix "Bearer " r.authorization) [
    | none ↦ false
    | some t ↦ str_eq t opts.admin_key && not (is_empty opts.admin_key)
  ]

  -- The function of Handler.
  unfoldable pub serve : Server → Request → Served
  unfolding serve_protected is_admin
  serve s r = elim opts.keys [
    | none ↦ serve_mux s "" r
    | some lookup ↦
        if str_eq r.path "/health"
        then serve_mux s "" r
        else if str_eq r.path "/v1/usage" && is_admin r
        then serve_mux s "" r
        else serve_protected lookup s r
  ]
