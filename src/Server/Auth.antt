-- ===== src/Server/Auth.antt =====
-- server/auth.go: API keys with tiers and a bucket of requests for each key. A token is 6·10¹⁰
-- units, so that a nanosecond is worth as many units as the tier has requests per minute: exact
-- numbers in place of float64. The lock makes each call of `allow` one step.
pub mod Bound
use saka.Base.{
  ℕ, ◌+◌, ◌-◌, ◌*◌, ◌/◌, Bool, true, false, not, ◌&&◌, ◌||◌, String, Option, none, some, List, [],
  ◌∷◌, leb, min, is_empty, str_eq, Dict, get, put, if◌then◌else◌,
}
use saka.Strings.{cut_prefix}
use saka.Server.{Request}
use saka.Server.Usage.{UsageStats}

pub record KeyTier : Type 0 where
  pub rpm : ℕ
  pub can_stream : Bool

abbrev pub tiers : Dict KeyTier
tiers =
    ("free", record { rpm = 10; can_stream = false })
    ∷ ("standard", record { rpm = 120; can_stream = true })
    ∷ ("pro", record { rpm = 600; can_stream = true })
    ∷ []

abbrev pub free_tier : KeyTier
free_tier = record { rpm = 10; can_stream = false }

-- `tiers[name]`, or the free tier.
unfoldable pub tier_of : String → KeyTier
tier_of name = elim (get tiers name) [ none ↦ free_tier | some tier ↦ tier ]

pub record Bucket : Type 0 where
  pub tokens : ℕ
  pub last_fill : ℕ

abbrev pub token : ℕ
token = 60_000_000_000

unfoldable pub new_bucket : ℕ → ℕ → Bucket
new_bucket rpm now = record { tokens = rpm * token; last_fill = now }

unfoldable pub refill : ℕ → Bucket → ℕ → Bucket
refill rpm b now = record {
  tokens = min (rpm * token) (b.tokens + (now - b.last_fill) * rpm);
  last_fill = now;
}

pub record Taken : Type 0 where
  pub granted : Bool
  pub bucket : Bucket

unfoldable pub take_token : ℕ → Bucket → ℕ → Taken
unfolding refill
take_token rpm b now =
    let b' = refill rpm b now in
    if leb token b'.tokens
    then record { granted = true; bucket = record b' { tokens = b'.tokens - token } }
    else record { granted = false; bucket = b' }

pub record Allowed : Type 0 where
  pub granted : Bool
  pub buckets : Dict Bucket

-- allow: a bucket that is made now reads the clock at `created`, and the refill at `now`.
unfoldable pub allow : Dict Bucket → String → ℕ → ℕ → ℕ → Allowed
unfolding new_bucket
allow buckets key rpm created now =
    let b : Bucket = elim (get buckets key) [ none ↦ new_bucket rpm created | some b ↦ b ] in
    let t = take_token rpm b now in
    record { granted = t.granted; buckets = put buckets key t.bucket }

-- What the middleware does with a request.
pub data Decision : Type 0 where
  missing_key : Decision
  invalid_key : Decision
  too_many : KeyTier → Decision
  no_stream : Decision
  pass : String → KeyTier → Decision

-- The decision, and what the request leaves in the buckets and in the usage.
pub record Checked : Type 0 where
  pub decision : Decision
  pub buckets : Dict Bucket
  pub usage : UsageStats

-- The key of an Authorization header, if there is one that is not empty.
unfoldable pub bearer : String → Option String
unfolding cut_prefix
bearer header = elim (cut_prefix "Bearer " header) [
  | none ↦ none
  | some key ↦ if is_empty key then none else some key
]

-- Behind the lookup of the key.
unfoldable pub check_tier : Dict Bucket → UsageStats → Request → String → KeyTier → ℕ → ℕ → Checked
check_tier buckets usage r key tier created now =
    let a = allow buckets key tier.rpm created now in
    record {
      decision =
          if not a.granted
          then too_many tier
          else if str_eq r.path "/v1/stream" && not tier.can_stream
          then no_stream
          else pass key tier;
      buckets = a.buckets;
      usage = usage;
    }

-- The function of AuthMiddleware. A key source answers the tier of a key, and may count its use.
unfoldable pub authenticate :
    (UsageStats → String → Option String × UsageStats)
    → Dict Bucket
    → UsageStats
    → Request
    → ℕ
    → ℕ
    → Checked
unfolding bearer check_tier tier_of
authenticate lookup buckets usage r created now = elim (bearer r.authorization) [
  | none ↦ record { decision = missing_key; buckets = buckets; usage = usage }
  | some key ↦
      let (found, usage') = lookup usage key in
      elim found [
        | none ↦ record { decision = invalid_key; buckets = buckets; usage = usage' }
        | some name ↦ check_tier buckets usage' r key (tier_of name) created now
      ]
]

-- The header Retry-After of a refusal.
unfoldable pub retry_after : KeyTier → ℕ
retry_after tier = 60 / tier.rpm + 1
