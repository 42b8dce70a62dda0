-- ===== src/Server/Usage.antt =====
-- server/usage.go: requests counted for each key. The lock makes each call one step.
use saka.Base.{
  ℕ, ◌+◌, ◌%◌, ◌^◌, not, ◌&&◌, String, Option, none, some, str_eq, is_empty, Dict, get, put,
  if◌then◌else◌,
}
use saka.Strings.{trim_prefix}

pub record KeyUsage : Type 0 where
  pub day : String
  pub searches : ℕ
  pub fetches : ℕ
  pub streams : ℕ
  pub errors4xx : ℕ
  pub errors5xx : ℕ
  pub bytes_out : ℕ
  pub last_seen : ℕ

abbrev pub UsageStats : Type 0
UsageStats = Dict KeyUsage

abbrev pub blank : String → ℕ → KeyUsage
blank day seen = record {
  day = day;
  searches = 0;
  fetches = 0;
  streams = 0;
  errors4xx = 0;
  errors5xx = 0;
  bytes_out = 0;
  last_seen = seen;
}

-- touch: `today` is the day of the two readings of the clock, `now` the last reading.
unfoldable pub touch : UsageStats → String → String → ℕ → UsageStats
touch u key today now = elim (get u key) [
  | none ↦ put u key (blank today now)
  | some ku ↦
      if str_eq ku.day today
      then put u key (record ku { last_seen = now })
      else put u key (blank today now)
]

-- Record
unfoldable pub record_usage : UsageStats → String → (KeyUsage → KeyUsage) → UsageStats
record_usage u key field = elim (get u key) [ none ↦ u | some ku ↦ put u key (field ku) ]

-- `n++` on an int64, as the 64 bits that it holds.
abbrev pub bump : ℕ → ℕ
bump n = (n + 1) % 2 ^ 64

abbrev pub add_search : KeyUsage → KeyUsage
add_search ku = record ku { searches = bump ku.searches }

abbrev pub add_fetch : KeyUsage → KeyUsage
add_fetch ku = record ku { fetches = bump ku.fetches }

abbrev pub add_stream : KeyUsage → KeyUsage
add_stream ku = record ku { streams = bump ku.streams }

abbrev pub add_4xx : KeyUsage → KeyUsage
add_4xx ku = record ku { errors4xx = bump ku.errors4xx }

abbrev pub add_5xx : KeyUsage → KeyUsage
add_5xx ku = record ku { errors5xx = bump ku.errors5xx }

-- What GET /v1/usage shows.
pub data Shown : Type 0 where
  all : UsageStats → Shown
  one : KeyUsage → Shown

-- Handler on a request's header: the key is what follows "Bearer ", or the whole header.
unfoldable pub show_usage : String → UsageStats → String → String → Shown
unfolding trim_prefix
show_usage admin_key u header today =
    let key = trim_prefix header "Bearer " in
    if str_eq key admin_key && not (is_empty admin_key)
    then all u
    else elim (get u key) [ some ku ↦ one ku | none ↦ one (blank today 0) ]

-- The Lookup of recordingKeySource.
unfoldable pub recording_lookup :
    (String → Option String) → String → ℕ → UsageStats → String → Option String × UsageStats
recording_lookup lookup today now u key = elim (lookup key) [
  | none ↦ (none, u)
  | some tier ↦ (some tier, touch u key today now)
]
