-- ===== src/Types.antt =====
-- types/types.go: the contracts that every package shares. A Go channel that one goroutine fills
-- and closes is the list of the values sent on it. Times and durations count nanoseconds; the
-- zero time.Time is 0.
mod Tests
pub mod Chunking
pub mod Contract
pub mod Registry
use Prim.Native.Char.{Char}
use saka.Base.{
  ℕ, zero, suc, ◌+◌, ◌-◌, ◌*◌, String, Bool, true, false, List, [], ◌∷◌, ℤ, pos, le_zero, ltb,
  length, take, drop, is_empty, if◌then◌else◌, ◌++◌, ◌≡◌, refl, ◌⊎◌, inl, inr,
}

abbrev pub second : ℕ
second = 1_000_000_000

pub record Query : Type 0 where
  pub text : String
  pub max_results : ℤ
  pub region : String
  pub safe_search : Bool
  pub site : String
  pub vertical : String

unfoldable pub with_defaults : Query → Query
with_defaults q = if le_zero q.max_results then record q { max_results = pos 10 } else q

pub record Result : Type 0 where
  pub title : String
  pub url : String
  pub snippet : String
  pub source : String
  pub position : ℕ
  pub thumbnail_url : String
  pub width : ℤ
  pub height : ℤ

pub record Results : Type 0 where
  pub query : String
  pub results : List Result
  pub provider : String
  pub took_ms : ℕ

pub record Chunk : Type 0 where
  pub text : String
  pub seq : ℕ
  pub done : Bool
  pub err : String

abbrev pub chunk_size : ℕ
chunk_size = 900

pub record Page : Type 0 where
  pub url : String
  pub title : String
  pub text : String
  pub published_at : ℕ

-- The conversions []rune(s) and string(runes).
unfoldable pub runes : String → List Char
runes String.[] = []
runes (String.◌∷◌ c s) = c ∷ runes s

unfoldable pub from_runes : List Char → String
from_runes [] = ""
from_runes (c ∷ cs) = String.◌∷◌ c (from_runes cs)

unfoldable pub chunk_end : ℕ → ℕ → ℕ → ℕ
chunk_end size i n = let end = i + size in if ltb n end then n else end

-- The loop of splitChunks from index `i`, on fuel: `runes[i:end]` with `end` cut to the length.
unfoldable pub split_from : ℕ → ℕ → ℕ → List Char → List String
split_from zero size i rs = []
split_from (suc fuel) size i rs =
    let part = from_runes (take (chunk_end size i (length rs) - i) (drop i rs)) in
    let rest = split_from fuel size (i + size) rs in if ltb i (length rs) then part ∷ rest else []

unfoldable pub split_chunks : String → ℕ → List String
unfolding split_from runes from_runes chunk_end
split_chunks s size = split_from (length (runes s)) size 0 (runes s)

text_chunk : ℕ → String → Chunk
text_chunk i part = record { text = part; seq = i; done = false; err = "" }

unfoldable pub number_chunks : ℕ → List String → List Chunk
unfolding text_chunk
number_chunks i [] = []
number_chunks i (part ∷ parts) = text_chunk i part ∷ number_chunks (suc i) parts

abbrev pub done_chunk : Chunk
done_chunk = record { text = ""; seq = 0; done = true; err = "" }

pub data ChunkStream : Type 0 where
  no_text : ChunkStream
  stream : List Chunk → ChunkStream

unfoldable pub chunks : Page → ChunkStream
unfolding number_chunks split_chunks
chunks p =
    if is_empty p.text
    then no_text
    else stream (number_chunks 0 (split_chunks p.text chunk_size) ++ done_chunk ∷ [])

-- What can go wrong, by the place that reports it. `rate_limit` is types.RateLimitError,
-- `context_done` the error of a cancelled context; a message of fmt.Errorf is kept as the
-- values that it prints.
pub data Error : Type 0 where
  no_results : Error
  rate_limit : String → ℕ → Error
  context_done : Error
  bad_request : String → Error
  transport : String → Error
  status : String → ℕ → Error
  decode : String → Error
  no_vertical : String → Error
  bad_url : String → Error
  disallowed : String → Error
  origin_limited : Error
  bad_args : String → Error
  unknown_tool : String → Error
  no_url : String → Error

pub data Outcome {ℓ} (A : Type ℓ) : Type ℓ where
  ok : A → Outcome A
  err : Error → Outcome A

infixl 5 ◌>>=◌
abbrev pub ◌>>=◌ {ℓ κ} : {A : Type ℓ} {B : Type κ} → Outcome A → (A → Outcome B) → Outcome B
ok a >>= f = f a
err e >>= f = err e

pub Outcome-cases {ℓ} :
    {A : Type ℓ} (o : Outcome A) → ((a : A) × (o ≡ ok a)) ⊎ ((x : Error) × (o ≡ err x))
Outcome-cases (ok a) = inl (a, refl)
Outcome-cases (err x) = inr (x, refl)

-- The interface types.Provider. A backend may answer one query differently each time that it is
-- asked: the number is that of the call.
pub record Provider : Type 0 where
  pub name : String
  pub search : ℕ → Query → Outcome (List Result)

-- `rps` in thousandths of a request per second.
pub record ProviderConfig : Type 0 where
  pub name : String
  pub url : String
  pub rps : ℤ
  pub retries : ℤ
  pub vertical : String
