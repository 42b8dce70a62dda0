-- ===== src/Types/Contract.antt =====
-- The interface Searcher of types/types.go, and its streams.
use saka.Base.{String, List, ◌≡◌, refl, ◌⊎◌, inl, inr}
use saka.Types.{Error, Outcome, Query, Result, Results, Page, Chunk}

-- How a stream of the engine ends for a handler that reads it: the values in order, and then the
-- last value, an error, or nothing, because the context of the request is done.
pub data Ended (A : Type 0) : Type 0 where
  finished : A → Ended A
  broken : Error → Ended A
  left : Ended A

pub record Flow (A B : Type 0) : Type 0 where
  pub items : List A
  pub ended : Ended B

-- The engine at one moment.
pub record Searcher : Type 0 where
  pub search : Query → Outcome Results
  pub fetch : String → Outcome Page
  pub search_stream : Query → Flow Result Results
  pub fetch_stream : String → Flow Chunk Page

pub Ended-cases :
    {A : Type 0} (x : Ended A)
    → ((a : A) × (x ≡ finished a)) ⊎ ((e : Error) × (x ≡ broken e)) ⊎ (x ≡ left)
Ended-cases (finished a) = inl (a, refl)
Ended-cases (broken e) = inr (inl (e, refl))
Ended-cases left = inr (inr refl)
