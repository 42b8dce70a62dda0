-- ===== src/Provider.antt =====
-- provider/: what the four providers share. A provider asks one address and turns the answer into
-- results. url.Values.Encode, http.NewRequest, the client, JSON and the parser are parameters.
pub mod Searxng
pub mod Gdelt
pub mod Duckduckgo
pub mod Startpage
pub mod Ranked
pub mod Builtin
mod Tests
use saka.Base.{
  ℕ, suc, ◌*◌, Bool, true, false, ◌||◌, String, Option, none, some, List, [], ◌∷◌, ℤ, pos, negsuc,
  leb, ◌==◌, Dict, is_empty, if◌then◌else◌,
}
use saka.Types.{second, Error, rate_limit, transport, status, bad_request, Outcome, ok, err}

pub record Answer : Type 0 where
  pub status_code : ℕ
  pub body : String

-- The world of a provider at one moment: `client` answers an address and a form.
pub record Web : Type 0 where
  pub encode : Dict String → String
  pub is_request : String → Bool
  pub client : String → String → Option Answer

-- The status of an answer: 429 and 403 are a refusal for `retry_after`, and only 200 is read.
unfoldable pub check_status : String → ℕ → Answer → Outcome String
check_status name retry_after a =
    if a.status_code == 429 || a.status_code == 403
    then err (rate_limit name retry_after)
    else if a.status_code == 200
    then ok a.body
    else err (status name a.status_code)

-- The request to an address with a form, and the body of the answer.
unfoldable pub ask : Web → String → ℕ → String → String → Outcome String
unfolding check_status
ask web name retry_after address form =
    if web.is_request address
    then elim (web.client address form) [
      | none ↦ err (transport name)
      | some a ↦ check_status name retry_after a
    ]
    else err (bad_request name)

-- `i >= max`
abbrev pub reaches : ℕ → ℤ → Bool
reaches i (pos max) = leb max i
reaches i (negsuc max) = true

-- `max > 0`
abbrev pub is_positive : ℤ → Bool
is_positive (pos max) = leb 1 max
is_positive (negsuc max) = false

abbrev pub or_else : String → String → String
or_else default s = if is_empty s then default else s
