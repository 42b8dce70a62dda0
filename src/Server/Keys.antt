-- ===== src/Server/Keys.antt =====
-- server/keys.go: signed API keys. ed25519, base64 and the JSON of a payload are parameters.

pub mod Sound
use saka.Base.{
  ℕ, Bool, true, false, not, ◌&&◌, String, ◌<>◌, Option, none, some, ltb, ◌==◌, str_eq,
  if◌then◌else◌, ℤ,
}
use saka.Strings.{cut}

pub record KeyPayload : Type 0 where
  pub id : String
  pub tier : String
  pub exp : ℕ
  pub n : ℤ

-- The libraries, with a pair of keys of ed25519: Sign and Verify.
pub record Crypto : Type 0 where
  pub marshal : KeyPayload → Option String
  pub unmarshal : String → Option KeyPayload
  pub encode : String → String
  pub decode : String → Option String
  pub sign : String → String
  pub verify : String → String → Bool

pub data KeyError : Type 0 where
  malformed : KeyError
  bad_base64 : KeyError
  bad_signature : KeyError
  bad_payload : KeyError
  expired : KeyError

pub data Verified : Type 0 where
  valid : KeyPayload → Verified
  invalid : KeyError → Verified

-- The two parts of a key behind its version, of strings.SplitN(key, ".", 3).
unfoldable pub parts : String → Option (String × String)
unfolding cut
parts key =
    let (version, rest) = cut 46 key in
    elim rest [
      | none ↦ none
      | some rest ↦
          let (body, sig) = cut 46 rest in
          elim sig [
            | none ↦ none
            | some sig ↦ if str_eq version "sk-1" then some (body, sig) else none
          ]
    ]

module _ (c : Crypto) where
  -- SignKey; `none` is the error of Marshal.
  unfoldable pub sign_key : KeyPayload → Option String
  sign_key p = elim (c.marshal p) [
    | none ↦ none
    | some body ↦ some ("sk-1." <> (c.encode body <> ("." <> c.encode (c.sign body))))
  ]

  unfoldable pub check_expiry : KeyPayload → ℕ → Verified
  check_expiry p now = if not (p.exp == 0) && ltb p.exp now then invalid expired else valid p

  unfoldable pub check_signed : String → String → ℕ → Verified
  unfolding check_expiry
  check_signed body sig now =
      if c.verify body sig
      then elim (c.unmarshal body) [ none ↦ invalid bad_payload | some p ↦ check_expiry p now ]
      else invalid bad_signature

  -- VerifyKey at time `now`.
  unfoldable pub verify_key : String → ℕ → Verified
  unfolding parts
  verify_key key now = elim (parts key) [
    | none ↦ invalid malformed
    | some (b, s) ↦ elim (c.decode b) [
      | none ↦ invalid bad_base64
      | some body ↦ elim (c.decode s) [
        | none ↦ invalid bad_base64
        | some sig ↦ check_signed body sig now
      ]
    ]
  ]

  -- The Lookup of SignedKeys, with its set of revoked IDs.
  unfoldable pub signed_lookup : (String → Bool) → String → ℕ → Option String
  signed_lookup revoked key now = elim (verify_key key now) [
    | invalid e ↦ none
    | valid p ↦ if revoked p.id then none else some p.tier
  ]
