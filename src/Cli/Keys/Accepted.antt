-- ===== src/Cli/Keys/Accepted.antt =====
-- The keys that the keys command prints, at a server that reads the public key written beside.
use Prim.Native.Char.{Char}
use text.Mathlib.TextLemmas.{nil-append, cons-append}
use saka.Base.{
  ℕ, zero, suc, ◌+◌, ◌-◌, ◌≤◌, ◌≡◌, refl, sym, ◌∙◌, ap, ◌⊎◌, inl, inr, true, false, not, ◌&&◌, ◌||◌,
  String, ◌<>◌, Option, none, some, List, [], ◌∷◌, ◌++◌, length, length-append, length-take, take,
  drop, ℤ, le_zero, ltb, ◌==◌, All, Bool-cases, Option-cases, arith, if◌then◌else◌,
}
use saka.Types.{runes, from_runes}
use saka.Types.Chunking.{runes-from_runes}
use saka.Server.Keys.{KeyPayload, sign_key, verify_key, check_signed, signed_lookup}
use saka.Server.Keys.Sound.{NoDot, verify_key-sign_key}
use saka.Cli.Exit.{returned, panicked, fatal, unsigned}
use saka.Cli.Keys.{
  Ring, size, zeros, public_of, crypto_of, SignedKey, signed, not_marshalled, panics, KeysRun,
  sign_with, payload, make_keys,
}
use saka.Cli.Keys.Saved.{IsCoding}

runes-append : (s t : String) → runes (s <> t) ≡ runes s ++ runes t
unfolding runes
runes-append String.[] t = rw nil-append refl
runes-append (String.◌∷◌ c s) t = rw cons-append (ap (◌∷◌ c) (runes-append s t))

size-append : (s t : String) → size (s <> t) ≡ size s + size t
unfolding size
size-append s t = rw runes-append (length-append (runes s) (runes t))

size-zeros : (n : ℕ) → size (zeros n) ≡ n
unfolding size zeros runes
size-zeros zero = refl
size-zeros (suc n) = size-append "\0" (zeros n) ∙ omega (arith, size-zeros n)

size-taken : (cs : List Char) → size (from_runes (take 32 cs)) ≤ 32
unfolding size
size-taken cs = rw (runes-from_runes (take 32 cs)) (omega (arith, length-take 32 cs))

-- A public key has 32 bytes.
pub public_of-size : (priv pk : String) → public_of priv ≡ some pk → size pk ≡ 32
unfolding public_of
public_of-size priv pk h = elim (Bool-cases (ltb (size priv) 32)) [
  | inl short ↦ absurd (ground arith)
  | inr long ↦
      let copied = from_runes (take 32 (drop 32 (runes priv))) in
      let same : copied <> zeros (32 - size copied) ≡ pk = ground arith in
      let few : size copied ≤ 32 = size-taken (drop 32 (runes priv)) in
      ap size (sym same)
      ∙ size-append copied (zeros (32 - size copied))
      ∙ ap (λ n. size copied + n) (size-zeros (32 - size copied))
      ∙ omega (arith, few)
]

-- What the keys need of the libraries: base64 comes back, with no space in the one alphabet and
-- no full stop in the other, and so does the JSON of a payload; JSON and signatures are bytes.
pub record IsLawful (ring : Ring) : Type 0 where
  pub coding : IsCoding ring
  pub url_back :
      (b : String) → coding.is_bytes b ≡ true → ring.url_decode (ring.url_encode b) ≡ some b
  pub url_dotless : (b : String) → coding.is_bytes b ≡ true → NoDot (ring.url_encode b)
  pub json :
      (p : KeyPayload) (body : String)
      → ring.marshal p ≡ some body
      → (ring.unmarshal body ≡ some p) × (coding.is_bytes body ≡ true)
  pub signatures : (priv body : String) → coding.is_bytes (ring.sign priv body) ≡ true

module _ (ring : Ring) where
  -- ed25519: what the private key signs, the public key verifies.
  abbrev pub IsPair : String → String → Type 0
  IsPair priv pk = (body : String) → ring.verify pk body (ring.sign priv body) ≡ true

  -- What a server with this public key answers for a key.
  abbrev pub tier_at : String → ℕ → String → Option String
  tier_at pk now key = signed_lookup (crypto_of ring "" pk) (λ id. false) key now

  abbrev pub IsFresh : ℤ → ℕ → Type 0
  IsFresh days now = (k : ℕ) → (le_zero days ≡ true) ⊎ (now ≤ ring.expiry k days)

  sign_with-signed :
      (priv key : String) (p : KeyPayload)
      → sign_with ring priv p ≡ signed key
      → (body : String) × (ring.marshal p ≡ some body)
        × (sign_key (crypto_of ring priv "") p ≡ some key)
  unfolding sign_with
  sign_with-signed priv key p h = elim (Option-cases (ring.marshal p)) [
    | inl e ↦ absurd (ground arith)
    | inr (body, e) ↦ elim (Bool-cases (size priv == 64)) [
      | inr s ↦ absurd (ground arith)
      | inl s ↦ elim (Option-cases (sign_key (crypto_of ring priv "") p)) [
        | inl e' ↦ absurd (ground arith)
        | inr (made, e') ↦ (body, e, ground arith)
      ]
    ]
  ]

  signed-tier :
      (priv pk key : String) (p : KeyPayload) (now : ℕ)
      → IsLawful ring
      → IsPair priv pk
      → sign_with ring priv p ≡ signed key
      → (not (p.exp == 0) && ltb p.exp now) ≡ false
      → tier_at pk now key ≡ some p.tier
  unfolding sign_key signed_lookup verify_key check_signed
  signed-tier priv pk key p now laws pair h fresh =
      let (body, json, made) = sign_with-signed priv key p h in
      let (unmarshals, bytes) = laws.json p body json in
      let c = crypto_of ring priv pk in
      let sound =
        verify_key-sign_key c p body key now json unmarshals (laws.url_dotless body bytes)
          (laws.url_back body bytes)
          (laws.url_back (ring.sign priv body) (laws.signatures priv body)) (pair body) made in
      let answer : signed_lookup c (λ id. false) key now
          ≡ (if (not (p.exp == 0) && ltb p.exp now) || false then none else some p.tier) =
        sound.1 (λ id. false) in
      answer ∙ rw fresh refl

  payload-fresh :
      (tier : String) (days : ℤ) (now k : ℕ)
      → IsFresh days now
      → let p = payload ring tier days k in (not (p.exp == 0) && ltb p.exp now) ≡ false
  unfolding payload
  payload-fresh tier days now k h = ground (arith, h k)

  pub make_keys-tier :
      (priv pk tier : String) (days : ℤ) (n k now : ℕ)
      → IsLawful ring
      → IsPair priv pk
      → IsFresh days now
      → (make_keys ring priv tier days n k).status ≡ returned
      → (length (make_keys ring priv tier days n k).lines ≡ n)
        × All (λ key. tier_at pk now key ≡ some tier) (make_keys ring priv tier days n k).lines
  unfolding make_keys
  make_keys-tier priv pk tier days zero k now laws pair fresh h = (refl, tt)
  make_keys-tier priv pk tier days (suc n) k now laws pair fresh h =
      by_key (sign_with ring priv (payload ring tier days k)) refl h
        (make_keys-tier priv pk tier days n (suc k) now laws pair fresh)
    where
      run : SignedKey → KeysRun
      run s = elim s [
        | not_marshalled ↦ record { lines = []; status = fatal unsigned }
        | panics ↦ record { lines = []; status = panicked }
        | signed key ↦
            let rest = make_keys ring priv tier days n (suc k) in
            record { lines = key ∷ rest.lines; status = rest.status }
      ]

      by_key :
          (s : SignedKey)
          → sign_with ring priv (payload ring tier days k) ≡ s
          → (run s).status ≡ returned
          → ((make_keys ring priv tier days n (suc k)).status ≡ returned
              → (length (make_keys ring priv tier days n (suc k)).lines ≡ n)
                × All
                    (λ key. tier_at pk now key ≡ some tier)
                    (make_keys ring priv tier days n (suc k)).lines)
          → (length (run s).lines ≡ suc n)
            × All (λ key. tier_at pk now key ≡ some tier) (run s).lines
      by_key not_marshalled e h' later = absurd (ground arith)
      by_key panics e h' later = absurd (ground arith)
      by_key (signed key) e h' later =
          let (count, all) = later h' in
          (
            ap suc count,
            (
              signed-tier priv pk key (payload ring tier days k) now laws pair e
                  (payload-fresh tier days now k fresh),
              all,
            ),
          )
