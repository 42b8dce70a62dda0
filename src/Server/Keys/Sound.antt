-- ===== src/Server/Keys/Sound.antt =====
-- What the keys of server/keys.go are worth.
use Prim.Native.Char.{code}
use text.Mathlib.TextLemmas.{nil-append, cons-append, append_assoc}
use saka.Base.{
  ℕ, ◌≤◌, ◌≡◌, refl, ap, sym, subst, ◌∙◌, ◌||◌, Bool, true, false, not, ◌&&◌, String, ◌<>◌, none,
  some, arith, ltb, ◌==◌, Option-cases, Bool-cases, inl, inr, ◌⊎◌, if◌then◌else◌,
}
use saka.Strings.{cut}
use saka.Server.Keys.{
  KeyPayload, Crypto, valid, invalid, expired, parts, sign_key, check_expiry, check_signed,
  verify_key, signed_lookup,
}

-- No full stop.
abbrev pub NoDot : String → Type 0
NoDot String.[] = Unit
NoDot (String.◌∷◌ c s) = ((code c == 46) ≡ false) × NoDot s

cut-before : (s t : String) → NoDot s → cut 46 (s <> ("." <> t)) ≡ (s, some t)
unfolding cut
cut-before String.[] t h = rw nil-append (rw cons-append (rw nil-append refl))
cut-before (String.◌∷◌ c s) t h = rw cons-append (ground (arith, cut-before s t h.1, h.0))

parts-signed : (b s : String) → NoDot b → parts ("sk-1." <> (b <> ("." <> s))) ≡ some (b, s)
unfolding parts
parts-signed b s h =
    let rest = b <> ("." <> s) in
    let version : cut 46 ("sk-1" <> ("." <> rest)) ≡ ("sk-1", some rest) =
      cut-before "sk-1" rest (refl, (refl, (refl, (refl, tt)))) in
    let same : "sk-1." <> rest ≡ "sk-1" <> ("." <> rest) = append_assoc "sk-1" "." rest in
    let version' : cut 46 ("sk-1." <> rest) ≡ ("sk-1", some rest) = ap (cut 46) same ∙ version in
    rw (version', parts, cut-before b s h, parts, version', cut-before b s h) refl

-- The key of SignKey passes VerifyKey with its payload until it expires, and a key without a time
-- of expiry passes for good; where it is not revoked, the lookup answers its tier until then.
-- This is so where the body's signature is the pair's, base64 and the JSON come back, and base64
-- has no full stop.
pub verify_key-sign_key :
    (c : Crypto) (p : KeyPayload) (body key : String) (now : ℕ)
    → c.marshal p ≡ some body
    → c.unmarshal body ≡ some p
    → NoDot (c.encode body)
    → c.decode (c.encode body) ≡ some body
    → c.decode (c.encode (c.sign body)) ≡ some (c.sign body)
    → c.verify body (c.sign body) ≡ true
    → sign_key c p ≡ some key
    → (verify_key c key now
        ≡ (if not (p.exp == 0) && ltb p.exp now then invalid expired else valid p))
      × ((revoked : String → Bool)
          → (signed_lookup c revoked key now ≡ (
              if (not (p.exp == 0) && ltb p.exp now) || revoked p.id then none else some p.tier)))
unfolding sign_key verify_key check_signed check_expiry signed_lookup
verify_key-sign_key c p body key now m u no_dot b b' v s =
    let made : "sk-1." <> (c.encode body <> ("." <> c.encode (c.sign body))) ≡ key = ground arith in
    let split : parts key ≡ some (c.encode body, c.encode (c.sign body)) =
      ap parts (sym made) ∙ parts-signed (c.encode body) (c.encode (c.sign body)) no_dot in
    let verified : verify_key c key now
        ≡ (if not (p.exp == 0) && ltb p.exp now then invalid expired else valid p) =
      rw (split, verify_key, b, verify_key, b', verify_key, v, u) refl in
    (verified, λ revoked. ground (arith, verified))

-- What passes VerifyKey is a signed payload that has not expired: the two parts of the key behind
-- its version decode to a body and to a signature that is one of the body, and the payload is
-- what the body reads as.
pub verify_key-valid :
    (c : Crypto) (key : String) (now : ℕ) (p : KeyPayload)
    → verify_key c key now ≡ valid p
    → (bs : String × String) × (body : String) × (sig : String) × (parts key ≡ some bs)
      × (c.decode bs.0 ≡ some body)
      × (c.decode bs.1 ≡ some sig)
      × (c.verify body sig ≡ true)
      × (c.unmarshal body ≡ some p)
      × ((p.exp ≡ 0) ⊎ (now ≤ p.exp))
unfolding verify_key check_signed check_expiry
verify_key-valid c key now p h = elim (Option-cases (parts key)) [
  | inl e ↦ absurd (ground arith)
  | inr (bs, e) ↦ elim (Option-cases (c.decode bs.0)) [
    | inl e' ↦ absurd (ground arith)
    | inr (body, e') ↦ elim (Option-cases (c.decode bs.1)) [
      | inl e'' ↦ absurd (ground arith)
      | inr (sig, e'') ↦ elim (Bool-cases (c.verify body sig)) [
        | inr bad ↦ absurd (ground arith)
        | inl good ↦ elim (Option-cases (c.unmarshal body)) [
          | inl e''' ↦ absurd (ground arith)
          | inr (q, e''') ↦ elim (Bool-cases (not (q.exp == 0) && ltb q.exp now)) [
            | inl old ↦ absurd (ground arith)
            | inr new ↦
                let same : q ≡ p = ground arith in
                (
                  bs,
                  body,
                  sig,
                  e,
                  e',
                  e'',
                  good,
                  e''' ∙ ap some same,
                  subst (λ r. (r.exp ≡ 0) ⊎ (now ≤ r.exp)) same (ground arith),
                )
          ]
        ]
      ]
    ]
  ]
]
