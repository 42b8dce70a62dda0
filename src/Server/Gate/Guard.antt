-- ===== src/Server/Gate/Guard.antt =====
-- What the middleware of server/auth.go lets through to the handlers.
use saka.Base.{
  ◌≡◌, ◌≢◌, refl, ap, subst, ◌∙◌, true, false, not, ◌&&◌, ◌<>◌, ◌⊎◌, inl, inr, String, Option, none,
  some, is_empty, str_eq, eq_iff, Option-cases, Bool-cases, arith,
}
use saka.Strings.{cut_prefix}
use saka.Strings.Prefix.{cut_prefix_iff}
use saka.Server.{Request}
use saka.Server.Auth.{
  missing_key, invalid_key, authenticate, Checked, bearer, allow, Allowed, tier_of, check_tier,
}
use saka.Server.Usage.{UsageStats, recording_lookup}
use saka.Server.Http.{Site, Options}
use saka.Server.Gate.{
  Server, Moment, Served, serve_mux, serve_protected, serve, is_admin, key_source, recorded,
  if_tracked, follow,
}

pub bearer_iff :
    (header key : String) → bearer header ≡ some key → (header ≡ "Bearer " <> key) × (key ≢ "")
unfolding bearer
bearer_iff header key h = elim (Option-cases (cut_prefix "Bearer " header)) [
  | inl e ↦ absurd (ground arith)
  | inr (k, e) ↦ elim (Bool-cases (is_empty k)) [
    | inl empty ↦ absurd (ground arith)
    | inr full ↦
        let same : k ≡ key = ground arith in
        (
          (cut_prefix_iff "Bearer " header key).0 (e ∙ ap some same),
          λ nothing. ground (arith, eq_iff k "", same ∙ nothing),
        )
  ]
]

bearer-of : (header key : String) → header ≡ "Bearer " <> key → key ≢ "" → bearer header ≡ some key
unfolding bearer
bearer-of header key e full =
    let cut : cut_prefix "Bearer " header ≡ some key = (cut_prefix_iff "Bearer " header key).1 e in
    rw (cut, bearer) (ground (arith, eq_iff key ""))

-- A key that its source knows, with the tier's name.
abbrev pub IsKnown : (String → Option String) → Request → String → String → Type 0
IsKnown lookup r key name =
    (r.authorization ≡ "Bearer " <> key) × (key ≢ "") × (lookup key ≡ some name)

-- What the bucket of a key says at a moment.
abbrev asked : Server → Moment → String → String → Allowed
asked s m key name = allow s.buckets key (tier_of name).rpm m.created m.now

-- Where a request gets to: it has no known key, and changes nothing; the bucket of its key has no
-- token; its tier may not stream; or a token is taken and the mux answers.
pub data Verdict (site : Site) (opts : Options) (m : Moment) (lookup : String → Option String)
    (s : Server) (r : Request) (v : Served) : Type 0 where
  unknown :
      ((key name : String) → IsKnown lookup r key name → ⊥)
      → v.reply.status ≡ 401
      → v.server ≡ s
      → Verdict site opts m lookup s r v
  limited :
      (key name : String)
      → IsKnown lookup r key name
      → (asked s m key name).granted ≡ false
      → v.reply.status ≡ 429
      → v.server.buckets ≡ (asked s m key name).buckets
      → Verdict site opts m lookup s r v
  unpaid :
      (key name : String)
      → IsKnown lookup r key name
      → (asked s m key name).granted ≡ true
      → (r.path ≡ "/v1/stream") × ((tier_of name).can_stream ≡ false)
      → v.reply.status ≡ 402
      → Verdict site opts m lookup s r v
  admitted :
      (key name : String) (u : Option UsageStats)
      → IsKnown lookup r key name
      → (asked s m key name).granted ≡ true
      → (r.path ≢ "/v1/stream") ⊎ ((tier_of name).can_stream ≡ true)
      → v
        ≡ serve_mux site opts m (record { buckets = (asked s m key name).buckets; usage = u }) key r
      → Verdict site opts m lookup s r v

module _ (site : Site) (opts : Options) (m : Moment) (lookup : String → Option String) where
  pub key_source-found :
      (u : Option UsageStats) (us : UsageStats) (key : String)
      → (key_source site opts m lookup u us key).0 ≡ lookup key
  unfolding key_source recording_lookup
  key_source-found none us key = refl
  key_source-found (some _) us key = ground arith

  pub key_source-lost :
      (u : Option UsageStats) (key : String)
      → lookup key ≡ none
      → if_tracked site opts m u (key_source site opts m lookup u (recorded site opts m u) key).1
        ≡ u
  unfolding key_source recording_lookup
  key_source-lost none key e = refl
  key_source-lost (some us) key e = rw (e, recording_lookup) refl

  pub if_tracked-recorded :
      (u : Option UsageStats) → if_tracked site opts m u (recorded site opts m u) ≡ u
  if_tracked-recorded none = refl
  if_tracked-recorded (some us) = refl

  same_server :
      (s : Server) (u : Option UsageStats)
      → u ≡ s.usage
      → record { buckets = s.buckets; usage = u } ≡ s
  same_server s u e = ap (λ (v : Option UsageStats). record { buckets = s.buckets; usage = v }) e

  checked-Verdict :
      (s : Server) (r : Request) (key name : String) (us : UsageStats)
      → IsKnown lookup r key name
      → let c = check_tier s.buckets us r key (tier_of name) m.created m.now in
        Verdict site opts m lookup s r (
          follow site opts m
            (record { buckets = c.buckets; usage = if_tracked site opts m s.usage c.usage })
            r
            c.decision)
  unfolding check_tier follow
  checked-Verdict s r key name us known =
      elim (Bool-cases (allow s.buckets key (tier_of name).rpm m.created m.now).granted) [
        | inr none_left ↦
            rw (none_left, check_tier, follow) (Verdict.limited key name known none_left refl refl)
        | inl some_left ↦
            elim (Bool-cases (str_eq r.path "/v1/stream" && not (tier_of name).can_stream)) [
              | inl gated ↦
                  rw (some_left, check_tier, gated, follow)
                    (Verdict.unpaid key name known some_left
                      (ground (arith, eq_iff r.path "/v1/stream")) refl)
              | inr free ↦
                  rw (some_left, check_tier, free, follow)
                    (Verdict.admitted key name (if_tracked site opts m s.usage us) known some_left
                      (ground (arith, eq_iff r.path "/v1/stream")) refl)
            ]
      ]

  -- What follows what the middleware has found.
  abbrev pub after : Server → Request → Checked → Served
  after s r c =
      follow site opts m
        (record { buckets = c.buckets; usage = if_tracked site opts m s.usage c.usage }) r
        c.decision

  protected-Verdict :
      (s : Server) (r : Request)
      → Verdict site opts m lookup s r (serve_protected site opts m lookup s r)
  unfolding serve_protected authenticate follow
  protected-Verdict s r =
      let source = key_source site opts m lookup s.usage in
      let us = recorded site opts m s.usage in
      let c = authenticate source s.buckets us r m.created m.now in
      elim (Option-cases (bearer r.authorization)) [
        | inl e ↦
            let found : record { decision = missing_key; buckets = s.buckets; usage = us } ≡ c =
              rw (e, authenticate) refl in
            subst (λ c'. Verdict site opts m lookup s r (after s r c')) found
              (Verdict.unknown
                (λ key name known.
                  let there = bearer-of r.authorization key known.0 known.1 in ground arith)
                refl (same_server s _ (if_tracked-recorded s.usage)))
        | inr (key, e) ↦ elim (Option-cases (lookup key)) [
          | inl e' ↦
              let miss : (source us key).0 ≡ none = key_source-found s.usage us key ∙ e' in
              let found : record {
                decision = invalid_key;
                buckets = s.buckets;
                usage = (source us key).1;
              }
                  ≡ c =
                rw (e, authenticate, miss) refl in
              subst (λ c'. Verdict site opts m lookup s r (after s r c')) found
                (Verdict.unknown
                  (λ key' name known.
                    let there = bearer-of r.authorization key' known.0 known.1 in
                    let same : key' ≡ key = ground arith in
                    let none_known : lookup key' ≡ none = ap lookup same ∙ e' in
                    let some_known = known.2 in ground arith)
                  refl (same_server s _ (key_source-lost s.usage key e')))
          | inr (name, e') ↦
              let hit : (source us key).0 ≡ some name = key_source-found s.usage us key ∙ e' in
              let (whole, full) = bearer_iff r.authorization key e in
              let found : check_tier s.buckets (source us key).1 r key (tier_of name) m.created
                    m.now
                  ≡ c =
                rw (e, authenticate, hit) refl in
              subst (λ c'. Verdict site opts m lookup s r (after s r c')) found
                (checked-Verdict s r key name (source us key).1 (whole, full, e'))
        ]
      ]

-- With a key source, a request that is neither for /health nor the admin's for /v1/usage gets to
-- the mux only with a key that the source knows, a token of that key's bucket, which is taken,
-- and a tier that may stream where it asks for a stream of a page. Else the reply is 401, 429 or
-- 402, and without a known key nothing changes.
pub serve-Verdict :
    (site : Site) (opts : Options) (m : Moment) (lookup : String → Option String) (s : Server)
    (r : Request)
    → opts.keys ≡ some lookup
    → r.path ≢ "/health"
    → (r.path ≢ "/v1/usage") ⊎ (is_admin site opts m r ≡ false)
    → Verdict site opts m lookup s r (serve site opts m s r)
unfolding serve serve_mux
serve-Verdict site opts m lookup s r e open_path not_admin =
    let health : str_eq r.path "/health" ≡ false = ground (arith, eq_iff r.path "/health") in
    let admin : (str_eq r.path "/v1/usage" && is_admin site opts m r) ≡ false =
      ground (arith, eq_iff r.path "/v1/usage") in
    let there : serve_protected site opts m lookup s r ≡ serve site opts m s r =
      rw (e, serve, health, admin, serve) refl in
    subst (Verdict site opts m lookup s r) there (protected-Verdict site opts m lookup s r)
