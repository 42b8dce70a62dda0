-- ===== src/Server/Gate/Isolation.antt =====
-- Whom a request to the server of server/ can affect.
use saka.Base.{
  ℕ, ◌≡◌, ◌≢◌, refl, ap, sym, subst, ◌∙◌, not, ◌&&◌, ◌<>◌, inl, inr, String, Option, none, some,
  str_eq, eq_iff, get, get-put, Option-cases, Bool-cases, arith,
}
use saka.Server.{Request}
use saka.Server.Auth.{
  allow, tier_of, check_tier, authenticate, Checked, bearer, missing_key, invalid_key,
}
use saka.Server.Gate.Guard.{bearer_iff, if_tracked-recorded, after}
use saka.Server.Usage.{UsageStats, touch, recording_lookup}
use saka.Server.Http.{Site, Options}
use saka.Server.Http.Counts.{seen}
use saka.Server.Http.Charges.{route-AreCharges, AreCharges-others}
use saka.Server.Gate.{
  Server, Moment, serve_mux, serve_protected, serve, is_admin, key_source, recorded, if_tracked,
  follow,
}

-- The bucket and the counters of a key.
abbrev pub Untouched : String → Server → Server → Type 0
Untouched other s s' =
    (get s'.buckets other ≡ get s.buckets other) × (seen s'.usage other ≡ seen s.usage other)

allow-others :
    (s : Server) (key other : String) (rpm created now : ℕ)
    → other ≢ key
    → get (allow s.buckets key rpm created now).buckets other ≡ get s.buckets other
unfolding allow
allow-others s key other rpm created now apart = elim (Option-cases (get s.buckets key)) [
  | inl e ↦ rw (e, allow) (get-put s.buckets key other _ ∙ ground (arith, eq_iff key other))
  | inr (b, e) ↦ rw (e, allow) (get-put s.buckets key other _ ∙ ground (arith, eq_iff key other))
]

touch-others :
    (u : UsageStats) (key other today : String) (now : ℕ)
    → other ≢ key
    → get (touch u key today now) other ≡ get u other
unfolding touch
touch-others u key other today now apart = elim (Option-cases (get u key)) [
  | inl e ↦ rw (e, touch) (get-put u key other _ ∙ ground (arith, eq_iff key other))
  | inr (ku, e) ↦ elim (Bool-cases (str_eq ku.day today)) [
    | inl same ↦ rw (e, touch, same) (get-put u key other _ ∙ ground (arith, eq_iff key other))
    | inr later ↦ rw (e, touch, later) (get-put u key other _ ∙ ground (arith, eq_iff key other))
  ]
]

module _ (site : Site) (opts : Options) (m : Moment) where
  serve_mux-Untouched :
      (s : Server) (key other : String) (r : Request)
      → other ≢ key
      → Untouched other s (serve_mux site opts m s key r).server
  unfolding serve_mux
  serve_mux-Untouched s key other r apart = (
    refl,
    AreCharges-others key other s.usage _ apart
        (route-AreCharges site key s.usage opts.admin_key m.today r),
  )

  key_source-others :
      (lookup : String → Option String) (u : Option UsageStats) (key other : String)
      → other ≢ key
      → seen
          (if_tracked site opts m u
            (key_source site opts m lookup u (recorded site opts m u) key).1)
          other
        ≡ seen u other
  unfolding key_source recording_lookup
  key_source-others lookup none key other apart = refl
  key_source-others lookup (some us) key other apart = elim (Option-cases (lookup key)) [
    | inl e ↦ rw (e, recording_lookup) refl
    | inr (name, e) ↦ rw (e, recording_lookup) (touch-others us key other m.today m.now apart)
  ]

  checked-Untouched :
      (s : Server) (r : Request) (key name other : String) (us : UsageStats)
      → other ≢ key
      → seen (if_tracked site opts m s.usage us) other ≡ seen s.usage other
      → Untouched other s
          (after site opts m
            (λ k. none)
            s
            r
            (check_tier s.buckets us r key (tier_of name) m.created m.now)).server
  unfolding check_tier follow
  checked-Untouched s r key name other us apart quiet =
      let rpm = (tier_of name).rpm in
      let bucket = allow-others s key other rpm m.created m.now apart in
      elim (Bool-cases (allow s.buckets key rpm m.created m.now).granted) [
        | inr none_left ↦ rw (none_left, check_tier, follow) (bucket, quiet)
        | inl some_left ↦
            elim (Bool-cases (str_eq r.path "/v1/stream" && not (tier_of name).can_stream)) [
              | inl gated ↦ rw (some_left, check_tier, gated, follow) (bucket, quiet)
              | inr free ↦
                  let s' : Server = record {
                    buckets = (allow s.buckets key rpm m.created m.now).buckets;
                    usage = if_tracked site opts m s.usage us;
                  } in
                  let after_mux = serve_mux-Untouched s' key other r apart in
                  rw (some_left, check_tier, free, follow)
                    (after_mux.0 ∙ bucket, after_mux.1 ∙ quiet)
            ]
      ]

  protected-Untouched :
      (lookup : String → Option String) (s : Server) (r : Request) (other : String)
      → r.authorization ≢ "Bearer " <> other
      → Untouched other s (serve_protected site opts m lookup s r).server
  unfolding serve_protected authenticate follow
  protected-Untouched lookup s r other foreign =
      let source = key_source site opts m lookup s.usage in
      let us = recorded site opts m s.usage in
      let c = authenticate source s.buckets us r m.created m.now in
      let Fine : Checked → Type 0 =
        λ c'. Untouched other s (after site opts m lookup s r c').server in
      elim (Option-cases (bearer r.authorization)) [
        | inl e ↦
            let found : record { decision = missing_key; buckets = s.buckets; usage = us } ≡ c =
              rw (e, authenticate) refl in
            subst Fine found
              (refl, ap (λ u. seen u other) (if_tracked-recorded site opts m lookup s.usage))
        | inr (key, e) ↦
            let apart : other ≢ key = λ same.
              foreign
                ((bearer_iff r.authorization key e).0 ∙ ap (λ k. "Bearer " <> k) (sym same)) in
            let quiet = key_source-others lookup s.usage key other apart in
            elim (Option-cases (source us key).0) [
              | inl miss ↦
                  let found : record {
                    decision = invalid_key;
                    buckets = s.buckets;
                    usage = (source us key).1;
                  }
                      ≡ c =
                    rw (e, authenticate, miss) refl in
                  subst Fine found (refl, quiet)
              | inr (name, hit) ↦
                  let found : check_tier s.buckets (source us key).1 r key (tier_of name) m.created
                        m.now
                      ≡ c =
                    rw (e, authenticate, hit) refl in
                  subst Fine found
                    (checked-Untouched s r key name other (source us key).1 apart quiet)
            ]
      ]

-- A request whose header is not that of a key takes nothing from the key's bucket and changes
-- none of its counters, whatever it asks for.
pub serve-Untouched :
    (site : Site) (opts : Options) (m : Moment) (s : Server) (r : Request) (other : String)
    → other ≢ ""
    → r.authorization ≢ "Bearer " <> other
    → Untouched other s (serve site opts m s r).server
unfolding serve
serve-Untouched site opts m s r other full foreign = elim (Option-cases opts.keys) [
  | inl e ↦ rw (e, serve) (serve_mux-Untouched site opts m s "" other r full)
  | inr (lookup, e) ↦ elim (Bool-cases (str_eq r.path "/health")) [
    | inl health ↦ rw (e, serve, health) (serve_mux-Untouched site opts m s "" other r full)
    | inr open_not ↦ elim (Bool-cases (str_eq r.path "/v1/usage" && is_admin site opts m r)) [
      | inl admin ↦
          rw (e, serve, open_not, admin) (serve_mux-Untouched site opts m s "" other r full)
      | inr guarded ↦
          rw (e, serve, open_not, guarded)
            (protected-Untouched site opts m lookup s r other foreign)
    ]
  ]
]
