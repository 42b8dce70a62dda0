-- ===== src/Fetch/Extract/Best.antt =====
-- Which container findBestContainer of fetch/extract.go picks.
use saka.Base.{
  ◌*◌, ◌≤◌, ◌<◌, ◌≡◌, refl, ◌⊎◌, inl, inr, none, some, List, [], ◌∷◌, arith, All, All-imp, tests,
  ltb→le, Bool-cases, ap, sym, subst, Option-cases, ◌∙◌,
}
use mathlib.Core.List.{Memᴰ}
use native.Mathlib.Nat.{le_of_mul-le-mul_right, mul-le-mul_right}
use saka.Html.{Node}
use saka.Html.Walk.{preorder, visit_each, walk_lem}
use saka.Fetch.Extract.{
  Score, Leader, Counts, score_of, count_from, density, candidate_score, exceeds_score, consider,
  best_of, find_best_container,
}

abbrev pub AtMost : Score → Score → Type 0
AtMost s t = s.num * t.den ≤ t.num * s.den

-- The score of a node is at most that of the leader, if it has one.
abbrev pub IsBeaten : Leader → Node → Type 0
IsBeaten b n = (s : Score) → candidate_score n ≡ some s → AtMost s b.score

abbrev HasDen : Score → Type 0
HasDen s = 0 < s.den

score_of-HasDen : (c : Counts) → HasDen (score_of c)
unfolding score_of
score_of-HasDen c = ground arith

candidate_score-HasDen : (n : Node) (s : Score) → candidate_score n ≡ some s → HasDen s
unfolding candidate_score density
candidate_score-HasDen n s e =
    ground (arith, score_of-HasDen (count_from n (record { text_len = 0; p_count = 0; a_len = 0 })))

AtMost-trans : (s t u : Score) → HasDen t → AtMost s t → AtMost t u → AtMost s u
AtMost-trans s t u d h k =
    le_of_mul-le-mul_right {m = s.num * u.den} {n = u.num * s.den} {k = t.den}
      (omega (arith, mul-le-mul_right u.den h, mul-le-mul_right s.den k)) d

-- Where the leader of a walk comes from: it is the one from before, or a visited candidate.
abbrev pub IsFrom : Leader → List Node → Leader → Type 0
IsFrom b ns r =
    ((r.best ≡ b.best) × (r.score ≡ b.score))
    ⊎ ((n : Node) × Memᴰ n ns × (r.best ≡ some n) × (candidate_score n ≡ some r.score))

pub record Won (b : Leader) (ns : List Node) (r : Leader) : Type 0 where
  pub den : HasDen r.score
  pub grown : AtMost b.score r.score
  pub beaten : All (IsBeaten r) ns
  pub from : IsFrom b ns r

consider-Won : (n : Node) (b : Leader) → HasDen b.score → Won b (n ∷ []) (consider n b)
unfolding consider
consider-Won n b d = elim (Option-cases (candidate_score n)) [
  | inl e ↦
      rw (e, consider)
        (record {
          den = d;
          grown = omega arith;
          beaten = (λ s e'. absurd (ground arith), tt);
          from = inl (refl, refl);
        })
  | inr (s, e) ↦ elim (Bool-cases (exceeds_score s b.score)) [
    | inl up ↦
        rw (e, consider, up)
          (record {
            den = candidate_score-HasDen n s e;
            grown = omega tests;
            beaten = (λ s' e'. ground arith, tt);
            from = inr (n, Memᴰ.head refl, refl, e);
          })
    | inr down ↦
        rw (e, consider, down)
          (record {
            den = d;
            grown = omega arith;
            beaten = (
              λ s' e'. ground (arith, ltb→le (b.score.num * s.den) (s.num * b.score.den) down),
              tt,
            );
            from = inl (refl, refl);
          })
  ]
]

IsFrom-cons :
    (b c r : Leader) (n : Node) (ns : List Node)
    → IsFrom b (n ∷ []) c
    → IsFrom c ns r
    → IsFrom b (n ∷ ns) r
IsFrom-cons b c r n ns (inl (e, f)) (inl (e', f')) = inl (e' ∙ e, f' ∙ f)
IsFrom-cons b c r n ns (inr (m, Memᴰ.head same, e, f)) (inl (e', f')) =
    inr (m, Memᴰ.head same, e' ∙ e, f ∙ ap some (sym f'))
IsFrom-cons b c r n ns (inr (m, Memᴰ.tail none_there, e, f)) (inl _) = elim none_there [ ]
IsFrom-cons b c r n ns h (inr (m, member, e, f)) = inr (m, Memᴰ.tail member, e, f)

visit_each-Won :
    (ns : List Node) (b : Leader) → HasDen b.score → Won b ns (visit_each consider ns b)
unfolding visit_each
visit_each-Won [] b d = record {
  den = d;
  grown = omega arith;
  beaten = tt;
  from = inl (refl, refl);
}
visit_each-Won (n ∷ ns) b d =
    let c = consider n b in
    let r = visit_each consider ns c in
    let first = consider-Won n b d in
    let rest = visit_each-Won ns c first.den in
    record {
      den = rest.den;
      grown = AtMost-trans b.score c.score r.score first.den first.grown rest.grown;
      beaten = (
        λ s e. AtMost-trans s c.score r.score first.den (first.beaten.0 s e) rest.grown,
        rest.beaten,
      );
      from = IsFrom-cons b c r n ns first.from rest.from;
    }

abbrev start : Leader
start = record { best = none; score = record { num = 0; den = 1 } }

abbrev pub ScoresAtMost : Score → Node → Type 0
ScoresAtMost s n = (t : Score) → candidate_score n ≡ some t → AtMost t s

best_of-visit_each : (doc : Node) → best_of doc ≡ visit_each consider (preorder doc) start
unfolding best_of
best_of-visit_each doc = walk_lem consider doc start

-- The container that is picked is a candidate of the document than which no other scores higher,
-- or, where no candidate scores more than 0, the whole document.
pub find_best_container_lem :
    (doc : Node)
    → ((find_best_container doc ≡ doc)
        × All (ScoresAtMost (record { num = 0; den = 1 })) (preorder doc))
      ⊎ ((s : Score) × Memᴰ (find_best_container doc) (preorder doc)
          × (candidate_score (find_best_container doc) ≡ some s)
          × All (ScoresAtMost s) (preorder doc))
unfolding find_best_container
find_best_container_lem doc = elim won.from [
  | inl (e, f) ↦ inl (
    ground (arith, best_of-visit_each doc, e),
    All-imp (IsBeaten b) _ (preorder doc) (λ n h t e'. subst (λ s. AtMost t s) f (h t e'))
        won.beaten,
  )
  | inr (n, member, e, f) ↦
      let picked : find_best_container doc ≡ n = ground (arith, best_of-visit_each doc, e) in
      inr (b.score, rw picked member, rw picked f, won.beaten)
]
  where
    b : Leader
    b = visit_each consider (preorder doc) start

    won : Won start (preorder doc) b
    won = visit_each-Won (preorder doc) start (omega arith)
