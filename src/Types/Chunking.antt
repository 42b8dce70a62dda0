-- ===== src/Types/Chunking.antt =====
-- How types/types.go cuts a page's text into chunks.
use Prim.Native.Char.{Char}
use text.Mathlib.TextLemmas.{nil-append, cons-append, append-nil}
use saka.Base.{
  ℕ, zero, suc, ◌+◌, ◌-◌, ◌≤◌, ◌<◌, ◌≡◌, refl, sym, ap, ◌∙◌, String, ◌<>◌, List, [], ◌∷◌, ◌++◌,
  arith, ◌⊎◌, inl, inr, length, take, drop, ltb, Bool-cases, ltb→le, map, ◌≢◌, eq_iff, false,
  length-take, length-drop, take-append-drop, tests, All,
}
use saka.Types.{
  Page, Chunk, done_chunk, stream, chunks, chunk_size, runes, from_runes, chunk_end, split_from,
  split_chunks, number_chunks,
}

from_runes-runes : (s : String) → from_runes (runes s) ≡ s
unfolding runes from_runes
from_runes-runes String.[] = refl
from_runes-runes (String.◌∷◌ c s) = ap (String.◌∷◌ c) (from_runes-runes s)

pub runes-from_runes : (cs : List Char) → runes (from_runes cs) ≡ cs
unfolding runes from_runes
runes-from_runes [] = refl
runes-from_runes (c ∷ cs) = ap (◌∷◌ c) (runes-from_runes cs)

from_runes-append : (xs ys : List Char) → from_runes (xs ++ ys) ≡ from_runes xs <> from_runes ys
unfolding from_runes
from_runes-append [] ys = sym (nil-append _)
from_runes-append (x ∷ xs) ys =
    ap (String.◌∷◌ x) (from_runes-append xs ys) ∙ sym (cons-append x _ _)

module _ {ℓ} {A : Type ℓ} where
  drop-drop : (i k j : ℕ) (xs : List A) → i + k ≡ j → drop k (drop i xs) ≡ drop j xs
  drop-drop zero k j xs e = ap (λ n. drop n xs) (omega arith)
  drop-drop (suc i) k zero xs e = absurd (omega arith)
  drop-drop (suc i) zero (suc j) [] e = refl
  drop-drop (suc i) (suc k) (suc j) [] e = refl
  drop-drop (suc i) k (suc j) (x ∷ xs) e = drop-drop i k j xs (omega arith)

  drop-eq-nil : (i : ℕ) (xs : List A) → length xs ≤ i → drop i xs ≡ []
  drop-eq-nil zero [] h = refl
  drop-eq-nil zero (x ∷ xs) h = absurd (omega arith)
  drop-eq-nil (suc i) [] h = refl
  drop-eq-nil (suc i) (x ∷ xs) h = drop-eq-nil i xs (omega arith)

  -- Cutting the rest of a list at `j`.
  take-append-drop_from :
      (i j : ℕ) (xs : List A) → i ≤ j → take (j - i) (drop i xs) ++ drop j xs ≡ drop i xs
  take-append-drop_from i j xs h =
      ap (λ ys. take (j - i) (drop i xs) ++ ys) (sym (drop-drop i (j - i) j xs (omega arith)))
      ∙ take-append-drop (j - i) (drop i xs)

-- The concatenation of the parts.
abbrev pub join : List String → String
join [] = ""
join (s ∷ ss) = s <> join ss

module _ (size : ℕ) (size_pos : 0 < size) where
  chunk_end_bounds : (i n : ℕ) → i < n → (i < chunk_end size i n) × (chunk_end size i n ≤ i + size)
  unfolding chunk_end
  chunk_end_bounds i n h = ground arith

  -- Past the end of a chunk and past its full size the same runes are left.
  drop-chunk_end :
      (i : ℕ) (rs : List Char) → drop (i + size) rs ≡ drop (chunk_end size i (length rs)) rs
  unfolding chunk_end
  drop-chunk_end i rs = elim (Bool-cases (ltb (length rs) (i + size))) [
    | inl last ↦
        rw last (
          drop-eq-nil (i + size) rs (omega (tests))
          ∙ sym (drop-eq-nil (length rs) rs (omega arith)))
    | inr full ↦ rw full
  ]

  split_from-join :
      (fuel i : ℕ) (rs : List Char)
      → length rs ≤ i + fuel
      → join (split_from fuel size i rs) ≡ from_runes (drop i rs)
  unfolding split_from from_runes
  split_from-join zero i rs h = rw (drop-eq-nil i rs (omega arith))
  split_from-join (suc fuel) i rs h = elim (Bool-cases (ltb i (length rs))) [
    | inr over ↦ rw (over, drop-eq-nil i rs (ltb→le _ _ over))
    | inl more ↦
        let e = chunk_end size i (length rs) in
        rw (more, split_from-join fuel (i + size) rs (omega arith), drop-chunk_end i rs)
          (sym (from_runes-append (take (e - i) (drop i rs)) (drop e rs))
            ∙ ap from_runes (
                take-append-drop_from i e rs
                  (omega (arith, chunk_end_bounds i (length rs), tests))))
  ]

  abbrev IsPart : String → Type 0
  IsPart part = (0 < length (runes part)) × (length (runes part) ≤ size)

  split_from-parts : (fuel i : ℕ) (rs : List Char) → All IsPart (split_from fuel size i rs)
  unfolding split_from
  split_from-parts zero i rs = tt
  split_from-parts (suc fuel) i rs = elim (Bool-cases (ltb i (length rs))) [
    | inr over ↦ rw over tt
    | inl more ↦
        let e = chunk_end size i (length rs) in
        rw (more, runes-from_runes (take (e - i) (drop i rs)))
          (
            omega (
              arith,
              tests,
              length-take (e - i) (drop i rs),
              length-drop i rs,
              chunk_end_bounds i (length rs),
            ),
            split_from-parts fuel (i + size) rs,
          )
  ]

-- Cutting a text into chunks of at most `size` runes loses nothing and repeats nothing: the parts,
-- joined in order, are the text, and each part has between 1 and `size` runes.
split_chunks-join :
    (size : ℕ) (s : String)
    → 0 < size
    → (join (split_chunks s size) ≡ s)
      × All (λ part. (0 < length (runes part)) × (length (runes part) ≤ size)) (split_chunks s size)
unfolding split_chunks
split_chunks-join size s h = (
  split_from-join size h (length (runes s)) 0 (runes s) (omega arith) ∙ from_runes-runes s,
  split_from-parts size h (length (runes s)) 0 (runes s),
)

-- The stream of a page: the chunks are numbered from `n` in order, and the last value, and no
-- other, is the end mark.
abbrev pub IsNumbered : ℕ → List Chunk → Type 0
IsNumbered n [] = ⊥
IsNumbered n (c ∷ []) = c ≡ done_chunk
IsNumbered n (c ∷ d ∷ cs) = (c.seq ≡ n) × (c.done ≡ false) × IsNumbered (suc n) (d ∷ cs)

number_chunks-IsNumbered :
    (n : ℕ) (parts : List String) → IsNumbered n (number_chunks n parts ++ done_chunk ∷ [])
unfolding number_chunks
number_chunks-IsNumbered n [] = refl
number_chunks-IsNumbered n (s ∷ []) = (refl, refl, refl)
number_chunks-IsNumbered n (s ∷ t ∷ ss) = (refl, refl, number_chunks-IsNumbered (suc n) (t ∷ ss))

number_chunks-join :
    (n : ℕ) (parts : List String)
    → join (map (λ c. c.text) (number_chunks n parts ++ done_chunk ∷ [])) ≡ join parts
unfolding number_chunks
number_chunks-join n [] = append-nil ""
number_chunks-join n (s ∷ ss) = ap (λ t. s <> t) (number_chunks-join (suc n) ss)

-- The end mark, or a text of 1 to 900 runes.
abbrev pub IsPiece : Chunk → Type 0
IsPiece c = (c ≡ done_chunk) ⊎ ((0 < length (runes c.text)) × (length (runes c.text) ≤ chunk_size))

number_chunks-IsPiece :
    (n : ℕ) (parts : List String)
    → All (λ part. (0 < length (runes part)) × (length (runes part) ≤ chunk_size)) parts
    → All IsPiece (number_chunks n parts ++ done_chunk ∷ [])
unfolding number_chunks
number_chunks-IsPiece n [] h = (inl refl, tt)
number_chunks-IsPiece n (s ∷ ss) h = (inr h.0, number_chunks-IsPiece (suc n) ss h.1)

-- A page with text is streamed whole: its chunks are numbered from 0 in order, end with the one
-- end mark, and have each between 1 and 900 runes but for the mark; their texts, joined, are the
-- page's text.
pub chunks-join :
    (p : Page)
    → p.text ≢ ""
    → (cs : List Chunk) × (chunks p ≡ stream cs)
      × IsNumbered 0 cs
      × All IsPiece cs
      × (join (map (λ c. c.text) cs) ≡ p.text)
unfolding chunks
chunks-join p h = (
  number_chunks 0 (split_chunks p.text chunk_size) ++ done_chunk ∷ [],
  ground (arith, eq_iff p.text ""),
  number_chunks-IsNumbered 0 (split_chunks p.text chunk_size),
  number_chunks-IsPiece 0 (split_chunks p.text chunk_size)
      (split_chunks-join chunk_size p.text (omega arith)).1,
  number_chunks-join 0 (split_chunks p.text chunk_size)
      ∙ (split_chunks-join chunk_size p.text (omega arith)).0,
)
