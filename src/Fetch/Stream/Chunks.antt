-- ===== src/Fetch/Stream/Chunks.antt =====
-- What the chunks of fetch/stream.go hold.
use Prim.Native.String.{len}
use Prim.Native.String.len
use text.Mathlib.TextPositions.{len_utf8-pos}
use mathlib.Core.List.{map-append}
use text.Mathlib.TextLemmas.{nil-append, append-nil, append_assoc}
use saka.Base.{
  ℕ, zero, suc, ◌≤◌, ◌≡◌, refl, sym, ap, ◌∙◌, String, ◌<>◌, List, [], ◌∷◌, ◌++◌, map, arith, inl,
  inr, false, ◌≢◌, length, length-append, length-map, All, All-append, Bool-cases, ◌==◌,
  if◌then◌else◌, leb, leb→le,
}
use saka.Types.{Chunk}
use saka.Types.Chunking.{join}
use saka.Html.{Node, node, Nodes, nil, cons, Kind, is_text}
use saka.Fetch.Extract.{skip_tags, block_tags, is_one_of}
use saka.Fetch.Stream.{
  Flow, text_chunk, stream_chunk_size, flush, flush_if_full, enter, walk_chunks, walk_chunks_all,
  chunks_of,
}

-- The texts that a reader sees, outside the skipped elements, in document order.
unfoldable mutual
  pub visible : Node → String
  visible (node k d attrs children) =
      if is_one_of skip_tags k d then "" else (if is_text k then d else "") <> visible_all children

  pub visible_all : Nodes → String
  visible_all nil = ""
  visible_all (cons n ns) = visible n <> visible_all ns

abbrev pub texts : List Chunk → List String
texts = map (λ c. c.text)

join-append : (xs ys : List String) → join (xs ++ ys) ≡ join xs <> join ys
join-append [] ys = sym (nil-append (join ys))
join-append (x ∷ xs) ys =
    ap (λ t. x <> t) (join-append xs ys) ∙ sym (append_assoc x (join xs) (join ys))

-- All text that the walk has met: sent, or still in the buffer.
abbrev total : Flow → String
total f = join (texts f.sent) <> f.buf

len-zero : (s : String) → len s ≡ 0 → s ≡ ""
len-zero String.[] h = refl
len-zero (String.◌∷◌ c s) h = absurd (omega (arith, len.cons c s, (len_utf8-pos c).1))

total-flush : (f : Flow) → total (flush f) ≡ total f
unfolding flush
total-flush f = elim (Bool-cases (len f.buf == 0)) [
  | inl empty ↦ rw empty
  | inr full ↦
      rw (full, map-append)
        (append-nil _
          ∙ join-append (texts f.sent) (f.buf ∷ [])
          ∙ ap (λ t. join (texts f.sent) <> t) (append-nil f.buf))
]

total-flush_if_full : (f : Flow) → total (flush_if_full f) ≡ total f
unfolding flush_if_full
total-flush_if_full f = ground (arith, total-flush f)

total-enter :
    (k : Kind) (d : String) (f : Flow)
    → total (enter k d f) ≡ total f <> (if is_text k then d else "")
unfolding enter
total-enter k d f = elim (Bool-cases (is_text k)) [
  | inr other ↦ rw other (boundary ∙ sym (append-nil (total f)))
  | inl texts_here ↦ rw texts_here (
      total-flush_if_full (record g { buf = g.buf <> d })
      ∙ sym (append_assoc (join (texts g.sent)) g.buf d)
      ∙ ap (λ t. t <> d) boundary)
]
  where
    g : Flow
    g = if is_one_of block_tags k d then flush_if_full f else f

    boundary : total g ≡ total f
    boundary = elim (Bool-cases (is_one_of block_tags k d)) [
      | inl block ↦ rw block (total-flush_if_full f)
      | inr other ↦ rw other
    ]

mutual
  unfolding walk_chunks visible

  total-walk : (n : Node) (f : Flow) → total (walk_chunks n f) ≡ total f <> visible n
  total-walk (node k d attrs children) f = elim (Bool-cases (is_one_of skip_tags k d)) [
    | inl skipped ↦ rw skipped (sym (append-nil (total f)))
    | inr kept ↦ rw kept (
        total-walk_all children (enter k d f)
        ∙ ap (λ t. t <> visible_all children) (total-enter k d f)
        ∙ append_assoc (total f) _ (visible_all children))
  ]

  total-walk_all :
      (ns : Nodes) (f : Flow) → total (walk_chunks_all ns f) ≡ total f <> visible_all ns
  total-walk_all nil f = sym (append-nil (total f))
  total-walk_all (cons n ns) f =
      total-walk_all ns (walk_chunks n f)
      ∙ ap (λ t. t <> visible_all ns) (total-walk n f)
      ∙ append_assoc (total f) (visible n) (visible_all ns)

abbrev pub upto : ℕ → List ℕ
upto zero = []
upto (suc n) = upto n ++ n ∷ []

abbrev pub seqs : List Chunk → List ℕ
seqs = map (λ c. c.seq)

abbrev pub IsFull : Chunk → Type 0
IsFull c = stream_chunk_size ≤ len c.text

-- The chunks sent are numbered in order, and each is full.
record Sound (f : Flow) : Type 0 where
  numbered : seqs f.sent ≡ upto f.seq
  full : All IsFull f.sent

flush-numbered : (f : Flow) → seqs f.sent ≡ upto f.seq → seqs (flush f).sent ≡ upto (flush f).seq
unfolding flush
flush-numbered f h = elim (Bool-cases (len f.buf == 0)) [
  | inl empty ↦ rw empty h
  | inr full ↦ rw (full, map-append) (ap (λ ns. ns ++ f.seq ∷ []) h)
]

flush_if_full-Sound : (f : Flow) → Sound f → Sound (flush_if_full f)
unfolding flush_if_full flush
flush_if_full-Sound f h = elim (Bool-cases (leb stream_chunk_size (len f.buf))) [
  | inr short ↦ rw short h
  | inl long ↦
      let full : (len f.buf == 0) ≡ false = ground arith in
      rw (long, full)
        (record {
          numbered = rw map-append (ap (λ ns. ns ++ f.seq ∷ []) h.numbered);
          full = All-append IsFull f.sent _ h.full (leb→le _ _ long, tt);
        })
]

enter-Sound : (k : Kind) (d : String) (f : Flow) → Sound f → Sound (enter k d f)
unfolding enter
enter-Sound k d f h = elim (Bool-cases (is_text k)) [
  | inr other ↦ rw other boundary
  | inl texts_here ↦ rw texts_here (
      flush_if_full-Sound (record g { buf = g.buf <> d })
        (record { numbered = boundary.numbered; full = boundary.full }))
]
  where
    g : Flow
    g = if is_one_of block_tags k d then flush_if_full f else f

    boundary : Sound g
    boundary = elim (Bool-cases (is_one_of block_tags k d)) [
      | inl block ↦ rw block (flush_if_full-Sound f h)
      | inr other ↦ rw other h
    ]

mutual
  unfolding walk_chunks

  walk-Sound : (n : Node) (f : Flow) → Sound f → Sound (walk_chunks n f)
  walk-Sound (node k d attrs children) f h = elim (Bool-cases (is_one_of skip_tags k d)) [
    | inl skipped ↦ rw skipped h
    | inr kept ↦ rw kept (walk_all-Sound children (enter k d f) (enter-Sound k d f h))
  ]

  walk_all-Sound : (ns : Nodes) (f : Flow) → Sound f → Sound (walk_chunks_all ns f)
  walk_all-Sound nil f h = h
  walk_all-Sound (cons n ns) f h = walk_all-Sound ns (walk_chunks n f) (walk-Sound n f h)

-- The last chunk may be short; no other is, and none is empty.
abbrev pub AllButLastFull : List Chunk → Type 0
AllButLastFull [] = Unit
AllButLastFull (c ∷ []) = c.text ≢ ""
AllButLastFull (c ∷ d ∷ cs) = IsFull c × AllButLastFull (d ∷ cs)

IsFull-ne-nil : (c : Chunk) → IsFull c → c.text ≢ ""
IsFull-ne-nil c h e = absurd (omega (arith, ap len e))

AllButLastFull-append :
    (cs : List Chunk) (c : Chunk) → All IsFull cs → c.text ≢ "" → AllButLastFull (cs ++ c ∷ [])
AllButLastFull-append [] c h e = e
AllButLastFull-append (x ∷ []) c h e = (h.0, e)
AllButLastFull-append (x ∷ y ∷ xs) c h e = (h.0, AllButLastFull-append (y ∷ xs) c h.1 e)

AllButLastFull-of_All : (cs : List Chunk) → All IsFull cs → AllButLastFull cs
AllButLastFull-of_All [] h = tt
AllButLastFull-of_All (c ∷ []) h = IsFull-ne-nil c h.0
AllButLastFull-of_All (c ∷ d ∷ cs) h = (h.0, AllButLastFull-of_All (d ∷ cs) h.1)

flush-AllButLastFull : (f : Flow) → All IsFull f.sent → AllButLastFull (flush f).sent
unfolding flush
flush-AllButLastFull f h = elim (Bool-cases (len f.buf == 0)) [
  | inl empty ↦ rw empty (AllButLastFull-of_All f.sent h)
  | inr full ↦ rw full (
      AllButLastFull-append f.sent (text_chunk f.buf f.seq) h
        (λ e. absurd (ground (arith, ap len e))))
]

flush-buf : (f : Flow) → (flush f).buf ≡ ""
unfolding flush
flush-buf f = elim (Bool-cases (len f.buf == 0)) [
  | inl empty ↦ rw empty (len-zero f.buf (ground arith))
  | inr full ↦ rw full
]

length-upto : (n : ℕ) → length (upto n) ≡ n
length-upto zero = refl
length-upto (suc n) = omega (arith, length-upto n, length-append (upto n) (n ∷ []))

seq-length : (f : Flow) → seqs f.sent ≡ upto f.seq → f.seq ≡ length f.sent
seq-length f h =
    omega (arith, length-upto f.seq, ap length h, length-map (λ (c : Chunk). c.seq) f.sent)

-- The stream loses no text and repeats none: the chunks of a container, joined, are the texts
-- outside its skipped elements in document order; they are numbered from 0 in order; none is
-- empty and all but the last have at least 900 bytes.
pub chunks_of_lem :
    (best : Node)
    → (join (texts (chunks_of best)) ≡ visible best)
      × (seqs (chunks_of best) ≡ upto (length (chunks_of best)))
      × AllButLastFull (chunks_of best)
unfolding chunks_of
chunks_of_lem best =
    let f = walk_chunks best start in
    let numbered = flush-numbered f sound.numbered in
    (
      sym (append-nil _)
          ∙ ap (λ t. join (texts (flush f).sent) <> t) (sym (flush-buf f))
          ∙ total-flush f
          ∙ total-walk best start
          ∙ ap (λ t. t <> visible best) (nil-append "")
          ∙ nil-append (visible best),
      numbered ∙ ap upto (seq-length (flush f) numbered),
      flush-AllButLastFull f sound.full,
    )
  where
    start : Flow
    start = record { buf = ""; seq = 0; sent = [] }

    sound : Sound (walk_chunks best start)
    sound = walk-Sound best start (record { numbered = refl; full = tt })
