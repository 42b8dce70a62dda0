-- ===== src/Fetch/Stream.antt =====
-- fetch/stream.go: the text of a page in chunks as the walk finds it. The channel of chunks is the
-- list of the values sent; `done` or `errc` receives the one value at the end.
pub mod Chunks
use Prim.Native.String.{len}
use saka.Base.{
  ℕ, suc, Bool, true, false, String, ◌<>◌, Option, none, some, List, [], ◌∷◌, ◌++◌, leb, ◌==◌,
  if◌then◌else◌,
}
use saka.Types.{Chunk, Page, Error, decode}
use saka.Html.{Node, node, Nodes, nil, cons, Kind, is_text}
use saka.Fetch.Extract.{skip_tags, block_tags, is_one_of, find_best_container, page_of}

abbrev pub stream_chunk_size : ℕ
stream_chunk_size = 900

-- The variables that `walk` and `flush` share, and the chunks sent so far.
pub record Flow : Type 0 where
  pub buf : String
  pub seq : ℕ
  pub sent : List Chunk

abbrev pub text_chunk : String → ℕ → Chunk
text_chunk t i = record { text = t; seq = i; done = false; err = "" }

unfoldable pub flush : Flow → Flow
flush f =
    if len f.buf == 0
    then f
    else record { buf = ""; seq = suc f.seq; sent = f.sent ++ text_chunk f.buf f.seq ∷ [] }

unfoldable pub flush_if_full : Flow → Flow
unfolding flush
flush_if_full f = if leb stream_chunk_size (len f.buf) then flush f else f

-- A paragraph boundary, then the text of the node.
unfoldable pub enter : Kind → String → Flow → Flow
enter k d f =
    let g = if is_one_of block_tags k d then flush_if_full f else f in
    if is_text k then flush_if_full (record g { buf = g.buf <> d }) else g

unfoldable mutual
  pub walk_chunks : Node → Flow → Flow
  walk_chunks (node k d attrs children) f =
      let below = walk_chunks_all children (enter k d f) in
      if is_one_of skip_tags k d then f else below

  pub walk_chunks_all : Nodes → Flow → Flow
  walk_chunks_all nil f = f
  walk_chunks_all (cons n ns) f = walk_chunks_all ns (walk_chunks n f)

unfoldable pub chunks_of : Node → List Chunk
unfolding walk_chunks enter flush_if_full
chunks_of best = (flush (walk_chunks best (record { buf = ""; seq = 0; sent = [] }))).sent

-- What the channels carry in the end.
pub data Extraction : Type 0 where
  extracted : List Chunk → Page → Extraction
  unparsed : Error → Extraction

module _ (parse : String → Option Node) (rfc3339 : String → ℕ) where
  unfoldable pub extract_stream : String → String → Extraction
  unfolding chunks_of
  extract_stream raw_url body = elim (parse body) [
    | none ↦ unparsed (decode "")
    | some doc ↦ extracted (chunks_of (find_best_container doc)) (page_of parse rfc3339 raw_url doc)
  ]
