-- ===== src/Types/Tests.antt =====
-- Tests of types/ and instances of its theorems.
use saka.Base.{◌≡◌, refl, ◌≢◌, List, [], ◌∷◌, map, arith, eq_iff, All}
use saka.Types.{Page, Chunk, split_chunks, chunks, stream}
use saka.Types.Chunking.{join, IsNumbered, IsPiece, chunks-join}

split_chunks_cuts : split_chunks "hello" 2 ≡ "he" ∷ "ll" ∷ "o" ∷ []
unfolding split_chunks
split_chunks_cuts = refl

abbrev short_page : Page
short_page = record { url = "http://a"; title = "A"; text = "hello"; published_at = 0 }

has_text : short_page.text ≢ ""
has_text = ground (arith, eq_iff "hello" "")

chunks-join_example :
    (cs : List Chunk) × (chunks short_page ≡ stream cs)
    × IsNumbered 0 cs
    × All IsPiece cs
    × (join (map (λ c. c.text) cs) ≡ "hello")
chunks-join_example = chunks-join short_page has_text
