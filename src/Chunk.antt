-- ===== src/Chunk.antt =====
-- The chunk that ldump.c writes, read again by lundump.c: the two ends of lua_dump and lua_load
-- put together over a writer that keeps all it is given. Its child Verified adds the verifier.
mod Runs
pub mod Sample
pub mod Verified
mod VerifiedRuns
use hack_livesuite.Common.{
  ℕ, ◌≤◌, ◌≡◌, refl, sym, ◌∙◌, ap, arith, Bool, List, [], ◌∷◌, ◌++◌, append-nil, append_assoc,
  concat, some,
}
use hack_livesuite.Zio.{Zio}
use hack_livesuite.Zio.Stream.{stream}
use hack_livesuite.Proto.{Verdict, accepted, rejected, crashed, Proto}
use hack_livesuite.Dump.{dump}
use hack_livesuite.Dump.Blocks.{Blocks, chunk_blocks}
use hack_livesuite.Dump.Write.{feed, dump-feed}
use hack_livesuite.Undump.{ok, undump, unknown_source}
use hack_livesuite.Undump.View.{view, depth, Fits}
use hack_livesuite.Undump.RoundTrip.{Reads-chunk}

-- A writer that appends each block to a buffer and never fails.
abbrev pub append_block : List ℕ → List ℕ → List ℕ × ℕ
append_block w b = (w ++ b, 0)

feed-append_block : (bs : Blocks) (w : List ℕ) → feed append_block w bs ≡ (w ++ concat bs, 0)
unfolding feed
feed-append_block [] w = rw append-nil
feed-append_block (b ∷ bs) w =
    feed-append_block bs (w ++ b) ∙ ap (λ x. (x, 0)) (append_assoc w b (concat bs))

-- The bytes of the chunk of `f`.
pub chunk : Bool → Proto → List ℕ
chunk strip f = (dump append_block f [] strip).0

pub chunk_lem : (strip : Bool) (f : Proto) → chunk strip f ≡ concat (chunk_blocks strip f)
unfolding chunk
chunk_lem strip f =
    ap (λ r. r.0) (dump-feed append_block f [] strip ∙ feed-append_block (chunk_blocks strip f) [])

-- Loading what was dumped gives the function back, and leaves what follows the chunk in the
-- stream, however the reader cuts it into blocks. With `strip` the function is without its debug
-- information. A function that names no source has its parent's, or "=?" if it has no parent.
-- The fuel must be the nesting of functions at least.
pub undump-chunk :
    (code_ok : Proto → Verdict) (strip : Bool) (f : Proto) (fuel : ℕ) (z : Zio) (rest : List ℕ)
    → depth f ≤ fuel
    → Fits code_ok strip f (some unknown_source)
    → stream z ≡ chunk strip f ++ rest
    → (z' : Zio) × (undump code_ok fuel z ≡ ok (view strip f (some unknown_source)) z')
      × (stream z' ≡ rest)
undump-chunk code_ok strip f fuel z rest d h s =
    (Reads-chunk code_ok strip f fuel d h).apply z rest
      (s ∙ ap (λ b. b ++ rest) (chunk_lem strip f))
