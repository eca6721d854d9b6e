-- ===== src/Chunk/Runs.antt =====
-- Concrete chunks, and the theorems on them.
use hack_livesuite.Common.{
  ℕ, ◌+◌, ◌/◌, ◌≡◌, refl, ap, ◌∙◌, arith, true, List, [], ◌∷◌, ◌++◌, some, take, drop, concat,
}
use hack_livesuite.Common.Bytes.{le_bytes}
use hack_livesuite.Zio
use hack_livesuite.Zio.{Zio, Copied}
use hack_livesuite.Zio.Stream.{stream, until_end, IsRead, read-IsRead, stream-init}
use hack_livesuite.Proto.{same_string}
use hack_livesuite.Dump.{
  header, words_memory, dump, dump_header, dump_function, dump_prefix, dump_prefix_if, dump_code,
  dump_constants, dump_list, dump_each, dump_constant, dump_debug, dump_debug_if, dump_locvar,
  dump_string, dump_vector, dump_number, dump_size, dump_int, dump_char, dump_block,
}
use hack_livesuite.Dump.Blocks.{chunk_blocks}
use hack_livesuite.Undump.{ok, err, LoadError, undump, unknown_source}
use hack_livesuite.Undump.View.{view, depth}
use hack_livesuite.Undump.Total.{undump_truncated}
use hack_livesuite.Undump.Checked.{IsChecked, undump-IsChecked, undump-header}
use hack_livesuite.Dump.Write.{feed, dump-feed}
use hack_livesuite.Chunk.Sample.{sample, accept, sample-Fits}
use hack_livesuite.Chunk.{chunk, undump-chunk}

-- What luac writes for the stripped sample.
chunk_test : take 20 (chunk true sample) ≡ header ++ le_bytes 8 0
unfolding chunk dump dump_header dump_function dump_prefix dump_prefix_if dump_code dump_constants
    dump_list dump_each dump_constant dump_debug dump_debug_if dump_locvar dump_string dump_vector
    dump_number dump_size dump_int dump_char dump_block words_memory le_bytes same_string
chunk_test = refl

-- The reader hands the chunk over in blocks of one byte.
abbrev bytewise : List ℕ → List (List ℕ)
bytewise [] = []
bytewise (b ∷ bs) = (b ∷ []) ∷ bytewise bs

until_end-bytewise : (bs : List ℕ) → until_end (bytewise bs) ≡ bs
unfolding until_end
until_end-bytewise [] = refl
until_end-bytewise (b ∷ bs) = ap (◌∷◌ b) (until_end-bytewise bs)

undump-chunk_example :
    (z' : Zio) × (undump accept 2 (Zio.init (bytewise (chunk true sample ++ (7 ∷ []))))
      ≡ ok (view true sample (some unknown_source)) z')
    × (stream z' ≡ 7 ∷ [])
undump-chunk_example =
    undump-chunk accept true sample 2 (Zio.init (bytewise (chunk true sample ++ (7 ∷ [])))) (7 ∷ [])
      (unfold depth in omega arith) (sample-Fits true) (stream-init _ ∙ until_end-bytewise _)

abbrev source_blocks : Zio
source_blocks = Zio.init (bytewise (chunk true sample ++ (7 ∷ [])))

loaded :
    (z' : Zio) × (undump accept 2 source_blocks ≡ ok (view true sample (some unknown_source)) z')
    × (stream z' ≡ 7 ∷ [])
loaded =
    undump-chunk accept true sample 2 source_blocks (7 ∷ []) (unfold depth in omega arith)
      (sample-Fits true) (stream-init _ ∙ until_end-bytewise _)

-- Only the header arrives.
abbrev cut : Zio
cut = record { blocks = []; buffered = header }

abbrev missing_part : List ℕ
missing_part = drop 13 (concat (chunk_blocks true sample))

cut_whole : concat (chunk_blocks true sample) ≡ stream cut ++ (0 ∷ missing_part)
unfolding chunk_blocks same_string le_bytes words_memory stream until_end
cut_whole = refl

undump_truncated_example : (e : LoadError) × (undump accept 100 cut ≡ err e)
undump_truncated_example =
    undump_truncated accept true sample 100 cut 0 missing_part (unfold depth in omega arith)
      (unfold stream until_end in omega arith) (sample-Fits true) cut_whole

undump-IsChecked_example : IsChecked accept (view true sample (some unknown_source))
undump-IsChecked_example = undump-IsChecked accept 2 _ loaded.0 _ loaded.1

undump-header_example : take 12 (stream source_blocks) ≡ header
undump-header_example = undump-header accept 2 _ loaded.0 _ loaded.1

read-IsRead_example :
    IsRead
      (stream (Zio.init ((1 ∷ 2 ∷ []) ∷ (3 ∷ []) ∷ [])))
      3
      (Zio.read (Zio.init ((1 ∷ 2 ∷ []) ∷ (3 ∷ []) ∷ [])) 3)
read-IsRead_example = read-IsRead (Zio.init ((1 ∷ 2 ∷ []) ∷ (3 ∷ []) ∷ [])) 3

-- A writer that fails on its third call.
abbrev third_fails : ℕ → List ℕ → ℕ × ℕ
third_fails n b = (n + 1, n / 2)

dump-feed_example : dump third_fails sample 0 true ≡ feed third_fails 0 (chunk_blocks true sample)
dump-feed_example = dump-feed third_fails sample 0 true

stops_at_failure : dump third_fails sample 0 true ≡ (3, 1)
unfolding dump dump_header dump_function dump_prefix dump_prefix_if dump_code dump_constants
    dump_list dump_each dump_constant dump_debug dump_debug_if dump_locvar dump_string dump_vector
    dump_number dump_size dump_int dump_char dump_block words_memory le_bytes same_string
stops_at_failure = refl
