-- ===== src/Luac/Runs.antt =====
-- Concrete runs of luac, and the theorems on them.
use hack_livesuite.Common.{
  ℕ, ◌≡◌, ◌↔◌, refl, sym, ap, arith, length, take, true, false, List, [], ◌∷◌, ◌++◌, some,
}
use hack_livesuite.Zio.{Zio}
use hack_livesuite.Zio.Stream.{stream, stream_buffered}
use hack_livesuite.Proto.{TString, same_string}
use hack_livesuite.Dump.{words_memory}
use hack_livesuite.Common.Bytes.{le_bytes}
use hack_livesuite.Dump.Blocks.{Blocks, chunk_blocks}
use hack_livesuite.Undump.{ok, undump, unknown_source}
use hack_livesuite.Undump.View.{view, depth}
use hack_livesuite.Chunk.Sample.{sample, accept, sample-Fits}
use hack_livesuite.Luac.{Host, main, open_state, close_state, open_file, close_file, saved}
use hack_livesuite.Luac.Main.{
  write_blocks, Written, take-length, Succeeds, IsReleased, main-saved, main-Succeeds,
  main-IsReleased, main-undump,
}

-- Every input is the sample; an output keeps what is written.
abbrev disk : Host
disk = record {
  File = List ℕ;
  newstate = true;
  loadfile = λ name. some (some sample);
  fopen = λ name. some [];
  fwrite = λ file b. (file ++ b, length b);
  fclose = λ file. file;
}

-- The same, but fwrite writes nothing, as on a full disk.
abbrev full_disk : Host
full_disk = record disk { fwrite = λ file b. (file, 0) }

abbrev args : List TString
args = (108 ∷ []) ∷ (97 ∷ []) ∷ (98 ∷ []) ∷ []

main-saved_example : main full_disk args ≡ record {
  code = 0;
  report = saved;
  output = some (write_blocks full_disk [] (chunk_blocks false sample));
  resources = open_state ∷ open_file ∷ close_file ∷ close_state ∷ [];
}
main-saved_example = main-saved full_disk (108 ∷ []) (97 ∷ []) (98 ∷ []) sample [] refl refl refl

-- luac reports success though the output is empty.
full_disk_is_empty : (main full_disk args).output ≡ some []
unfolding write_blocks chunk_blocks same_string le_bytes words_memory
full_disk_is_empty =
    ap (λ r. r.output)
      (main-saved full_disk (108 ∷ []) (97 ∷ []) (98 ∷ []) sample [] refl refl refl)

main-Succeeds_example : ((main disk args).code ≡ 0) ↔ Succeeds disk args
main-Succeeds_example = main-Succeeds disk args

main-IsReleased_example : IsReleased (main disk args).resources
main-IsReleased_example = main-IsReleased disk args

output : List ℕ
output = write_blocks disk [] (chunk_blocks false sample)

all-Written : (bs : Blocks) (file : List ℕ) → Written disk file bs
unfolding Written
all-Written [] file = tt
all-Written (b ∷ bs) file = (refl, all-Written bs (file ++ b))

appended : (file b : List ℕ) → file ++ b ≡ file ++ take (length b) b
appended file b = ap (λ x. file ++ x) (sym (take-length b))

main-undump_example :
    (z' : Zio) × (undump accept 2 (record { blocks = []; buffered = output })
      ≡ ok (view false sample (some unknown_source)) z')
    × (stream z' ≡ [])
unfolding output
main-undump_example =
    main-undump disk (λ file. file) appended (108 ∷ []) (97 ∷ []) (98 ∷ []) sample [] output accept
      2 (record { blocks = []; buffered = output }) refl refl refl refl
      (all-Written (chunk_blocks false sample) []) refl (unfold depth in omega arith)
      (sample-Fits false)
      (ap (λ r. r.output) (main-saved disk (108 ∷ []) (97 ∷ []) (98 ∷ []) sample [] refl refl refl))
      (stream_buffered output)
