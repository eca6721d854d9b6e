-- ===== src/Chunk/VerifiedRuns.antt =====
-- A chunk that passes the verifier.
use hack_livesuite.Common.{ℕ, ◌<◌, ◌≡◌, refl, arith, true, replicate, ◌++◌, [], ◌∷◌, some}
use hack_livesuite.Zio.{Zio}
use hack_livesuite.Zio.Stream.{stream, until_end}
use hack_livesuite.Proto.{Fields, Proto, proto, no_protos}
use hack_livesuite.Opcodes.{opcode_of, get, get_field, mask1}
use hack_livesuite.Dump.{header}
use hack_livesuite.Zio.{read}
use hack_livesuite.Common.Bytes.{le_value}
use hack_livesuite.Proto.{same_bytes}
use hack_livesuite.Undump.{
  crash, load_header, load_function, load_body, load_unchecked, load_prefix, load_block, load_char,
  load_byte, load_int, load_string, load_string_of, load_vector, words_of, load_times, load_list,
  load_constants, load_debug, load_protos, checked, sign_extend, ok, undump, unknown_source,
}
use hack_livesuite.Undump.View.{view, depth, Fits}
use hack_livesuite.Verifier.Defs.{
  check_code, accepts, symbexec, scan, round, inspect_known, inspect, switch, precheck, fetch,
  check_reg, arguments, check_arg_mode, check_skip,
}
use hack_livesuite.Verifier.Valid.{Scanned, IsValidAt}
use hack_livesuite.Verifier.Sound.{EndsInReturn}
use hack_livesuite.Chunk.{chunk, undump-chunk}
use hack_livesuite.Chunk.Verified.{undump-IsValidAt, self, Ends, undump-Ends}

abbrev fields : Fields
fields = record {
  k = [];
  code = 0x80001e ∷ [];
  lineinfo = [];
  locvars = [];
  upvalues = [];
  source = some unknown_source;
  linedefined = 0;
  lastlinedefined = 0;
  nups = 0;
  numparams = 0;
  is_vararg = 2;
  maxstacksize = 2;
}

abbrev return_only : Proto
return_only = proto fields no_protos

return_only-Fits : Fits check_code true return_only (some unknown_source)
unfolding Fits check_code accepts symbexec scan round inspect_known inspect switch precheck fetch
    check_reg arguments check_arg_mode check_skip opcode_of get get_field mask1 view
return_only-Fits = (omega arith, omega arith, refl, tt)

abbrev one_block : Zio
one_block = record { blocks = []; buffered = chunk true return_only }

loaded : (z' : Zio) × (undump check_code 1 one_block ≡ ok return_only z') × (stream z' ≡ [])
unfolding view stream until_end
loaded =
    undump-chunk check_code true return_only 1 one_block [] (unfold depth in omega arith)
      return_only-Fits refl

undump-IsValidAt_example :
    EndsInReturn fields × ((t : ℕ) → Scanned fields t 0 → t < 1 → IsValidAt fields no_protos t)
undump-IsValidAt_example =
    undump-IsValidAt 1 one_block loaded.0 return_only fields no_protos loaded.1 (self refl)
      (omega arith)

-- The header and a function whose sizes are all 0.
abbrev no_code : Zio
no_code = record { blocks = []; buffered = header ++ replicate 44 0 }

undump-Ends_example : Ends (stream no_code) (undump check_code 100 no_code)
undump-Ends_example = undump-Ends 100 no_code (unfold stream until_end in omega arith)

no_code_crashes : undump check_code 100 no_code ≡ crash
unfolding undump load_header load_function load_body load_unchecked load_prefix load_block load_char
    load_byte load_int load_string load_string_of load_vector words_of load_times load_list
    load_constants load_debug load_protos checked sign_extend same_bytes check_code accepts symbexec
    precheck fetch read le_value
no_code_crashes = refl
