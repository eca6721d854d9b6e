-- ===== src/Verifier/Runs.antt =====
-- Concrete runs of the verifier.
use hack_livesuite.Verifier.Valid.{Scanned, IsValidAt}
use hack_livesuite.Verifier.Sound.{EndsInReturn, symbexec-ne-fault, check_code-IsValidAt}
use hack_livesuite.Common.{ℕ, ◌<◌, ◌≢◌, arith, ◌≡◌, refl, List, [], ◌∷◌, none}
use hack_livesuite.Proto.{accepted, crashed, Proto, Fields, proto, no_protos}
use hack_livesuite.Opcodes.{create_abc, opcode_of, get, get_field, mask1}
use hack_livesuite.Verifier.Defs.{
  fault, no_reg, check_code, accepts, symbexec, scan, round, inspect_known, inspect, switch,
  precheck, fetch, check_reg, arguments, check_arg_mode, check_skip,
}

abbrev fields_of : List ℕ → Fields
fields_of code = record {
  k = [];
  code = code;
  lineinfo = [];
  locvars = [];
  upvalues = [];
  source = none;
  linedefined = 0;
  lastlinedefined = 0;
  nups = 0;
  numparams = 0;
  is_vararg = 0;
  maxstacksize = 5;
}

abbrev with_code : List ℕ → Proto
with_code code = proto (fields_of code) no_protos

just_return : check_code (with_code (create_abc 30 0 1 0 ∷ [])) ≡ accepted
unfolding check_code accepts symbexec scan round inspect_known inspect switch precheck fetch
    check_reg arguments check_arg_mode check_skip opcode_of get get_field mask1 create_abc
just_return = refl

-- The last instruction of a function without code is read before its first one.
no_code : check_code (with_code []) ≡ crashed
unfolding check_code accepts symbexec scan round inspect_known inspect switch precheck fetch
    check_reg arguments check_arg_mode check_skip opcode_of get get_field mask1 create_abc
no_code = refl

-- SETLIST with C = 0 takes the RETURN behind it for its count, and falls off the code.
setlist_at_end : check_code (with_code (create_abc 34 0 1 0 ∷ create_abc 30 0 1 0 ∷ [])) ≡ accepted
unfolding check_code accepts symbexec scan round inspect_known inspect switch precheck fetch
    check_reg arguments check_arg_mode check_skip opcode_of get get_field mask1 create_abc
setlist_at_end = refl

-- LOADBOOL jumps over a SETLIST into its count.
loadbool_into_count :
    check_code
      (with_code (create_abc 2 0 0 1 ∷ create_abc 34 0 1 0 ∷ 63 ∷ create_abc 30 0 1 0 ∷ []))
    ≡ accepted
unfolding check_code accepts symbexec scan round inspect_known inspect switch precheck fetch
    check_reg arguments check_arg_mode check_skip opcode_of get get_field mask1 create_abc
loadbool_into_count = refl

abbrev return_only : Fields
return_only = fields_of (create_abc 30 0 1 0 ∷ [])

symbexec-ne-fault_example : symbexec return_only no_protos 1 no_reg ≢ fault
symbexec-ne-fault_example =
    symbexec-ne-fault return_only no_protos 1 no_reg (omega arith) (omega arith)

check_code-IsValidAt_example :
    EndsInReturn return_only
    × ((t : ℕ) → Scanned return_only t 0 → t < 1 → IsValidAt return_only no_protos t)
check_code-IsValidAt_example = check_code-IsValidAt return_only no_protos (omega arith) just_return
