-- ===== src/Opcodes/Runs.antt =====
-- The fields of concrete instructions.
use hack_livesuite.Common.{ℕ, ◌^◌, ◌<◌, ◌≡◌, ◌≢◌, true, false, arith}
use hack_livesuite.Opcodes.{
  Field, opcode, arg_a, arg_b, arg_c, get, set_arg, get_bx, set_bx, create_abc, create_abx, is_k,
  index_k, rk_as_k,
}
use hack_livesuite.Opcodes.Fields.{get-set_arg, get_bx-set_bx}
use hack_livesuite.Opcodes.Create.{get-create, index_k-rk_as_k}

-- SETLIST 0 1 0
abbrev setlist : ℕ
setlist = 8388642

get-set_arg_example :
    (set_arg arg_c setlist 511 < 2 ^ 32)
    × (get arg_c (set_arg arg_c setlist 511) ≡ 511)
    × ((g : Field) → arg_c ≢ g → get g (set_arg arg_c setlist 511) ≡ get g setlist)
get-set_arg_example = get-set_arg arg_c setlist 511 (omega arith) (omega arith)

get_bx-set_bx_example :
    (set_bx setlist 131071 < 2 ^ 32)
    × (get_bx (set_bx setlist 131071) ≡ 131071)
    × (get opcode (set_bx setlist 131071) ≡ get opcode setlist)
    × (get arg_a (set_bx setlist 131071) ≡ get arg_a setlist)
get_bx-set_bx_example = get_bx-set_bx setlist 131071 (omega arith) (omega arith)

get-create_example :
    (get opcode (create_abc 28 1 2 1) ≡ 28)
    × (get arg_a (create_abc 28 1 2 1) ≡ 1)
    × (get arg_b (create_abc 28 1 2 1) ≡ 2)
    × (get arg_c (create_abc 28 1 2 1) ≡ 1)
    × (get opcode (create_abx 28 1 9) ≡ 28)
    × (get arg_a (create_abx 28 1 9) ≡ 1)
    × (get_bx (create_abx 28 1 9) ≡ 9)
get-create_example =
    get-create 28 1 2 1 9 (omega arith) (omega arith) (omega arith) (omega arith) (omega arith)

index_k-rk_as_k_example :
    (is_k (rk_as_k 7) ≡ true) × (index_k (rk_as_k 7) ≡ 7) × (is_k 7 ≡ false) × (rk_as_k 7 < 2 ^ 9)
index_k-rk_as_k_example = index_k-rk_as_k 7 (omega arith)
