-- ===== src/Opcodes.antt =====
-- lua-5.1/lopcodes.h and lopcodes.c: the fields of an instruction, its opcodes, and the table of
-- their modes. An Instruction is a number below 2 ^ 32; `~m` on it is 2 ^ 32 - 1 - m.
pub mod Fields
pub mod Create
mod Runs
use hack_livesuite.Common.{
  ℕ, zero, suc, ◌+◌, ◌-◌, ◌*◌, ◌/◌, ◌%◌, ◌^◌, bit_and, bit_or, Bool, true, false, not, ◌==◌, leb,
  List, [], ◌∷◌, get_elem?, Option, none, some, if◌then◌else◌,
}

-- MASK1(n,p) and MASK0(n,p)
unfoldable pub mask1 : ℕ → ℕ → ℕ
mask1 n p = (2 ^ n - 1) * 2 ^ p % 2 ^ 32

unfoldable pub mask0 : ℕ → ℕ → ℕ
mask0 n p = 2 ^ 32 - 1 - mask1 n p

-- `((i)>>p) & MASK1(n,0)`
unfoldable pub get_field : ℕ → ℕ → ℕ → ℕ
get_field p n i = bit_and (i / 2 ^ p) (mask1 n 0)

-- `((i)&MASK0(n,p)) | ((v<<p)&MASK1(n,p))`
unfoldable pub set_field : ℕ → ℕ → ℕ → ℕ → ℕ
set_field p n i v = bit_or (bit_and i (mask0 n p)) (bit_and (v * 2 ^ p % 2 ^ 32) (mask1 n p))

-- The four fields of the format iABC. B and C together are Bx.
pub data Field : Type 0 where
  opcode arg_a arg_c arg_b : Field

-- POS_OP, POS_A, POS_C, POS_B
abbrev pub pos : Field → ℕ
pos opcode = 0
pos arg_a = 6
pos arg_c = 14
pos arg_b = 23

-- SIZE_OP, SIZE_A, SIZE_C, SIZE_B
abbrev pub size : Field → ℕ
size opcode = 6
size arg_a = 8
size arg_c = 9
size arg_b = 9

-- GET_OPCODE, GETARG_A, GETARG_C, GETARG_B
unfoldable pub get : Field → ℕ → ℕ
get f i = get_field (pos f) (size f) i

-- SET_OPCODE, SETARG_A, SETARG_C, SETARG_B
unfoldable pub set_arg : Field → ℕ → ℕ → ℕ
set_arg f i v = set_field (pos f) (size f) i v

-- GETARG_Bx and SETARG_Bx
unfoldable pub get_bx : ℕ → ℕ
get_bx i = get_field 14 18 i

unfoldable pub set_bx : ℕ → ℕ → ℕ
set_bx i v = set_field 14 18 i v

-- MAXARG_Bx and MAXARG_sBx
abbrev pub max_bx : ℕ
max_bx = 2 ^ 18 - 1

abbrev pub max_sbx : ℕ
max_sbx = max_bx / 2

-- CREATE_ABC and CREATE_ABx
unfoldable pub create_abc : ℕ → ℕ → ℕ → ℕ → ℕ
create_abc o a b c =
    bit_or (bit_or (bit_or (o * 2 ^ 0 % 2 ^ 32) (a * 2 ^ 6 % 2 ^ 32)) (b * 2 ^ 23 % 2 ^ 32))
      (c * 2 ^ 14 % 2 ^ 32)

unfoldable pub create_abx : ℕ → ℕ → ℕ → ℕ
create_abx o a bc = bit_or (bit_or (o * 2 ^ 0 % 2 ^ 32) (a * 2 ^ 6 % 2 ^ 32)) (bc * 2 ^ 14 % 2 ^ 32)

-- BITRK, ISK, INDEXK, RKASK
abbrev pub bit_rk : ℕ
bit_rk = 2 ^ 8

unfoldable pub is_k : ℕ → Bool
is_k x = not (bit_and x bit_rk == 0)

unfoldable pub index_k : ℕ → ℕ
index_k r = bit_and r (2 ^ 32 - 1 - bit_rk)

unfoldable pub rk_as_k : ℕ → ℕ
rk_as_k x = bit_or x bit_rk

-- enum OpCode
pub data OpCode : Type 0 where
  op_move op_loadk op_loadbool op_loadnil op_getupval op_getglobal : OpCode
  op_gettable op_setglobal op_setupval op_settable op_newtable op_self : OpCode
  op_add op_sub op_mul op_div op_mod op_pow : OpCode
  op_unm op_not op_len op_concat op_jmp op_eq : OpCode
  op_lt op_le op_test op_testset op_call op_tailcall : OpCode
  op_return op_forloop op_forprep op_tforloop op_setlist op_close : OpCode
  op_closure op_vararg : OpCode

-- The opcodes in order. There are NUM_OPCODES of them.
abbrev pub opcodes : List OpCode
opcodes =
    op_move ∷ op_loadk ∷ op_loadbool ∷ op_loadnil ∷ op_getupval ∷ op_getglobal ∷ op_gettable
    ∷ op_setglobal ∷ op_setupval ∷ op_settable ∷ op_newtable ∷ op_self ∷ op_add ∷ op_sub ∷ op_mul
    ∷ op_div ∷ op_mod ∷ op_pow ∷ op_unm ∷ op_not ∷ op_len ∷ op_concat ∷ op_jmp ∷ op_eq ∷ op_lt
    ∷ op_le ∷ op_test ∷ op_testset ∷ op_call ∷ op_tailcall ∷ op_return ∷ op_forloop ∷ op_forprep
    ∷ op_tforloop ∷ op_setlist ∷ op_close ∷ op_closure ∷ op_vararg ∷ []

-- GET_OPCODE, as a value of the enumeration; `none` is a number that is no opcode.
unfoldable pub opcode_of : ℕ → Option OpCode
opcode_of i = get_elem? opcodes (get opcode i)

-- enum OpMode
pub data OpMode : Type 0 where
  iabc iabx iasbx : OpMode

-- enum OpArgMask: not used, used, a register or a jump offset, a constant or a register
pub data OpArgMask : Type 0 where
  arg_n arg_u arg_r arg_k : OpArgMask

-- A row of luaP_opmodes: testTMode, testAMode, getBMode, getCMode, getOpMode.
pub record OpModes : Type 0 where
  pub t : Bool
  pub a_set : Bool
  pub b_mode : OpArgMask
  pub c_mode : OpArgMask
  pub mode : OpMode

abbrev pub opmode : Bool → Bool → OpArgMask → OpArgMask → OpMode → OpModes
opmode t x y z m = record { t = t; a_set = x; b_mode = y; c_mode = z; mode = m }

-- luaP_opmodes. A row is kept as its parts, which the program packs into a byte.
abbrev pub op_modes : OpCode → OpModes
op_modes op_move = opmode false true arg_r arg_n iabc
op_modes op_loadk = opmode false true arg_k arg_n iabx
op_modes op_loadbool = opmode false true arg_u arg_u iabc
op_modes op_loadnil = opmode false true arg_r arg_n iabc
op_modes op_getupval = opmode false true arg_u arg_n iabc
op_modes op_getglobal = opmode false true arg_k arg_n iabx
op_modes op_gettable = opmode false true arg_r arg_k iabc
op_modes op_setglobal = opmode false false arg_k arg_n iabx
op_modes op_setupval = opmode false false arg_u arg_n iabc
op_modes op_settable = opmode false false arg_k arg_k iabc
op_modes op_newtable = opmode false true arg_u arg_u iabc
op_modes op_self = opmode false true arg_r arg_k iabc
op_modes op_add = opmode false true arg_k arg_k iabc
op_modes op_sub = opmode false true arg_k arg_k iabc
op_modes op_mul = opmode false true arg_k arg_k iabc
op_modes op_div = opmode false true arg_k arg_k iabc
op_modes op_mod = opmode false true arg_k arg_k iabc
op_modes op_pow = opmode false true arg_k arg_k iabc
op_modes op_unm = opmode false true arg_r arg_n iabc
op_modes op_not = opmode false true arg_r arg_n iabc
op_modes op_len = opmode false true arg_r arg_n iabc
op_modes op_concat = opmode false true arg_r arg_r iabc
op_modes op_jmp = opmode false false arg_r arg_n iasbx
op_modes op_eq = opmode true false arg_k arg_k iabc
op_modes op_lt = opmode true false arg_k arg_k iabc
op_modes op_le = opmode true false arg_k arg_k iabc
op_modes op_test = opmode true true arg_r arg_u iabc
op_modes op_testset = opmode true true arg_r arg_u iabc
op_modes op_call = opmode false true arg_u arg_u iabc
op_modes op_tailcall = opmode false true arg_u arg_u iabc
op_modes op_return = opmode false false arg_u arg_n iabc
op_modes op_forloop = opmode false true arg_r arg_n iasbx
op_modes op_forprep = opmode false true arg_r arg_n iasbx
op_modes op_tforloop = opmode true false arg_n arg_u iabc
op_modes op_setlist = opmode false false arg_u arg_u iabc
op_modes op_close = opmode false false arg_n arg_n iabc
op_modes op_closure = opmode false true arg_u arg_n iabx
op_modes op_vararg = opmode false true arg_u arg_n iabc
