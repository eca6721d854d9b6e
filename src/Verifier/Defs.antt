-- ===== src/Verifier/Defs.antt =====
-- precheck, checkArgMode, symbexec and luaG_checkcode.
use hack_livesuite.Common.{
  ℕ, zero, suc, ◌+◌, ◌-◌, Bool, true, false, not, ◌&&◌, ◌||◌, ◌==◌, leb, ltb, if◌then◌else◌, length,
  get_elem?, Option, none, some, bit_and,
}
use hack_livesuite.Proto.{
  Verdict, accepted, rejected, crashed, Constant, Fields, Proto, Protos, count_protos, proto,
  no_protos, more,
}
use hack_livesuite.Opcodes.{
  arg_a, arg_b, arg_c, get, get_bx, max_sbx, is_k, index_k, OpCode, opcode_of, op_modes, OpMode,
  iabc, iabx, iasbx, OpArgMask, arg_n, arg_u, arg_r, arg_k,
}
use hack_livesuite.Opcodes.{
  op_getupval, op_setupval, op_getglobal, op_setglobal, op_loadbool, op_loadnil, op_self, op_concat,
  op_jmp, op_call, op_tailcall, op_return, op_forloop, op_forprep, op_tforloop, op_setlist,
  op_closure, op_vararg, op_move,
}

-- What a piece of the verifier comes to.
pub data Checked (A : Type 0) : Type 0 where
  passed : A → Checked A
  refused : Checked A
  fault : Checked A

infixl 5 ◌>>=◌ ◌>>◌
abbrev pub ◌>>=◌ : {A B : Type 0} → Checked A → (A → Checked B) → Checked B
passed a >>= f = f a
refused >>= f = refused
fault >>= f = fault

abbrev pub ◌>>◌ : {B : Type 0} → Checked (Unit {0}) → Checked B → Checked B
m >> k = m >>= λ _. k

-- check(x)
abbrev pub check : Bool → Checked (Unit {0})
check true = passed tt
check false = refused

-- pt->code[pc]
abbrev pub found : {A : Type 0} → Option A → Checked A
found none = fault
found (some x) = passed x

unfoldable pub fetch : Fields → ℕ → Checked ℕ
fetch f pc = found (get_elem? f.code pc)

-- Tests of the opcode of an instruction.
abbrev pub is_jmp : Option OpCode → Bool
is_jmp (some op_jmp) = true
is_jmp _ = false

abbrev pub is_return : Option OpCode → Bool
is_return (some op_return) = true
is_return _ = false

abbrev pub is_setlist : Option OpCode → Bool
is_setlist (some op_setlist) = true
is_setlist _ = false

abbrev pub is_capture : Option OpCode → Bool
is_capture (some op_getupval) = true
is_capture (some op_move) = true
is_capture _ = false

-- A SETLIST whose count is the next word of the code.
unfoldable pub has_count : ℕ → Bool
has_count i = is_setlist (opcode_of i) && get arg_c i == 0

-- MAXSTACK; NO_REG; VARARG_ISVARARG and VARARG_NEEDSARG
abbrev pub max_stack : ℕ
max_stack = 250

abbrev pub no_reg : ℕ
no_reg = 255

unfoldable pub takes_varargs : Fields → Bool
takes_varargs f = not (bit_and f.is_vararg 2 == 0) && bit_and f.is_vararg 4 == 0

-- checkreg(pt,reg)
unfoldable pub check_reg : Fields → ℕ → Checked (Unit {0})
check_reg f reg = check (ltb reg f.maxstacksize)

unfoldable pub precheck : Fields → Checked (Unit {0})
precheck f = do
  check (leb f.maxstacksize max_stack)
  check (leb (length f.upvalues) f.nups)
  check (length f.lineinfo == length f.code || length f.lineinfo == 0)
  i ← fetch f (length f.code - 1)
  check (is_return (opcode_of i))

-- luaG_checkopenop
unfoldable pub open_op : Option OpCode → ℕ → Bool
open_op (some op_call) b = b == 0
open_op (some op_tailcall) b = b == 0
open_op (some op_return) b = b == 0
open_op (some op_setlist) b = b == 0
open_op _ b = false

-- checkopenop(pt,pc)
unfoldable pub check_open_op : Fields → ℕ → Checked (Unit {0})
check_open_op f pc = do i ← fetch f (pc + 1); check (open_op (opcode_of i) (get arg_b i))

-- checkArgMode
unfoldable pub check_arg_mode : Fields → ℕ → OpArgMask → Checked (Unit {0})
check_arg_mode f r arg_n = check (r == 0)
check_arg_mode f r arg_u = passed tt
check_arg_mode f r arg_r = check (ltb r f.maxstacksize)
check_arg_mode f r arg_k =
    check (if is_k r then ltb (index_k r) (length f.k) else ltb r f.maxstacksize)

-- `pc + 1 + b` for a signed b, which is kept as Bx: whether it is in the code, and its value.
unfoldable pub in_code : Fields → ℕ → ℕ → Bool
in_code f pc bx = leb max_sbx (pc + 1 + bx) && ltb (pc + 1 + bx - max_sbx) (length f.code)

unfoldable pub target : ℕ → ℕ → ℕ
target pc bx = pc + 1 + bx - max_sbx

-- `if (dest > 0) ...`: a jump to the count of a SETLIST is refused.
unfoldable pub check_target : Fields → ℕ → Checked (Unit {0})
check_target f zero = passed tt
check_target f (suc before) = do d ← fetch f before; check (not (has_count d))

unfoldable pub check_jump : Fields → ℕ → ℕ → Checked (Unit {0})
check_jump f pc bx = do check (in_code f pc bx); check_target f (target pc bx)

-- The switch on the mode of the opcode: the arguments b and c, b as Bx in the format iAsBx.
unfoldable pub arguments : Fields → ℕ → ℕ → OpArgMask → OpArgMask → OpMode → Checked (ℕ × ℕ)
arguments f pc i b_mode c_mode iabc = do
  check_arg_mode f (get arg_b i) b_mode
  check_arg_mode f (get arg_c i) c_mode
  passed (get arg_b i, get arg_c i)
arguments f pc i arg_k c_mode iabx = do check (ltb (get_bx i) (length f.k)); passed (get_bx i, 0)
arguments f pc i _ c_mode iabx = passed (get_bx i, 0)
arguments f pc i arg_r c_mode iasbx = do check_jump f pc (get_bx i); passed (get_bx i, 0)
arguments f pc i _ c_mode iasbx = passed (get_bx i, 0)

-- `if (testTMode(op)) ...`: a test is followed by a jump.
unfoldable pub check_skip : Fields → ℕ → Bool → Checked (Unit {0})
check_skip f pc false = passed tt
check_skip f pc true = do
  check (ltb (pc + 2) (length f.code))
  i ← fetch f (pc + 1)
  check (is_jmp (opcode_of i))

-- pt->p[b]->nups
unfoldable pub nups_at : Protos → ℕ → Checked ℕ
nups_at no_protos b = fault
nups_at (more (proto f ps) rest) zero = passed f.nups
nups_at (more f rest) (suc b) = nups_at rest b

-- ttisstring(&pt->k[b])
abbrev pub is_string : Constant → Bool
is_string (Constant.string s) = true
is_string _ = false

-- OP_GETGLOBAL and OP_SETGLOBAL
unfoldable pub check_string : Fields → ℕ → Checked (Unit {0})
check_string f b = do k ← found (get_elem? f.k b); check (is_string k)

-- The loop of OP_CLOSURE over the pseudo-instructions that tell the upvalues, last one first.
unfoldable pub check_captures : Fields → ℕ → ℕ → Checked (Unit {0})
check_captures f pc zero = passed tt
check_captures f pc (suc nup) = do
  i ← fetch f (pc + suc nup)
  check (is_capture (opcode_of i))
  check_captures f pc nup

module _ (f : Fields) (ps : Protos) (lastpc reg : ℕ) where
  -- The jump of OP_JMP, OP_FORLOOP and OP_FORPREP. The pc is the one before the loop's `pc++`.
  unfoldable pub jump : ℕ → ℕ → ℕ → ℕ × ℕ
  jump pc last bx =
      let dest = target pc bx in
      if not (reg == no_reg) && ltb pc dest && leb dest lastpc then (dest - 1, last) else (pc, last)

  abbrev pub changed : Bool → ℕ → ℕ → ℕ
  changed b pc last = if b then pc else last

  -- OP_CALL and OP_TAILCALL: the registers of the arguments and of the results.
  unfoldable pub check_call : ℕ → ℕ → ℕ → ℕ → ℕ → Checked (ℕ × ℕ)
  check_call pc last a b c = do
    check (b == 0 || ltb (a + b - 1) f.maxstacksize)
    (if c == 0 then check_open_op f pc else check (c == 1 || ltb (a + c - 2) f.maxstacksize))
    passed (pc, changed (leb a reg) pc last)

  -- The switch on the opcode: the pc and `last` after it.
  unfoldable pub switch : OpCode → ℕ → ℕ → ℕ → ℕ → ℕ → Checked (ℕ × ℕ)
  switch op_loadbool pc last a b c = do
    check (c == 0 || ltb (pc + 2) (length f.code))
    passed (pc, last)
  switch op_loadnil pc last a b c = passed (pc, changed (leb a reg && leb reg b) pc last)
  switch op_getupval pc last a b c = do check (ltb b f.nups); passed (pc, last)
  switch op_setupval pc last a b c = do check (ltb b f.nups); passed (pc, last)
  switch op_getglobal pc last a b c = do check_string f b; passed (pc, last)
  switch op_setglobal pc last a b c = do check_string f b; passed (pc, last)
  switch op_self pc last a b c = do check_reg f (a + 1); passed (pc, changed (reg == a + 1) pc last)
  switch op_concat pc last a b c = do check (ltb b c); passed (pc, last)
  switch op_tforloop pc last a b c = do
    check (leb 1 c)
    check_reg f (a + 2 + c)
    passed (pc, changed (leb (a + 2) reg) pc last)
  switch op_forloop pc last a b c = do check_reg f (a + 3); passed (jump pc last b)
  switch op_forprep pc last a b c = do check_reg f (a + 3); passed (jump pc last b)
  switch op_jmp pc last a b c = passed (jump pc last b)
  switch op_call pc last a b c = check_call pc last a b c
  switch op_tailcall pc last a b c = check_call pc last a b c
  switch op_return pc last a b c = do
    check (leb b 1 || ltb (a + b - 2) f.maxstacksize)
    passed (pc, last)
  switch op_setlist pc last a b c = do
    check (b == 0 || ltb (a + b) f.maxstacksize)
    passed (if c == 0 then pc + 1 else pc, last)
  switch op_closure pc last a b c = do
    check (ltb b (count_protos ps))
    nup ← nups_at ps b
    check (ltb (pc + nup) (length f.code))
    check_captures f pc nup
    passed (pc, last)
  switch op_vararg pc last a b c = do
    check (takes_varargs f)
    (if b == 0 then check_open_op f pc else passed tt)
    check (ltb (a + b) (f.maxstacksize + 2))
    passed (pc, last)
  switch _ pc last a b c = passed (pc, last)

  -- The body of the loop, after the opcode is known.
  unfoldable pub inspect : OpCode → ℕ → ℕ → ℕ → Checked (ℕ × ℕ)
  inspect o i pc last = do
    let m = op_modes o
    check_reg f (get arg_a i)
    (b, c) ← arguments f pc i m.b_mode m.c_mode m.mode
    check_skip f pc m.t
    switch o pc (changed (m.a_set && get arg_a i == reg) pc last) (get arg_a i) b c

  unfoldable pub inspect_known : Option OpCode → ℕ → ℕ → ℕ → Checked (ℕ × ℕ)
  inspect_known none i pc last = refused
  inspect_known (some o) i pc last = inspect o i pc last

  -- The body of the loop.
  unfoldable pub round : ℕ → ℕ → Checked (ℕ × ℕ)
  round pc last = do i ← fetch f pc; inspect_known (opcode_of i) i pc last

  -- The loop on fuel: `last` at its end. The pc grows in each round.
  unfoldable pub scan : ℕ → ℕ → ℕ → Checked ℕ
  scan zero pc last = passed last
  scan (suc fuel) pc last =
      let next = round pc last >>= λ (pc', last'). scan fuel (pc' + 1) last' in
      if ltb pc lastpc then next else passed last

  -- symbexec, with `refused` for its result 0.
  unfoldable pub symbexec : Checked ℕ
  symbexec = do precheck f; last ← scan lastpc 0 (length f.code - 1); fetch f last

-- luaG_checkcode
unfoldable pub accepts : Checked ℕ → Verdict
accepts (passed i) = if i == 0 then rejected else accepted
accepts refused = rejected
accepts fault = crashed

unfoldable pub check_code : Proto → Verdict
check_code (proto f ps) = accepts (symbexec f ps (length f.code) no_reg)
