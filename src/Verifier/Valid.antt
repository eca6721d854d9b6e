-- ===== src/Verifier/Valid.antt =====
-- What the verifier is for: code whose instructions stay within the registers, the constants, the
-- upvalues, the inner functions and the code.
use hack_livesuite.Common.{
  ℕ, suc, ◌+◌, ◌-◌, ◌≤◌, ◌<◌, ◌≡◌, ◌≢◌, ◌⊎◌, Bool, true, false, if◌then◌else◌, List, length,
  get_elem?, Option, some,
}
use hack_livesuite.Proto.{Fields, Protos, Constant}
use hack_livesuite.Opcodes.{
  arg_a, arg_b, arg_c, get, get_bx, max_sbx, is_k, index_k, OpCode, opcode_of, op_modes, OpMode,
  iabc, iabx, iasbx, OpArgMask, arg_n, arg_u, arg_r, arg_k,
}
use hack_livesuite.Opcodes.{
  op_getupval, op_setupval, op_getglobal, op_setglobal, op_self, op_call, op_tailcall, op_return,
  op_forloop, op_forprep, op_tforloop, op_setlist, op_closure, op_loadbool, op_vararg,
}
use hack_livesuite.Verifier.Defs.{
  has_count, nups_at, passed, is_capture, is_jmp, open_op, takes_varargs,
}

-- The arguments b and c of an instruction, by the format of its opcode.
abbrev pub b_of : ℕ → OpMode → ℕ
b_of i iabc = get arg_b i
b_of i iabx = get_bx i
b_of i iasbx = get_bx i

abbrev pub c_of : ℕ → OpMode → ℕ
c_of i iabc = get arg_c i
c_of i iabx = 0
c_of i iasbx = 0

module _ (f : Fields) where
  -- The word at `pc` is in the code and has the property.
  abbrev pub WordAt : ℕ → (ℕ → Type 0) → Type 0
  WordAt pc P = (i : ℕ) × (get_elem? f.code pc ≡ some i) × P i

  abbrev pub IsReg : ℕ → Type 0
  IsReg r = r < f.maxstacksize

  -- An argument of an instruction fits what its opcode takes there.
  abbrev pub ArgFits : ℕ → OpArgMask → Type 0
  ArgFits r arg_n = r ≡ 0
  ArgFits r arg_u = Unit {0}
  ArgFits r arg_r = IsReg r
  ArgFits r arg_k =
      (if is_k r then index_k r else r) < (if is_k r then length f.k else f.maxstacksize)

  -- A jump by a signed offset, kept as Bx, lands in the code, and not behind a word that takes it
  -- for its count.
  pub record JumpFits (pc bx : ℕ) : Type 0 where
    pub not_before : max_sbx ≤ pc + 1 + bx
    pub inside : pc + 1 + bx - max_sbx < length f.code
    pub no_count :
        (before : ℕ) → pc + 1 + bx - max_sbx ≡ suc before → WordAt before (λ d. has_count d ≡ false)

  abbrev pub ArgumentsFit : ℕ → ℕ → OpArgMask → OpArgMask → OpMode → Type 0
  ArgumentsFit pc i b_mode c_mode iabc = ArgFits (get arg_b i) b_mode × ArgFits (get arg_c i) c_mode
  ArgumentsFit pc i arg_k c_mode iabx = get_bx i < length f.k
  ArgumentsFit pc i _ c_mode iabx = Unit {0}
  ArgumentsFit pc i arg_r c_mode iasbx = JumpFits pc (get_bx i)
  ArgumentsFit pc i _ c_mode iasbx = Unit {0}

  -- A test is followed by a jump, and that by another word.
  abbrev pub SkipFits : ℕ → Bool → Type 0
  SkipFits pc false = Unit {0}
  SkipFits pc true = (pc + 2 < length f.code) × WordAt (pc + 1) (λ j. is_jmp (opcode_of j) ≡ true)

  -- A call or a vararg with an open number of results is followed by its user.
  abbrev pub IsOpen : ℕ → Type 0
  IsOpen pc = WordAt (pc + 1) (λ j. open_op (opcode_of j) (get arg_b j) ≡ true)

  abbrev pub CallFits : ℕ → ℕ → ℕ → ℕ → Type 0
  CallFits pc a b c =
      ((b ≡ 0) ⊎ (a + b - 1 < f.maxstacksize))
      × (((c ≡ 0) × IsOpen pc) ⊎ (c ≡ 1) ⊎ (a + c - 2 < f.maxstacksize))

  -- The pcs that a pass over the code comes to from one pc on: it passes over the count of a SETLIST.
  pub data Scanned (t : ℕ) : ℕ → Type 0 where
    here : {s : ℕ} → s ≡ t → Scanned t s
    later :
        {s i : ℕ}
        → get_elem? f.code s ≡ some i
        → Scanned t (if has_count i then s + 2 else s + 1)
        → Scanned t s

  module _ (ps : Protos) where
    -- What each opcode asks beyond its arguments' modes. `b` is Bx where the format has one.
    abbrev pub OpFits : OpCode → ℕ → ℕ → ℕ → ℕ → Type 0
    OpFits op_loadbool pc a b c = (c ≡ 0) ⊎ (pc + 2 < length f.code)
    OpFits op_getupval pc a b c = b < f.nups
    OpFits op_setupval pc a b c = b < f.nups
    OpFits op_getglobal pc a b c =
        (s : Option (List ℕ)) × (get_elem? f.k b ≡ some (Constant.string s))
    OpFits op_setglobal pc a b c =
        (s : Option (List ℕ)) × (get_elem? f.k b ≡ some (Constant.string s))
    OpFits op_self pc a b c = IsReg (a + 1)
    OpFits op_tforloop pc a b c = (1 ≤ c) × IsReg (a + 2 + c)
    OpFits op_forloop pc a b c = IsReg (a + 3)
    OpFits op_forprep pc a b c = IsReg (a + 3)
    OpFits op_call pc a b c = CallFits pc a b c
    OpFits op_tailcall pc a b c = CallFits pc a b c
    OpFits op_return pc a b c = (b ≤ 1) ⊎ (a + b - 2 < f.maxstacksize)
    OpFits op_setlist pc a b c = (b ≡ 0) ⊎ (a + b < f.maxstacksize)
    OpFits op_closure pc a b c =
        (nup : ℕ) × (nups_at ps b ≡ passed nup)
        × (pc + nup < length f.code)
        × ((j : ℕ) → j < nup → WordAt (pc + suc j) (λ i. is_capture (opcode_of i) ≡ true))
    OpFits op_vararg pc a b c =
        (takes_varargs f ≡ true) × (((b ≡ 0) × IsOpen pc) ⊎ (b ≢ 0)) × (a + b < f.maxstacksize + 2)
    OpFits _ pc a b c = Unit {0}

    -- The instruction `i` at `pc` keeps within the function.
    pub record IsValid (o : OpCode) (pc i : ℕ) : Type 0 where
      pub target : IsReg (get arg_a i)
      pub arguments : ArgumentsFit pc i (op_modes o).b_mode (op_modes o).c_mode (op_modes o).mode
      pub skip : SkipFits pc (op_modes o).t
      pub op : OpFits o pc (get arg_a i) (b_of i (op_modes o).mode) (c_of i (op_modes o).mode)

    abbrev pub IsValidAt : ℕ → Type 0
    IsValidAt pc = WordAt pc (λ i. (o : OpCode) × (opcode_of i ≡ some o) × IsValid o pc i)
