-- ===== src/Dump.antt =====
-- lua-5.1/ldump.c: saving a function as a precompiled chunk, and luaU_header of lundump.c.
-- The sizes are those of x86-64: int and Instruction take 4 bytes, size_t and lua_Number 8.
-- The writer is the caller's callback. It takes the caller's data and a block, and returns the
-- new data with its status; a status other than 0 means that it failed.
pub mod Blocks
pub mod Write
use hack_livesuite.Common.{ℕ, zero, suc, ◌+◌, ◌%◌, Option, none, some, List, [], ◌∷◌, ◌++◌}
use hack_livesuite.Common.{Bool, true, false, ◌==◌, ◌||◌, if◌then◌else◌, length}
use hack_livesuite.Common.Bytes.{le_bytes}
use hack_livesuite.Proto.{
  TString, Constant, LocVar, Fields, Proto, Protos, count_protos, same_string, proto, no_protos,
  more,
}
use hack_livesuite.Proto.{nil, boolean, number, string, other}

pub record DumpState (W : Type 0) : Type 0 where
  pub user_data : W
  pub strip : Bool
  pub status : ℕ

-- luaU_header: "\033Lua", version, format, endianness, and the sizes of int, size_t, Instruction
-- and lua_Number, which is no integral type.
abbrev pub header : List ℕ
header = 27 ∷ 76 ∷ 117 ∷ 97 ∷ 0x51 ∷ 0 ∷ 1 ∷ 4 ∷ 8 ∷ 4 ∷ 8 ∷ 0 ∷ []

-- The memory of an array of ints or Instructions.
unfoldable pub words_memory : List ℕ → List ℕ
words_memory [] = []
words_memory (w ∷ ws) = le_bytes 4 w ++ words_memory ws

module _ {W : Type 0} (writer : W → List ℕ → W × ℕ) where
  abbrev pub Dumper : Type 0
  Dumper = DumpState W → DumpState W

  infixr 20 ◌⟫◌
  abbrev pub ◌⟫◌ : Dumper → Dumper → Dumper
  ◌⟫◌ first second D = second (first D)

  unfoldable pub dump_block : List ℕ → Dumper
  dump_block b D =
      let r = writer D.user_data b in
      if D.status == 0 then record D { user_data = r.0; status = r.1 } else D

  unfoldable pub dump_char : ℕ → Dumper
  dump_char y = dump_block ((y % 256) ∷ [])

  unfoldable pub dump_int : ℕ → Dumper
  dump_int x = dump_block (le_bytes 4 x)

  unfoldable pub dump_size : ℕ → Dumper
  dump_size x = dump_block (le_bytes 8 x)

  unfoldable pub dump_number : ℕ → Dumper
  dump_number x = dump_block (le_bytes 8 x)

  -- DumpVector at an array of ints or Instructions
  unfoldable pub dump_vector : List ℕ → Dumper
  dump_vector ws = dump_int (length ws) ⟫ dump_block (words_memory ws)

  unfoldable pub dump_string : Option TString → Dumper
  dump_string none = dump_size 0
  dump_string (some s) = dump_size (length s + 1) ⟫ dump_block (s ++ (0 ∷ []))

  unfoldable pub dump_code : Fields → Dumper
  dump_code f = dump_vector f.code

  unfoldable pub dump_constant : Constant → Dumper
  dump_constant nil = dump_char 0
  dump_constant (boolean b) = dump_char 1 ⟫ dump_char b
  dump_constant (number x) = dump_char 3 ⟫ dump_number x
  dump_constant (string s) = dump_char 4 ⟫ dump_string s
  dump_constant (other t) = dump_char t

  -- `for (i=0; i<n; i++) dump(a[i],D);`
  unfoldable pub dump_each : {A : Type 0} → (A → Dumper) → List A → Dumper
  dump_each dump [] D = D
  dump_each dump (x ∷ xs) D = dump_each dump xs (dump x D)

  unfoldable pub dump_locvar : LocVar → Dumper
  dump_locvar v = dump_string v.varname ⟫ dump_int v.startpc ⟫ dump_int v.endpc

  -- `dump_int` and a loop over the array
  unfoldable pub dump_list : {A : Type 0} → (A → Dumper) → List A → Dumper
  dump_list dump xs = dump_int (length xs) ⟫ dump_each dump xs

  -- DumpDebug under the value of D->strip
  unfoldable pub dump_debug_if : Bool → Fields → Dumper
  dump_debug_if strip f =
      dump_vector (if strip then [] else f.lineinfo)
      ⟫ dump_list dump_locvar (if strip then [] else f.locvars)
      ⟫ dump_list dump_string (if strip then [] else f.upvalues)

  unfoldable pub dump_debug : Fields → Dumper
  dump_debug f D = dump_debug_if D.strip f D

  -- The first half of DumpConstants, over `k`; the second is `dump_protos`.
  unfoldable pub dump_constants : Fields → Dumper
  dump_constants f = dump_list dump_constant f.k

  -- What DumpFunction writes before the code.
  unfoldable pub dump_prefix_if : Bool → Fields → Option TString → Dumper
  dump_prefix_if strip f p =
      dump_string (if same_string f.source p || strip then none else f.source)
      ⟫ dump_int f.linedefined
      ⟫ dump_int f.lastlinedefined
      ⟫ dump_char f.nups
      ⟫ dump_char f.numparams
      ⟫ dump_char f.is_vararg
      ⟫ dump_char f.maxstacksize

  unfoldable pub dump_prefix : Fields → Option TString → Dumper
  dump_prefix f p D = dump_prefix_if D.strip f p D

  unfoldable mutual
    pub dump_function : Proto → Option TString → Dumper
    dump_function (proto f ps) p =
        dump_prefix f p
        ⟫ dump_code f
        ⟫ dump_constants f
        ⟫ dump_int (count_protos ps)
        ⟫ dump_protos ps f.source
        ⟫ dump_debug f

    -- `for (i=0; i<n; i++) DumpFunction(f->p[i],f->source,D);`
    pub dump_protos : Protos → Option TString → Dumper
    dump_protos no_protos p D = D
    dump_protos (more f ps) p D = dump_protos ps p (dump_function f p D)

  unfoldable pub dump_header : Dumper
  dump_header = dump_block header

  -- luaU_dump: the caller's data after the writer's calls, and the status.
  unfoldable pub dump : Proto → W → Bool → W × ℕ
  dump f user_data strip =
      let D : DumpState W = record { user_data = user_data; strip = strip; status = 0 } in
      let D' = dump_function f none (dump_header D) in (D'.user_data, D'.status)
