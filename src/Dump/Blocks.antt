-- ===== src/Dump/Blocks.antt =====
-- The blocks of a precompiled chunk in the order in which they are written, as a function of the
-- prototype alone, with no writer and no state.
use hack_livesuite.Common.{ℕ, ◌+◌, ◌%◌, Option, none, some, List, [], ◌∷◌, ◌++◌}
use hack_livesuite.Common.{Bool, ◌||◌, if◌then◌else◌, length}
use hack_livesuite.Common.Bytes.{le_bytes}
use hack_livesuite.Proto.{
  TString, Constant, LocVar, Fields, Proto, Protos, count_protos, same_string, proto, no_protos,
  more,
}
use hack_livesuite.Proto.{nil, boolean, number, string, other}
use hack_livesuite.Dump.{header, words_memory}

abbrev pub Blocks : Type 0
Blocks = List (List ℕ)

abbrev pub char_blocks : ℕ → Blocks
char_blocks y = ((y % 256) ∷ []) ∷ []

abbrev pub int_blocks : ℕ → Blocks
int_blocks x = le_bytes 4 x ∷ []

abbrev pub long_blocks : ℕ → Blocks
long_blocks x = le_bytes 8 x ∷ []

abbrev pub vector_blocks : List ℕ → Blocks
vector_blocks ws = int_blocks (length ws) ++ (words_memory ws ∷ [])

abbrev pub string_blocks : Option TString → Blocks
string_blocks none = long_blocks 0
string_blocks (some s) = long_blocks (length s + 1) ++ ((s ++ (0 ∷ [])) ∷ [])

abbrev pub constant_blocks : Constant → Blocks
constant_blocks nil = char_blocks 0
constant_blocks (boolean b) = char_blocks 1 ++ char_blocks b
constant_blocks (number x) = char_blocks 3 ++ long_blocks x
constant_blocks (string s) = char_blocks 4 ++ string_blocks s
constant_blocks (other t) = char_blocks t

abbrev pub each_blocks : {A : Type 0} → (A → Blocks) → List A → Blocks
each_blocks blocks [] = []
each_blocks blocks (x ∷ xs) = blocks x ++ each_blocks blocks xs

abbrev pub locvar_blocks : LocVar → Blocks
locvar_blocks v = string_blocks v.varname ++ (int_blocks v.startpc ++ int_blocks v.endpc)

abbrev pub list_blocks : {A : Type 0} → (A → Blocks) → List A → Blocks
list_blocks blocks xs = int_blocks (length xs) ++ each_blocks blocks xs

abbrev pub debug_blocks : Bool → Fields → Blocks
debug_blocks strip f =
    vector_blocks (if strip then [] else f.lineinfo)
    ++ (list_blocks locvar_blocks (if strip then [] else f.locvars)
        ++ list_blocks string_blocks (if strip then [] else f.upvalues))

abbrev pub prefix_blocks : Bool → Fields → Option TString → Blocks
prefix_blocks strip f p =
    string_blocks (if same_string f.source p || strip then none else f.source)
    ++ (int_blocks f.linedefined
        ++ (int_blocks f.lastlinedefined
            ++ (char_blocks f.nups
                ++ (char_blocks f.numparams
                    ++ (char_blocks f.is_vararg ++ char_blocks f.maxstacksize)))))

unfoldable mutual
  pub function_blocks : Bool → Proto → Option TString → Blocks
  function_blocks strip (proto f ps) p =
      prefix_blocks strip f p
      ++ (vector_blocks f.code
          ++ (list_blocks constant_blocks f.k
              ++ (int_blocks (count_protos ps)
                  ++ (protos_blocks strip ps f.source ++ debug_blocks strip f))))

  pub protos_blocks : Bool → Protos → Option TString → Blocks
  protos_blocks strip no_protos p = []
  protos_blocks strip (more f ps) p = function_blocks strip f p ++ protos_blocks strip ps p

-- The blocks of the whole chunk.
unfoldable pub chunk_blocks : Bool → Proto → Blocks
unfolding function_blocks
chunk_blocks strip f = header ∷ function_blocks strip f none
