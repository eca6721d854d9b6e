-- ===== src/Undump/View.antt =====
-- What a chunk keeps of a function, and which functions can be dumped and loaded again.
use hack_livesuite.Common.{ℕ, suc, ◌<◌, ◌^◌, max, ◌≡◌, Bool, true, false, [], Option, length, All}
use hack_livesuite.Proto.{
  Verdict, accepted, TString, Constant, LocVar, Fields, Proto, Protos, count_protos, proto,
  no_protos, more,
}
use hack_livesuite.Proto.{nil, boolean, number, string, other}
use hack_livesuite.Undump.{Debug, or_parent, with_debug}
use hack_livesuite.Undump.Reads.{StringFits}

-- The values that a C variable of the field's type can hold, and that an int is not negative.
abbrev pub ConstantFits : Constant → Type 0
ConstantFits nil = Unit {0}
ConstantFits (boolean b) = b < 128
ConstantFits (number x) = x < 2 ^ 64
ConstantFits (string s) = StringFits s
ConstantFits (other t) = ⊥

abbrev pub LocVarFits : LocVar → Type 0
LocVarFits v = StringFits v.varname × (v.startpc < 2 ^ 31) × (v.endpc < 2 ^ 31)

abbrev pub IsWord : ℕ → Type 0
IsWord w = w < 2 ^ 32

pub record FieldsFit (f : Fields) : Type 0 where
  pub source : StringFits f.source
  pub linedefined : f.linedefined < 2 ^ 31
  pub lastlinedefined : f.lastlinedefined < 2 ^ 31
  pub nups : f.nups < 256
  pub numparams : f.numparams < 256
  pub is_vararg : f.is_vararg < 256
  pub maxstacksize : f.maxstacksize < 256
  pub code : (length f.code < 2 ^ 31) × All IsWord f.code
  pub k : (length f.k < 2 ^ 31) × All ConstantFits f.k
  pub lineinfo : (length f.lineinfo < 2 ^ 31) × All IsWord f.lineinfo
  pub locvars : (length f.locvars < 2 ^ 31) × All LocVarFits f.locvars
  pub upvalues : (length f.upvalues < 2 ^ 31) × All StringFits f.upvalues

-- What is left of the debug information.
abbrev pub debug_view : Bool → Fields → Debug
debug_view true f = record { lineinfo = []; locvars = []; upvalues = [] }
debug_view false f = record { lineinfo = f.lineinfo; locvars = f.locvars; upvalues = f.upvalues }

abbrev pub source_view : Bool → Option TString → Option TString → Option TString
source_view true s p = p
source_view false s p = or_parent s p

-- The function as it is loaded under a parent of source `p`: without its debug information if
-- that was stripped, and with the parent's source where it has none of its own.
unfoldable mutual
  pub view : Bool → Proto → Option TString → Proto
  view strip (proto f ps) p =
      let s = source_view strip f.source p in
      proto (with_debug (record f { source = s }) (debug_view strip f)) (view_protos strip ps s)

  pub view_protos : Bool → Protos → Option TString → Protos
  view_protos strip no_protos p = no_protos
  view_protos strip (more f ps) p = more (view strip f p) (view_protos strip ps p)

-- The nesting of functions, which bounds the recursion of LoadFunction.
unfoldable mutual
  pub depth : Proto → ℕ
  depth (proto f ps) = suc (depth_protos ps)

  pub depth_protos : Protos → ℕ
  depth_protos no_protos = 0
  depth_protos (more f ps) = max (depth f) (depth_protos ps)

module _ (code_ok : Proto → Verdict) (strip : Bool) where
  -- Every function fits its C types and passes the check of its code when it is loaded.
  unfoldable mutual
    pub Fits : Proto → Option TString → Type 0
    Fits (proto f ps) p =
        FieldsFit f
        × (count_protos ps < 2 ^ 31)
        × (code_ok (view strip (proto f ps) p) ≡ accepted)
        × ProtosFit ps (source_view strip f.source p)

    pub ProtosFit : Protos → Option TString → Type 0
    ProtosFit no_protos p = Unit {0}
    ProtosFit (more f ps) p = Fits f p × ProtosFit ps p
