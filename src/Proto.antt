-- ===== src/Proto.antt =====
-- Function prototypes of lua-5.1/lobject.h, as the code generator makes them and as a precompiled
-- chunk holds them.
-- A TString is the list of its bytes, and a TString* that may be NULL an Option. Strings are
-- interned, so two pointers are equal exactly when the contents are. A C int is its 32-bit
-- pattern, a lua_Number its 64-bit pattern, an Instruction a number below 2 ^ 32. The fields
-- sizek, sizep, sizecode, ... are the lengths of the lists.
use hack_livesuite.Common.{ℕ, suc, Option, none, some, List, [], ◌∷◌, Bool, true, false}
use hack_livesuite.Common.{◌==◌, ◌&&◌, ◌≡◌, refl, arith, ap}

abbrev pub TString : Type 0
TString = List ℕ

-- The TValues of a constant table. A string is a pointer, which a hostile chunk makes NULL.
-- `other` is any type tag that no constant has.
pub data Constant : Type 0 where
  nil : Constant
  boolean : ℕ → Constant
  number : ℕ → Constant
  string : Option TString → Constant
  other : ℕ → Constant

pub record LocVar : Type 0 where
  pub varname : Option TString
  pub startpc : ℕ
  pub endpc : ℕ

-- The fields of a Proto but for `p`, the functions defined inside it.
pub record Fields : Type 0 where
  pub k : List Constant
  pub code : List ℕ
  pub lineinfo : List ℕ
  pub locvars : List LocVar
  pub upvalues : List (Option TString)
  pub source : Option TString
  pub linedefined : ℕ
  pub lastlinedefined : ℕ
  pub nups : ℕ
  pub numparams : ℕ
  pub is_vararg : ℕ
  pub maxstacksize : ℕ

mutual
  pub data Proto : Type 0 where
    proto : Fields → Protos → Proto

  pub data Protos : Type 0 where
    no_protos : Protos
    more : Proto → Protos → Protos

abbrev pub count_protos : Protos → ℕ
count_protos no_protos = 0
count_protos (more f ps) = suc (count_protos ps)

-- Equality of strings and of string pointers.
unfoldable pub same_bytes : TString → TString → Bool
same_bytes [] [] = true
same_bytes (a ∷ s) (b ∷ t) = a == b && same_bytes s t
same_bytes _ _ = false

unfoldable pub same_string : Option TString → Option TString → Bool
unfolding same_bytes
same_string none none = true
same_string (some s) (some t) = same_bytes s t
same_string _ _ = false

pub same_bytes→eq : (s t : TString) → same_bytes s t ≡ true → s ≡ t
unfolding same_bytes
same_bytes→eq [] [] h = refl
same_bytes→eq [] (b ∷ t) h = cc
same_bytes→eq (a ∷ s) [] h = cc
same_bytes→eq (a ∷ s) (b ∷ t) h = ground (arith, same_bytes→eq s t)

pub same_string→eq : (s t : Option TString) → same_string s t ≡ true → s ≡ t
unfolding same_string
same_string→eq none none h = refl
same_string→eq none (some t) h = cc
same_string→eq (some s) none h = cc
same_string→eq (some s) (some t) h = ap some (same_bytes→eq s t h)

-- What luaG_checkcode comes to; `crashed` is a read outside the arrays of the function.
pub data Verdict : Type 0 where
  accepted rejected crashed : Verdict
