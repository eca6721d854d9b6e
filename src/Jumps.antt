-- ===== src/Jumps.antt =====
-- The lists of jumps of lua-5.1/lcode.c: instructions whose targets are not known yet, each of which
-- holds the distance to the next one. NO_JUMP is `none`.
pub mod Fixed
pub mod Lists
pub mod Concat
mod Runs
use hack_livesuite.Common.{
  ℕ, zero, suc, ◌+◌, ◌-◌, ◌<◌, Bool, true, false, ◌==◌, ◌||◌, ltb, leb, if◌then◌else◌, List, [],
  ◌∷◌, length, get_elem?, set, Option, none, some,
}
use hack_livesuite.Opcodes.{get_bx, set_bx, max_sbx}

-- What a function comes to: `too_long` is the syntax error of fixjump, `fault` a position outside
-- the code.
pub data Jumped (A : Type 0) : Type 0 where
  done : A → Jumped A
  too_long fault out_of_fuel : Jumped A

infixl 5 ◌>>=◌
abbrev pub ◌>>=◌ : {A B : Type 0} → Jumped A → (A → Jumped B) → Jumped B
done a >>= k = k a
too_long >>= k = too_long
fault >>= k = fault
out_of_fuel >>= k = out_of_fuel

-- The fields of FuncState that the lists use. The code has the instructions made so far.
pub record FuncState : Type 0 where
  pub code : List ℕ
  pub lasttarget : Option ℕ
  pub jpc : Option ℕ

abbrev pub pc : FuncState → ℕ
pc fs = length fs.code

-- (pc+1)+offset, where the field holds the offset with MAXARG_sBx added. -1 is NO_JUMP, and a position
-- before that is outside the code.
unfoldable pub absolute : ℕ → ℕ → Jumped (Option ℕ)
absolute position bx =
    if leb max_sbx (position + 1 + bx)
    then done (some (position + 1 + bx - max_sbx))
    else (if position + 1 + bx + 1 == max_sbx then done none else fault)

unfoldable pub getjump_in : ℕ → Option ℕ → Jumped (Option ℕ)
getjump_in position none = fault
getjump_in position (some i) =
    if get_bx i + 1 == max_sbx then done none else absolute position (get_bx i)

-- getjump: the next position of the list.
unfoldable pub getjump : List ℕ → ℕ → Jumped (Option ℕ)
getjump code position = getjump_in position (get_elem? code position)

-- fixjump: the jump goes to `dest`.
unfoldable pub fixjump_in : ℕ → ℕ → List ℕ → Option ℕ → Jumped (List ℕ)
fixjump_in position dest code none = fault
fixjump_in position dest code (some i) =
    if ltb (position + 1 + max_sbx) dest || ltb (dest + max_sbx) (position + 1)
    then too_long
    else done (set code position (set_bx i (dest + max_sbx - (position + 1))))

unfoldable pub fixjump : ℕ → ℕ → List ℕ → Jumped (List ℕ)
fixjump position dest code = fixjump_in position dest code (get_elem? code position)

-- The loop of luaK_concat that looks for the last element, on fuel.
unfoldable pub last_or : ℕ → (ℕ → Jumped ℕ) → Option ℕ → Jumped ℕ
last_or position rest none = done position
last_or position rest (some next) = rest next

unfoldable pub last_jump : ℕ → List ℕ → ℕ → Jumped ℕ
last_jump zero code list = out_of_fuel
last_jump (suc fuel) code list =
    getjump code list >>= (λ next. last_or list (last_jump fuel code) next)

-- luaK_concat: the list that *l1 is set to, and the code.
unfoldable pub concat_jumps : Option ℕ → Option ℕ → List ℕ → Jumped (Option ℕ × List ℕ)
concat_jumps l1 none code = done (l1, code)
concat_jumps none (some l2) code = done (some l2, code)
concat_jumps (some l1) (some l2) code =
    last_jump (length code) code l1
    >>= (λ list. fixjump list l2 code >>= (λ code'. done (some l1, code')))

-- luaK_getlabel and luaK_patchtohere
unfoldable pub getlabel : FuncState → ℕ × FuncState
getlabel fs = (pc fs, record fs { lasttarget = some (pc fs) })

unfoldable pub patchtohere : Option ℕ → FuncState → Jumped FuncState
patchtohere list fs =
    let fs' = (getlabel fs).1 in
    concat_jumps fs'.jpc list fs'.code
    >>= (λ (jpc, code). done (record fs' { jpc = jpc; code = code }))
