-- ===== src/Jumps/Runs.antt =====
-- Runs of luaK_concat and luaK_patchtohere.
use hack_livesuite.Common.{ℕ, ◌+◌, ◌*◌, ◌<◌, ◌^◌, ◌≡◌, refl, arith, All, List, [], ◌∷◌, none, some}
use hack_livesuite.Opcodes.{get_bx, set_bx, mask1, mask0, get_field, set_field}
use hack_livesuite.Jumps.{
  done, FuncState, absolute, getjump_in, getjump, fixjump_in, fixjump, last_or, last_jump,
  concat_jumps, patchtohere,
}
use hack_livesuite.Jumps.Lists.{JumpList}
use hack_livesuite.Jumps.Concat.{Joins, concat_jumps-Joins, Waits, patchtohere-Waits}

-- OP_JMP with the offset -1, and three instructions of which two are such jumps.
abbrev jmp : ℕ
jmp = 131070 * 2 ^ 14 + 22

abbrev two_jumps : List ℕ
two_jumps = jmp ∷ 0 ∷ jmp ∷ []

-- The first one with the offset 1.
abbrev linked : ℕ
linked = 131072 * 2 ^ 14 + 22

joined : concat_jumps (some 0) (some 2) two_jumps ≡ done (some 0, linked ∷ 0 ∷ jmp ∷ [])
unfolding concat_jumps last_jump last_or getjump getjump_in absolute fixjump fixjump_in get_bx
    set_bx get_field set_field mask1 mask0
joined = refl

first-JumpList : JumpList two_jumps (some 0) (0 ∷ [])
unfolding getjump getjump_in get_bx get_field mask1
first-JumpList = (refl, (none, refl, refl))

second-JumpList : JumpList two_jumps (some 2) (2 ∷ [])
unfolding getjump getjump_in get_bx get_field mask1
second-JumpList = (refl, (none, refl, refl))

abbrev two_jumps_small : All (λ w. w < 2 ^ 32) two_jumps
two_jumps_small = (omega arith, (omega arith, (omega arith, tt)))

abbrev waiting : FuncState
waiting = record { code = two_jumps; lasttarget = none; jpc = some 0 }

concat_jumps-Joins_example :
    Joins two_jumps (0 ∷ []) (2 ∷ []) (concat_jumps (some 0) (some 2) two_jumps)
concat_jumps-Joins_example =
    concat_jumps-Joins two_jumps two_jumps_small (some 0) (some 2) (0 ∷ []) (2 ∷ []) first-JumpList
      second-JumpList (tt, tt) (((λ e. absurd (omega arith)), tt), tt)

patchtohere-Waits_example : Waits waiting (0 ∷ []) (2 ∷ []) (patchtohere (some 2) waiting)
patchtohere-Waits_example =
    patchtohere-Waits waiting (some 2) (0 ∷ []) (2 ∷ []) two_jumps_small first-JumpList
      second-JumpList (tt, tt) (((λ e. absurd (omega arith)), tt), tt)
