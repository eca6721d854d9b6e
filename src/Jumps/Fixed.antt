-- ===== src/Jumps/Fixed.antt =====
-- fixjump and getjump: a jump that was fixed goes to its target.
use hack_livesuite.Common.{
  get_elem?-lt, ℕ, ◌+◌, ◌-◌, ◌^◌, ◌≤◌, ◌<◌, ◌≡◌, ◌≢◌, refl, sym, ap, subst, ◌∙◌, arith, Bool, true,
  false, ◌==◌, ◌||◌, ltb, leb, if◌then◌else◌, if_true, if_false, ==-ne, ltb→lt, not_ltb, List,
  length, get_elem?, set, get_elem?-set_self, get_elem?-set_ne, Option, none, some,
}
use hack_livesuite.Opcodes.{get_bx, set_bx, max_sbx}
use hack_livesuite.Opcodes.Fields.{get_bx-set_bx}
use hack_livesuite.Jumps.{
  Jumped, done, too_long, fault, absolute, getjump_in, getjump, fixjump_in, fixjump,
}

-- What fixjump may come to: the code with the jump in it, where the target is in reach.
pub data Fixes (position dest : ℕ) (code : List ℕ) : Jumped (List ℕ) → Type 0 where
  fixes :
      (v : ℕ)
      → (dest ≢ position → getjump (set code position v) position ≡ done (some dest))
      → Fixes position dest code (done (set code position v))
  out_of_reach : dest + max_sbx < position + 1 → Fixes position dest code too_long
  beyond_reach : position + 1 + max_sbx < dest → Fixes position dest code too_long

le→leb : (a b : ℕ) → a ≤ b → leb a b ≡ true
le→leb a b h = ground arith

module _ (position dest i : ℕ) (small : i < 2 ^ 32) (near : dest ≤ position + 1 + max_sbx)
    (far : position + 1 ≤ dest + max_sbx) where
  abbrev distance : ℕ
  distance = dest + max_sbx - (position + 1)

  absolute-distance : (bx : ℕ) → bx ≡ distance → absolute position bx ≡ done (some dest)
  unfolding absolute
  absolute-distance bx e =
      sym (
        if_true (done (some (position + 1 + bx - max_sbx)))
          (if position + 1 + bx + 1 == max_sbx then done none else fault)
          (le→leb max_sbx (position + 1 + bx) (omega (arith, e))))
      ∙ ap (λ p. done (some p)) (omega (arith, e))

  getjump_in-set_bx :
      dest ≢ position → getjump_in position (some (set_bx i distance)) ≡ done (some dest)
  unfolding getjump_in
  getjump_in-set_bx differ =
      let (_, same, _, _) = get_bx-set_bx i distance small (omega arith) in
      sym (
        if_false (done none) (absolute position (get_bx (set_bx i distance)))
          (==-ne (get_bx (set_bx i distance) + 1) max_sbx (λ e. differ (omega (arith, e, same)))))
      ∙ absolute-distance (get_bx (set_bx i distance)) same

-- fixjump of an instruction of the code comes to what `Fixes` says.
pub fixjump-Fixes :
    (position dest i : ℕ) (code : List ℕ)
    → get_elem? code position ≡ some i
    → i < 2 ^ 32
    → Fixes position dest code (fixjump position dest code)
unfolding fixjump fixjump_in getjump
fixjump-Fixes position dest i code e small =
    subst (λ o. Fixes position dest code (fixjump_in position dest code o)) (sym e)
      (at (ltb (position + 1 + max_sbx) dest) (ltb (dest + max_sbx) (position + 1)) refl refl)
  where
    v : ℕ
    v = dest + max_sbx - (position + 1)

    at :
        (a b : Bool)
        → ltb (position + 1 + max_sbx) dest ≡ a
        → ltb (dest + max_sbx) (position + 1) ≡ b
        → Fixes position dest code
            (if a || b then too_long else done (set code position (set_bx i v)))
    at true b f g = beyond_reach (ltb→lt _ _ f)
    at false true f g = out_of_reach (ltb→lt _ _ g)
    at false false f g = fixes (set_bx i v) (λ differ.
        ap (getjump_in position)
          (get_elem?-set_self code position (set_bx i v) (get_elem?-lt code position e))
        ∙ getjump_in-set_bx position dest i small (not_ltb _ _ f) (not_ltb _ _ g) differ)

pub getjump-set_ne : (code : List ℕ) (i j v : ℕ) → i ≢ j → getjump (set code i v) j ≡ getjump code j
unfolding getjump
getjump-set_ne code i j v h = ap (getjump_in j) (get_elem?-set_ne code v h)

-- A position whose jump can be read is one of the code.
pub getjump-lt :
    (code : List ℕ) (position : ℕ) {next : Option ℕ}
    → getjump code position ≡ done next
    → position < length code
unfolding getjump getjump_in
getjump-lt code position {next} e = at (get_elem? code position) refl e
  where
    at :
        (o : Option ℕ)
        → get_elem? code position ≡ o
        → getjump_in position o ≡ done next
        → position < length code
    at none e f = absurd cc
    at (some i) e f = get_elem?-lt code position e
