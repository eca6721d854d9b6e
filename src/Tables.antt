-- ===== src/Tables.antt =====
-- lua-5.1/ltable.c: how large rehash makes the array part of a table. The counts `nums` are a list
-- from the first slice on: nums[i] is the number of keys above 2 ^ (i - 1) up to 2 ^ i.
pub mod Optimal
pub mod Border
mod Runs
use hack_livesuite.Common.{
  ℕ, zero, suc, ◌+◌, ◌-◌, ◌*◌, ◌/◌, ◌^◌, Bool, leb, ltb, ◌==◌, not, ◌&&◌, if◌then◌else◌, List, [],
  ◌∷◌,
}

-- The variables of computesizes: a, na and n.
pub record Sizes : Type 0 where
  pub a : ℕ
  pub na : ℕ
  pub n : ℕ

-- The body of the loop for the slice up to `twotoi`, up to the break.
unfoldable pub add_slice : ℕ → ℕ → Sizes → Sizes
add_slice twotoi num s =
    let a' = s.a + num in
    if not (num == 0)
    then (if ltb (twotoi / 2) a'
        then record { a = a'; na = a'; n = twotoi }
        else record s { a = a' })
    else s

-- The loop of computesizes from the slice i on.
unfoldable pub sizes_loop : ℕ → ℕ → List ℕ → Sizes → Sizes
sizes_loop narray i [] s = s
sizes_loop narray i (num ∷ nums) s =
    let s' = add_slice (2 ^ i) num s in
    let rest = sizes_loop narray (i + 1) nums s' in
    if ltb (2 ^ i / 2) narray then (if s'.a == narray then s' else rest) else s

-- computesizes: the result na, and the new *narray.
unfoldable pub computesizes : List ℕ → ℕ → ℕ × ℕ
computesizes nums narray =
    let s = sizes_loop narray 0 nums (record { a = 0; na = 0; n = 0 }) in (s.na, s.n)
