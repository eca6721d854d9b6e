-- ===== src/Tables/Border.antt =====
-- luaH_getn of lua-5.1/ltable.c: a boundary of a table, that is an integer index with a value behind
-- which there is nil. A value is nil if it is `none`.
pub mod Search
mod Runs
use hack_livesuite.Common.{
  ℕ, zero, suc, ◌+◌, ◌-◌, ◌*◌, ◌/◌, Bool, true, false, not, ◌&&◌, ltb, if◌then◌else◌, List, [], ◌∷◌,
  length, get_or, Option, none, some,
}
use hack_livesuite.Limits.{max_int}

-- The array part, and what a lookup in the hash part finds; `none` is dummynode, the empty one.
pub record Parts : Type 0 where
  pub array : List (Option ℕ)
  pub node : Option (ℕ → Option ℕ)

abbrev pub ttisnil : Option ℕ → Bool
ttisnil none = true
ttisnil (some v) = false

abbrev pub in_hash : Option (ℕ → Option ℕ) → ℕ → Option ℕ
in_hash none key = none
in_hash (some find) key = find key

-- luaH_getnum. The key 0 is not one of the array.
unfoldable pub getnum : Parts → ℕ → Option ℕ
getnum t zero = in_hash t.node zero
getnum t (suc k) = if ltb k (length t.array) then get_or t.array k none else in_hash t.node (suc k)

-- t->array[m - 1]
abbrev pub array_at : Parts → ℕ → Option ℕ
array_at t m = get_or t.array (m - 1) none

-- The binary search, on fuel; the source has it once for the array and once for the table.
unfoldable pub bisect : (ℕ → Option ℕ) → ℕ → ℕ → ℕ → Option ℕ
bisect value zero i j = none
bisect value (suc fuel) i j =
    let m = (i + j) / 2 in
    let lower = bisect value fuel i m in
    let upper = bisect value fuel m j in
    if ltb 1 (j - i) then (if ttisnil (value m) then lower else upper) else some i

-- The linear search.
unfoldable pub linear : (ℕ → Option ℕ) → ℕ → ℕ → Option ℕ
linear value zero i = none
linear value (suc fuel) i =
    let rest = linear value fuel (i + 1) in if ttisnil (value i) then some (i - 1) else rest

-- The first loop of unbound_search and what follows it.
unfoldable pub double : (ℕ → Option ℕ) → ℕ → ℕ → ℕ → Option ℕ
double value zero i j = none
double value (suc fuel) i j =
    let rest = double value fuel j (j * 2) in
    if ttisnil (value j)
    then bisect value j i j
    else (if ltb max_int (j * 2) then linear value (suc max_int) 1 else rest)

unfoldable pub unbound_search : Parts → ℕ → Option ℕ
unbound_search t j = double (getnum t) (suc max_int) j (j + 1)

-- The part of luaH_getn behind its first test.
unfoldable pub getn_hash : Parts → ℕ → Option (ℕ → Option ℕ) → Option ℕ
getn_hash t j none = some j
getn_hash t j (some find) = unbound_search t j

unfoldable pub getn : Parts → Option ℕ
getn t =
    let j = length t.array in
    if ltb 0 j && ttisnil (array_at t j) then bisect (array_at t) j 0 j else getn_hash t j t.node
