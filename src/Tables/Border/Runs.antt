-- ===== src/Tables/Border/Runs.antt =====
-- Runs of luaH_getn.
use hack_livesuite.Common.{◌≡◌, ◌==◌, refl, arith, Bool, if◌then◌else◌, [], ◌∷◌, none, some}
use hack_livesuite.Limits.{max_int}
use hack_livesuite.Tables.Border.{
  Parts, ttisnil, getnum, bisect, linear, double, unbound_search, getn_hash, getn,
}
use hack_livesuite.Tables.Border.Search.{Finds, getn-Finds}

-- Two values in the array and one in the hash part, behind a hole.
abbrev with_hash : Parts
with_hash = record {
  array = some 7 ∷ some 8 ∷ [];
  node = some (λ k. if k == 4 then some 9 else none);
}

-- A nil at the end of the array.
abbrev with_hole : Parts
with_hole = record { array = some 7 ∷ none ∷ none ∷ []; node = none }

border_in_hash : getn with_hash ≡ some 2
unfolding getn getn_hash unbound_search double getnum bisect linear
border_in_hash = refl

border_in_array : getn with_hole ≡ some 1
unfolding getn bisect
border_in_array = refl

key_3_absent : ttisnil (getnum with_hash 3) ≡ Bool.true
unfolding getnum
key_3_absent = refl

getn-Finds_example : Finds (getnum with_hash) max_int (getn with_hash)
getn-Finds_example = getn-Finds with_hash 3 (omega arith) (omega arith) key_3_absent (omega arith)
