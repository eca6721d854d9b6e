-- ===== src/Objects/Runs.antt =====
-- Concrete runs of lobject.c.
use hack_livesuite.Objects.Chunkid.{chunkid, file_id, string_id, to_newline, dots, opening, closing}
use hack_livesuite.Objects.Chunkid.Bound.{length-chunkid}
use hack_livesuite.Common.{◌<◌, [], ◌∷◌, ◌++◌, length, ◌*◌, ◌≤◌, ◌≡◌, refl, arith}
use hack_livesuite.Objects.{fb_loop, fb_of, int2fb, fb2int}
use hack_livesuite.Objects.Fb.{fb2int-int2fb}

-- 100 is kept as 13 * 2 ^ 3.
fb_test : fb2int (int2fb 100) ≡ 104
unfolding fb_loop fb_of int2fb fb2int
fb_test = refl

fb2int-int2fb_example : (100 ≤ fb2int (int2fb 100)) × (7 * fb2int (int2fb 100) ≤ 8 * 100)
fb2int-int2fb_example = fb2int-int2fb 100 (omega arith)

-- "@abcdef" in a buffer of 12 bytes is "...cdef"; "x\ny" is [string "x..."]
file_test :
    chunkid (64 ∷ 97 ∷ 98 ∷ 99 ∷ 100 ∷ 101 ∷ 102 ∷ []) 12 ≡ dots ++ (99 ∷ 100 ∷ 101 ∷ 102 ∷ [])
unfolding chunkid file_id
file_test = refl

string_test : chunkid (120 ∷ 10 ∷ 121 ∷ []) 60 ≡ opening ++ (120 ∷ []) ++ dots ++ closing
unfolding chunkid string_id to_newline
string_test = refl

length-chunkid_example : length (chunkid (64 ∷ 97 ∷ 98 ∷ []) 60) < 60
length-chunkid_example = length-chunkid (64 ∷ 97 ∷ 98 ∷ []) 60 (omega arith)
