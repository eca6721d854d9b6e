-- ===== src/Objects/Log2.antt =====
-- luaO_log2 of lua-5.1/lobject.c, and ceillog2 of lobject.h. The C int of luaO_log2 starts at -1; here
-- it is one more, so that it is a natural number.
pub mod Exact
mod Runs
use hack_livesuite.Common.{
  ℕ, zero, suc, ◌+◌, ◌-◌, ◌/◌, leb, if◌then◌else◌, List, [], ◌∷◌, ◌++◌, get_or, replicate,
}

-- The table of luaO_log2: n bits for the numbers from 2 ^ (n - 1) to 2 ^ n - 1.
abbrev pub log_2 : List ℕ
log_2 =
    0 ∷ 1 ∷ replicate 2 2
    ++ replicate 4 3
    ++ replicate 8 4
    ++ replicate 16 5
    ++ replicate 32 6
    ++ replicate 64 7
    ++ replicate 128 8

-- The loop and the return, on fuel.
unfoldable pub log2_loop : ℕ → ℕ → ℕ → ℕ
log2_loop zero l x = l + get_or log_2 x 0
log2_loop (suc fuel) l x =
    let rest = log2_loop fuel (l + 8) (x / 256) in if leb 256 x then rest else l + get_or log_2 x 0

-- luaO_log2(x) + 1. Three shifts bring any unsigned int below 256.
unfoldable pub bits_of : ℕ → ℕ
bits_of x = log2_loop 3 0 x

-- ceillog2
unfoldable pub ceillog2 : ℕ → ℕ
ceillog2 x = bits_of (x - 1)
