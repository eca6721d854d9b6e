-- ===== src/Objects.antt =====
-- lua-5.1/lobject.c: the floating point byte in which an instruction keeps the size of a table, and
-- the name of a source in a message, and logarithms in Log2.
pub mod Fb
pub mod Chunkid
pub mod Log2
mod Runs
use hack_livesuite.Common.{
  ℕ, zero, suc, ◌+◌, ◌-◌, ◌*◌, ◌/◌, ◌%◌, ◌^◌, bit_and, bit_or, leb, ltb, ◌==◌, if◌then◌else◌,
}

-- The loop of luaO_int2fb on fuel: x and e at its end. An unsigned int has 32 bits.
unfoldable pub fb_loop : ℕ → ℕ → ℕ → ℕ × ℕ
fb_loop zero x e = (x, e)
fb_loop (suc fuel) x e =
    let rest = fb_loop fuel ((x + 1) % 2 ^ 32 / 2) (e + 1) in if leb 16 x then rest else (x, e)

unfoldable pub fb_of : ℕ × ℕ → ℕ
fb_of (x, e) = if ltb x 8 then x else bit_or ((e + 1) * 8) (x - 8)

-- luaO_int2fb. 29 rounds bring any unsigned int below 16.
unfoldable pub int2fb : ℕ → ℕ
int2fb x = fb_of (fb_loop 29 x 0)

-- luaO_fb2int
unfoldable pub fb2int : ℕ → ℕ
fb2int x =
    let e = bit_and (x / 8) 31 in if e == 0 then x else (bit_and x 7 + 8) * 2 ^ (e - 1) % 2 ^ 32
