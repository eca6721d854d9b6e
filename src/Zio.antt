-- ===== src/Zio.antt =====
-- lua-5.1/lzio.c and lzio.h: the buffered input stream that the undumper and the lexer read.
-- The reader callback is not part of the repository's code: the model keeps the blocks that its
-- calls will return, in order. An empty block stands for a NULL or zero-sized answer, and a
-- reader with no block left answers so on every further call.
pub mod Stream
use hack_livesuite.Common.{ℕ, zero, suc, ◌-◌, min, Option, none, some, List, [], ◌∷◌, ◌++◌}
use hack_livesuite.Common.{if◌then◌else◌, ◌==◌, length, take, drop}

-- `buffered` is the z->n bytes at z->p.
pub record Zio : Type 0 where
  pub blocks : List (List ℕ)
  pub buffered : List ℕ

-- luaZ_init
unfoldable pub init : List (List ℕ) → Zio
init blocks = record { blocks = blocks; buffered = [] }

-- `none` is EOZ.
unfoldable pub fill_from : List (List ℕ) → List ℕ → Option ℕ × Zio
fill_from [] buffered = (none, record { blocks = []; buffered = buffered })
fill_from ([] ∷ rest) buffered = (none, record { blocks = rest; buffered = buffered })
fill_from ((c ∷ cs) ∷ rest) buffered = (some c, record { blocks = rest; buffered = cs })

-- luaZ_fill
pub fill : Zio → Option ℕ × Zio
unfolding fill_from
fill z = fill_from z.blocks z.buffered

-- `z->n++; z->p--;` after a fill that found the byte `c`
put_back : Option ℕ × Zio → Option ℕ × Zio
put_back (none, z) = (none, z)
put_back (some c, z) = (some c, record z { buffered = c ∷ z.buffered })

lookahead_from : Zio → List ℕ → Option ℕ × Zio
unfolding put_back fill
lookahead_from z [] = put_back (fill z)
lookahead_from z (c ∷ cs) = (some c, z)

-- luaZ_lookahead
pub lookahead : Zio → Option ℕ × Zio
unfolding lookahead_from
lookahead z = lookahead_from z z.buffered

-- What luaZ_read returns, and the bytes that it has copied.
pub record Copied : Type 0 where
  pub missing : ℕ
  pub bytes : List ℕ
  pub zio : Zio

-- The loop of luaZ_read on fuel; a round copies a byte at least.
pub read_loop : ℕ → Zio → ℕ → Copied
unfolding lookahead
read_loop zero z n = record { missing = n; bytes = []; zio = z }
read_loop (suc fuel) z n =
    let z1 = (lookahead z).1 in
    let m = min n (length z1.buffered) in
    let rest = read_loop fuel (record z1 { buffered = drop m z1.buffered }) (n - m) in
    let copied : Copied = record rest { bytes = take m z1.buffered ++ rest.bytes } in
    let ended : Copied = record { missing = n; bytes = []; zio = z1 } in
    if n == 0
    then record { missing = 0; bytes = []; zio = z }
    else elim (lookahead z).0 [ none ↦ ended | some _ ↦ copied ]

-- luaZ_read
unfoldable pub read : Zio → ℕ → Copied
unfolding read_loop
read z n = read_loop n z n
