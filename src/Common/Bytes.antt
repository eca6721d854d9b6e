-- ===== src/Common/Bytes.antt =====
-- Little-endian bytes of an unsigned number, as x86-64 lays out int, size_t, Instruction and
-- lua_Number in memory.
use Prim.Native.Nat.{ℕ, zero, suc, ◌+◌, ◌*◌, ◌/◌, ◌%◌, ◌^◌, ◌<◌}
use mathlib.Core.Path.{◌≡◌, refl, ap}
use mathlib.Core.List.{List, [], ◌∷◌}
use native.Mathlib.Omega.{arith}
use native.Mathlib.Nat.{pow-suc}
use hack_livesuite.Common.Lists.{length}

-- The `width` lowest bytes of `x`, lowest first.
unfoldable pub le_bytes : ℕ → ℕ → List ℕ
le_bytes zero x = []
le_bytes (suc width) x = (x % 256) ∷ le_bytes width (x / 256)

-- The number that bytes stand for, lowest byte first.
unfoldable pub le_value : List ℕ → ℕ
le_value [] = 0
le_value (b ∷ bs) = b + 256 * le_value bs

pub length-le_bytes : (width x : ℕ) → length (le_bytes width x) ≡ width
unfolding le_bytes
length-le_bytes zero x = refl
length-le_bytes (suc width) x = ap suc (length-le_bytes width (x / 256))

pub le_value-le_bytes : (width x : ℕ) → x < 256 ^ width → le_value (le_bytes width x) ≡ x
unfolding le_bytes le_value
le_value-le_bytes zero x h = omega arith
le_value-le_bytes (suc width) x h =
    omega (arith, le_value-le_bytes width (x / 256) (omega (arith, pow-suc 256 width)))
