-- ===== src/Objects/Log2/Runs.antt =====
-- Runs of ceillog2.
use hack_livesuite.Common.{ℕ, ◌^◌, ◌≤◌, ◌≡◌, refl, arith}
use hack_livesuite.Objects.Log2.{log2_loop, bits_of, ceillog2}
use hack_livesuite.Objects.Log2.Exact.{ceillog2-least}

thousand : ceillog2 1000 ≡ 10
unfolding ceillog2 bits_of log2_loop
thousand = refl

ceillog2-least_example : (1000 ≤ 2 ^ ceillog2 1000) × ((e : ℕ) → 1000 ≤ 2 ^ e → ceillog2 1000 ≤ e)
ceillog2-least_example = ceillog2-least 1000 (omega arith) (omega arith)
