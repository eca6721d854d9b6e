-- ===== src/Tables/Runs.antt =====
-- Concrete runs of computesizes.
use hack_livesuite.Common.{ℕ, ◌*◌, ◌^◌, ◌≤◌, ◌<◌, ◌≡◌, refl, ◌⊎◌, arith, List, [], ◌∷◌}
use hack_livesuite.Tables.{computesizes, sizes_loop, add_slice}
use hack_livesuite.Tables.Optimal.{keys_up_to, computesizes-total}

-- The keys 1 to 3, 7 and 100.
abbrev nums : List ℕ
nums = 1 ∷ 1 ∷ 1 ∷ 1 ∷ 0 ∷ 0 ∷ 0 ∷ 1 ∷ []

sizes_test : computesizes nums 5 ≡ (3, 4)
unfolding computesizes sizes_loop add_slice
sizes_test = refl

computesizes-total_example :
    ((((computesizes nums 5).0 ≡ 0) × ((computesizes nums 5).1 ≡ 0))
      ⊎ ((k : ℕ) × ((computesizes nums 5).0 ≡ keys_up_to k nums)
          × ((computesizes nums 5).1 ≡ 2 ^ k)
          × (2 ^ k < 2 * keys_up_to k nums)))
    × ((k : ℕ) → 2 ^ k < 2 * keys_up_to k nums → 2 ^ k ≤ (computesizes nums 5).1)
computesizes-total_example = computesizes-total nums (
  omega arith,
  (
    omega arith,
    (omega arith, (omega arith, (omega arith, (omega arith, (omega arith, (omega arith, tt)))))),
  ),
)
