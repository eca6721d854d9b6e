-- ===== src/Common/Bits.antt =====
-- Laws of bit_and and bit_or at variables: such an operation splits at any position into what it
-- does to the high parts and to the low parts of its arguments, so masks and shifted fields are
-- quotients, remainders and sums.
use Prim.Native.Nat.{
  ℕ, zero, suc, ◌+◌, ◌-◌, ◌*◌, ◌/◌, ◌%◌, ◌^◌, ◌≤◌, ◌<◌, min, max, bit_and, bit_or, digits,
  bit_and-bitwise, bit_or-bitwise,
}
use mathlib.Core.Path.{◌≡◌, refl, ap, ap₂, ◌∙◌}
use native.Mathlib.Omega.{arith}
use native.Mathlib.Decide.{dec_le}
use native.Mathlib.Nat.{pow-suc}

module _ (last : ℕ → ℕ) (digit : ℕ → ℕ → ℕ) where
  abbrev rounds : ℕ → ℕ → ℕ → ℕ
  rounds = digits last digit

  -- One more round changes nothing once there is a round for each digit.
  one_more : (n a b : ℕ) → a ≤ n → rounds (suc n) a b ≡ rounds n a b
  one_more zero zero b h = refl
  one_more (suc n) zero b h = refl
  one_more zero (suc a) b h = absurd (omega arith)
  one_more (suc n) (suc a) b h =
      ap (λ high. high * 2 + digit (suc a % 2) (b % 2))
        (one_more n (suc a / 2) (b / 2) (omega arith))

  settled : (n m a b : ℕ) → a ≤ m → m ≤ n → rounds n a b ≡ rounds m a b
  settled zero zero a b p q = refl
  settled zero (suc m) a b p q = absurd (omega arith)
  settled (suc n) m a b p q = elim (dec_le m n) [
    | yes below ↦ one_more n a b (omega arith) ∙ settled n m a b p below
    | no above ↦ let same : suc n ≡ m = omega arith in ap (λ k. rounds k a b) same
  ]

  lowest_digit :
      (a b : ℕ)
      → rounds (suc a) (suc a) b
        ≡ rounds (suc a / 2) (suc a / 2) (b / 2) * 2 + digit (suc a % 2) (b % 2)
  lowest_digit a b =
      ap (λ high. high * 2 + digit (suc a % 2) (b % 2))
        (settled a (suc a / 2) (suc a / 2) (b / 2) (omega arith) (omega arith))

-- `op` works on each binary digit alone, and gives 0 at 0.
record IsDigitwise (op : ℕ → ℕ → ℕ) (digit : ℕ → ℕ → ℕ) : Type 0 where
  at_zero : op 0 0 ≡ 0
  step : (a b : ℕ) → op a b ≡ op (a / 2) (b / 2) * 2 + digit (a % 2) (b % 2)

bit_and-IsDigitwise : IsDigitwise bit_and min
bit_and-IsDigitwise = record { at_zero = refl; step = step }
  where
    step : (a b : ℕ) → bit_and a b ≡ bit_and (a / 2) (b / 2) * 2 + min (a % 2) (b % 2)
    step zero b = omega (arith, bit_and-bitwise 0 b, bit_and-bitwise 0 (b / 2))
    step (suc a) b = omega (
      arith,
      bit_and-bitwise (suc a) b,
      bit_and-bitwise (suc a / 2) (b / 2),
      lowest_digit (λ _. 0) min a b,
    )

bit_or-IsDigitwise : IsDigitwise bit_or max
bit_or-IsDigitwise = record { at_zero = refl; step = step }
  where
    step : (a b : ℕ) → bit_or a b ≡ bit_or (a / 2) (b / 2) * 2 + max (a % 2) (b % 2)
    step zero b = omega (arith, bit_or-bitwise 0 b, bit_or-bitwise 0 (b / 2))
    step (suc a) b = omega (
      arith,
      bit_or-bitwise (suc a) b,
      bit_or-bitwise (suc a / 2) (b / 2),
      lowest_digit (λ y. y) max a b,
    )

halve :
    (k h l : ℕ) → ((h * 2 ^ suc k + l) / 2 ≡ h * 2 ^ k + l / 2) × ((h * 2 ^ suc k + l) % 2 ≡ l % 2)
halve k h l =
    let power : h * 2 ^ suc k ≡ h * 2 ^ k * 2 = omega (arith, ap (λ t. h * t) (pow-suc 2 k)) in
    (omega (arith, power), omega (arith, power))

module _ {op digit : ℕ → ℕ → ℕ} (d : IsDigitwise op digit) where
  split_at :
      (k h g l m : ℕ)
      → l < 2 ^ k
      → m < 2 ^ k
      → op (h * 2 ^ k + l) (g * 2 ^ k + m) ≡ op h g * 2 ^ k + op l m
  split_at zero h g l m p q =
      let no_l : l ≡ 0 = omega arith in
      let no_m : m ≡ 0 = omega arith in
      let highs : op (h * 2 ^ 0 + l) (g * 2 ^ 0 + m) ≡ op h g =
        ap₂ op (omega arith) (omega arith) in
      omega (arith, highs, ap₂ op no_l no_m, d.at_zero)
  split_at (suc k) h g l m p q =
      let a = h * 2 ^ suc k + l in
      let b = g * 2 ^ suc k + m in
      let power = pow-suc 2 k in
      let (half_a, odd_a) = halve k h l in
      let (half_b, odd_b) = halve k g m in
      omega (
        arith,
        d.step a b,
        ap₂ op half_a half_b,
        ap₂ digit odd_a odd_b,
        split_at k h g (l / 2) (m / 2) (omega (arith, power)) (omega (arith, power)),
        d.step l m,
        ap (λ t. op h g * t) power,
      )

pub bit_and_split :
    (k h g l m : ℕ)
    → l < 2 ^ k
    → m < 2 ^ k
    → bit_and (h * 2 ^ k + l) (g * 2 ^ k + m) ≡ bit_and h g * 2 ^ k + bit_and l m
bit_and_split = split_at bit_and-IsDigitwise

pub bit_or_split :
    (k h g l m : ℕ)
    → l < 2 ^ k
    → m < 2 ^ k
    → bit_or (h * 2 ^ k + l) (g * 2 ^ k + m) ≡ bit_or h g * 2 ^ k + bit_or l m
bit_or_split = split_at bit_or-IsDigitwise

bit_and-zero_below : (n a : ℕ) → a ≤ n → bit_and a 0 ≡ 0
bit_and-zero_below n zero h = refl
bit_and-zero_below zero (suc a) h = absurd (omega arith)
bit_and-zero_below (suc n) (suc a) h =
    omega
      (arith, bit_and-IsDigitwise.step (suc a) 0, bit_and-zero_below n (suc a / 2) (omega arith))

pub bit_and-zero : (a : ℕ) → bit_and a 0 ≡ 0
bit_and-zero a = bit_and-zero_below a a (omega arith)

bit_or-zero_below : (n a : ℕ) → a ≤ n → bit_or a 0 ≡ a
bit_or-zero_below n zero h = refl
bit_or-zero_below zero (suc a) h = absurd (omega arith)
bit_or-zero_below (suc n) (suc a) h =
    omega (arith, bit_or-IsDigitwise.step (suc a) 0, bit_or-zero_below n (suc a / 2) (omega arith))

pub bit_or-zero : (a : ℕ) → bit_or a 0 ≡ a
bit_or-zero a = bit_or-zero_below a a (omega arith)

pub zero-bit_or : (a : ℕ) → bit_or 0 a ≡ a
zero-bit_or a = bit_or-bitwise 0 a

pub zero-bit_and : (a : ℕ) → bit_and 0 a ≡ 0
zero-bit_and a = bit_and-bitwise 0 a

pub two_pow_pos : (n : ℕ) → 1 ≤ 2 ^ n
two_pow_pos zero = omega arith
two_pow_pos (suc n) = omega (arith, pow-suc 2 n, two_pow_pos n)

-- A mask of `n` ones keeps a number below 2 ^ n.
pub mask_self : (n l : ℕ) → l < 2 ^ n → bit_and l (2 ^ n - 1) ≡ l
mask_self zero l h = let none : l ≡ 0 = omega arith in rw none (zero-bit_and (2 ^ 0 - 1))
mask_self (suc n) l h =
    let power = pow-suc 2 n in
    let pos = two_pow_pos n in
    let high : (2 ^ suc n - 1) / 2 ≡ 2 ^ n - 1 = omega (arith, power, pos) in
    let low : (2 ^ suc n - 1) % 2 ≡ 1 = omega (arith, power, pos) in
    omega (
      arith,
      bit_and-IsDigitwise.step l (2 ^ suc n - 1),
      ap (bit_and (l / 2)) high,
      ap (min (l % 2)) low,
      mask_self n (l / 2) (omega (arith, power)),
    )

zero_high : (n m : ℕ) → m ≡ 0 * 2 ^ n + m
zero_high n m = omega arith

zero_low : (a : ℕ) → a ≡ a + 0
zero_low a = omega arith

-- A mask of `n` ones keeps the `n` lowest digits.
pub bit_and_mask : (n h l : ℕ) → l < 2 ^ n → bit_and (h * 2 ^ n + l) (2 ^ n - 1) ≡ l
bit_and_mask n h l p = omega (
  arith,
  ap (bit_and (h * 2 ^ n + l)) (zero_high n (2 ^ n - 1)),
  bit_and_split n h 0 l (2 ^ n - 1) p (omega (arith, two_pow_pos n)),
  mask_self n l p,
  ap (λ t. t * 2 ^ n) (bit_and-zero h),
)

-- A number shifted above another is joined to it.
pub bit_or_high : (n h l : ℕ) → l < 2 ^ n → bit_or (h * 2 ^ n) l ≡ h * 2 ^ n + l
bit_or_high n h l p = omega (
  arith,
  ap₂ bit_or (zero_low (h * 2 ^ n)) (zero_high n l),
  bit_or_split n h 0 0 l (two_pow_pos n) p,
  ap (λ t. t * 2 ^ n) (bit_or-zero h),
  zero-bit_or l,
)

pub bit_or_low : (n h l : ℕ) → l < 2 ^ n → bit_or l (h * 2 ^ n) ≡ h * 2 ^ n + l
bit_or_low n h l p = omega (
  arith,
  ap₂ bit_or (zero_high n l) (zero_low (h * 2 ^ n)),
  bit_or_split n 0 h l 0 p (two_pow_pos n),
  ap (λ t. t * 2 ^ n) (zero-bit_or h),
  bit_or-zero l,
)

bit_and-le_below : (n a b : ℕ) → a ≤ n → bit_and a b ≤ b
bit_and-le_below zero a b h = omega (arith, ap (λ t. bit_and t b) (zero_of a h), zero-bit_and b)
  where
    zero_of : (a : ℕ) → a ≤ 0 → a ≡ 0
    zero_of a h = omega arith
bit_and-le_below (suc n) zero b h = omega (arith, zero-bit_and b)
bit_and-le_below (suc n) (suc a) b h = omega (
  arith,
  bit_and-IsDigitwise.step (suc a) b,
  bit_and-le_below n (suc a / 2) (b / 2) (omega arith),
)

pub bit_and-le : (a b : ℕ) → bit_and a b ≤ b
bit_and-le a b = bit_and-le_below a a b (omega arith)
