-- ===== src/References/Doubles.antt =====
-- Numbers as the 64 bits of a double, and that they hold every int: an instance of what luaL_ref uses
-- of the C interface.
use hack_livesuite.Common.{
  ℕ, zero, suc, ◌+◌, ◌-◌, ◌*◌, ◌/◌, ◌%◌, ◌^◌, ◌≤◌, ◌<◌, ◌≡◌, refl, sym, ap, ap₂, Option, none, some,
  ◌∙◌, arith,
}
use native.Mathlib.Nat.{pow-suc, add-mul, mul-div_cancel, mul-zero, pow-le-pow_right}
use native.Mathlib.Decide.{dec_le}
use hack_livesuite.Common.Bits.{two_pow_pos}
use hack_livesuite.References.{Api}
use hack_livesuite.References.Valid.{ReadsBack}
use hack_livesuite.Objects.Log2.{bits_of}
use hack_livesuite.Objects.Log2.Exact.{IsBits, bits_of-IsBits}

-- With b bits, the exponent is b - 1; the fraction has the lower bits in front.
abbrev pub double_bits : ℕ → ℕ → ℕ
double_bits k b = (b + 1022) * 2 ^ 52 + (k - 2 ^ (b - 1)) * 2 ^ (53 - b)

abbrev pub double_of : ℕ → ℕ
double_of zero = 0
double_of (suc k) = double_bits (suc k) (bits_of (suc k))

-- The integral part of a double from 1 to 2 ^ 53, which has `shift` bits behind the point.
abbrev pub integer_part : ℕ → ℕ → ℕ
integer_part p shift = (p % 2 ^ 52 + 2 ^ 52) / 2 ^ shift

abbrev pub integer_of : ℕ → ℕ
integer_of zero = 0
integer_of (suc p) = integer_part (suc p) (53 - (suc p / 2 ^ 52 - 1022))

-- Powers that make 2 ^ 52 together.
powers : (m n : ℕ) → 2 ^ m * 2 ^ n ≡ 2 ^ (m + n)
powers zero n = let same : 0 + n ≡ n = omega arith in grind (arith, ap (λ e. 2 ^ e) same)
powers (suc m) n =
    let same : suc m + n ≡ suc (m + n) = omega arith in
    grind (arith, ap (λ e. 2 ^ e) same, pow-suc 2 m, pow-suc 2 (m + n), powers m n)

module _ (k c q : ℕ) (whole : c * q ≡ 2 ^ 52) (low : c ≤ k) (high : k < c + c) where
  fraction : (k - c) * q + 2 ^ 52 ≡ k * q
  fraction =
      let back : k - c + c ≡ k = omega arith in
      omega (arith, add-mul (k - c) c q, ap (λ n. n * q) back, whole)

  fraction-lt : (k - c) * q < 2 ^ 52
  fraction-lt =
      let d : ℕ = c + c - suc k in
      let twice : suc k + d ≡ c + c = omega arith in
      omega (
        arith,
        fraction,
        ap (λ n. n * q) twice,
        add-mul (suc k) d q,
        add-mul c c q,
        whole,
        suc-mul,
        positive q refl,
      )
    where
      suc-mul : suc k * q ≡ k * q + q
      suc-mul = grind arith

      positive : (n : ℕ) → q ≡ n → 1 ≤ q
      positive zero e =
          let none : 0 ≡ 2 ^ 52 = sym (mul-zero c) ∙ ap (λ n. c * n) (sym e) ∙ whole in
          absurd (omega arith)
      positive (suc n) e = omega arith

-- The fraction has the exponent beside it, and shifts back to the integer.
double_bits-back :
    (k b : ℕ)
    → 1 ≤ k
    → b ≤ 53
    → IsBits k b
    → integer_part (double_bits k b) (53 - (double_bits k b / 2 ^ 52 - 1022)) ≡ k
double_bits-back k zero one le (low, high) = absurd (omega (arith, high one))
double_bits-back k (suc e) one le (low, high) =
    let c : ℕ = 2 ^ e in
    let q : ℕ = 2 ^ (52 - e) in
    let sum : e + (52 - e) ≡ 52 = omega arith in
    let whole : c * q ≡ 2 ^ 52 = powers e (52 - e) ∙ ap (λ n. 2 ^ n) sum in
    let before : suc e - 1 ≡ e = omega arith in
    let behind : 53 - suc e ≡ 52 - e = omega arith in
    let power : 2 ^ suc e ≡ c + c = omega (arith, pow-suc 2 e) in
    let f : ℕ = (k - 2 ^ (suc e - 1)) * 2 ^ (53 - suc e) in
    let same : f ≡ (k - c) * q = ap₂ (λ x y. (k - 2 ^ x) * 2 ^ y) before behind in
    let at_least : c ≤ k = omega (arith, high one, power) in
    let under : k < c + c = omega (arith, power) in
    let small : f < 2 ^ 52 = omega (arith, same, fraction-lt k c q whole at_least under) in
    let p : ℕ = double_bits k (suc e) in
    let exponent : p / 2 ^ 52 ≡ suc e + 1022 = omega arith in
    let rest : p % 2 ^ 52 ≡ f = omega arith in
    let shift : 53 - (p / 2 ^ 52 - 1022) ≡ 52 - e = omega (arith, exponent) in
    let number : p % 2 ^ 52 + 2 ^ 52 ≡ k * q =
      omega (arith, rest, same, fraction k c q whole at_least under) in
    ap₂ (λ x y. x / 2 ^ y) number shift ∙ mul-div_cancel k (pow-pos (52 - e))
  where
    pow-pos : (n : ℕ) → 0 < 2 ^ n
    pow-pos n = omega (arith, two_pow_pos n)

-- The C interface on tables of doubles, where nil is in front of the ninth key at the latest.
abbrev length_up : ℕ → (ℕ → Option ℕ) → ℕ → ℕ
length_up zero t k = k
length_up (suc fuel) t k = length_next (length_up fuel t (k + 1)) k (t (k + 1))
  where
    length_next : ℕ → ℕ → Option ℕ → ℕ
    length_next rest k none = k
    length_next rest k (some v) = rest

abbrev pub doubles : Api ℕ
doubles = record { tointeger = integer_of; pushinteger = double_of; objlen = λ t. length_up 8 t 0 }

integer_of-positive : (p : ℕ) → 1 ≤ p → integer_of p ≡ integer_part p (53 - (p / 2 ^ 52 - 1022))
integer_of-positive zero h = absurd (omega arith)
integer_of-positive (suc p) h = refl

-- An int has few bits.
few : (k b : ℕ) → 1 ≤ k → k < 2 ^ 31 → IsBits k b → b ≤ 53
few k b one h (low, high) = elim (dec_le b 53) [
  | yes le ↦ le
  | no gt ↦ absurd (
      omega
        (arith, pow-le-pow_right {n = 2} (omega arith) {i = 54} {j = b} (omega arith), high one))
]

pub doubles-ReadsBack : ReadsBack doubles
doubles-ReadsBack zero h = refl
doubles-ReadsBack (suc k) h =
    let n : ℕ = bits_of (suc k) in
    let bits = bits_of-IsBits (suc k) (omega arith) in
    integer_of-positive (double_bits (suc k) n) (omega arith)
    ∙ double_bits-back (suc k) n (omega arith) (few (suc k) n (omega arith) h bits) bits
