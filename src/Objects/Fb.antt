-- ===== src/Objects/Fb.antt =====
-- The floating point byte rounds up, by an eighth at most.
use hack_livesuite.Common.{
  not_leb, not_lt, ℕ, zero, suc, ◌+◌, ◌-◌, ◌*◌, ◌/◌, ◌%◌, ◌^◌, ◌≤◌, ◌<◌, ◌≡◌, refl, sym, ap, ap₂,
  subst, ◌∙◌, ◌⊎◌, inl, inr, arith, bit_and, bit_or, leb, ltb, ◌==◌, if◌then◌else◌, if_true,
  if_false, suc-==-zero, Bool-cases, leb→le, lt→ltb,
}
use hack_livesuite.Common.Bits.{zero-bit_and, bit_or_high, bit_and_mask, mask_self}
use native.Mathlib.Nat.{pow-suc, mul-le-mul_right}
use native.Mathlib.Decide.{dec_le}
use hack_livesuite.Objects.{fb_loop, fb_of, int2fb, fb2int}

-- What the loop makes of x from the exponent e on.
record Rounds (fuel x e : ℕ) (r : ℕ × ℕ) : Type 0 where
  d : ℕ
  exponent : r.1 ≡ e + d
  few : d ≤ fuel
  small : r.0 < 16
  above : x ≤ r.0 * 2 ^ d
  below : r.0 * 2 ^ d < x + 2 ^ d
  normal : (d ≡ 0) ⊎ (8 ≤ r.0)

-- One round before others.
one_round :
    (fuel x e : ℕ) (r : ℕ × ℕ)
    → 16 ≤ x
    → Rounds fuel ((x + 1) / 2) (e + 1) r
    → Rounds (suc fuel) x e r
one_round fuel x e (y, e') h R =
    let pow : 2 ^ suc R.d ≡ 2 * 2 ^ R.d = omega (arith, pow-suc 2 R.d) in
    let double : y * 2 ^ suc R.d ≡ 2 * (y * 2 ^ R.d) = ap (λ t. y * t) pow ∙ omega arith in
    record {
      d = suc R.d;
      exponent = omega (arith, R.exponent);
      few = omega (arith, R.few);
      small = R.small;
      above = omega (arith, R.above, double);
      below = omega (arith, R.below, double, pow);
      normal = inr (still_normal R.normal R.above);
    }
  where
    still_normal : {d : ℕ} → (d ≡ 0) ⊎ (8 ≤ y) → (x + 1) / 2 ≤ y * 2 ^ d → 8 ≤ y
    still_normal (inl z) a =
        let b : (x + 1) / 2 ≤ y * 2 ^ 0 = subst (λ k. (x + 1) / 2 ≤ y * 2 ^ k) z a in omega arith
    still_normal (inr k) a = k

Rounds-fb_loop :
    (fuel x e : ℕ) → x < 2 ^ 32 - 1 → x ≤ 15 * 2 ^ fuel → Rounds fuel x e (fb_loop fuel x e)
unfolding fb_loop
Rounds-fb_loop zero x e h hf = record {
  d = 0;
  exponent = omega arith;
  few = omega arith;
  small = omega arith;
  above = omega arith;
  below = omega arith;
  normal = inl refl;
}
Rounds-fb_loop (suc fuel) x e h hf = elim (Bool-cases (leb 16 x)) [
  | inl t ↦
      let big : 16 ≤ x = leb→le 16 x t in
      let half : (x + 1) % 2 ^ 32 / 2 ≡ (x + 1) / 2 = omega arith in
      let double : 2 ^ suc fuel ≡ 2 * 2 ^ fuel = omega (arith, pow-suc 2 fuel) in
      subst (Rounds (suc fuel) x e) (ap (λ y. fb_loop fuel y (e + 1)) (sym half) ∙ if_true _ _ t) (
        one_round fuel x e (fb_loop fuel ((x + 1) / 2) (e + 1)) big
          (Rounds-fb_loop fuel ((x + 1) / 2) (e + 1) (omega arith) (omega arith)))
  | inr f ↦ subst (Rounds (suc fuel) x e) (if_false _ _ f) (record {
    d = 0;
    exponent = omega arith;
    few = omega arith;
    small = not_leb 16 x f;
    above = omega arith;
    below = omega arith;
    normal = inl refl;
  })
]

-- The byte of a mantissa from 8 to 15 is decoded to its value.
decoded :
    (y d : ℕ) → 8 ≤ y → y < 16 → d < 31 → y * 2 ^ d < 2 ^ 32 → fb2int (fb_of (y, d)) ≡ y * 2 ^ d
unfolding fb_of fb2int
decoded y d hy hs hd fits =
    let byte : bit_or ((d + 1) * 8) (y - 8) ≡ (d + 1) * 2 ^ 3 + (y - 8) =
      bit_or_high 3 (d + 1) (y - 8) (omega arith) in
    let whole : (if ltb y 8 then y else bit_or ((d + 1) * 8) (y - 8)) ≡ (d + 1) * 2 ^ 3 + (y - 8) =
      sym (if_false _ _ (not_lt y 8 hy)) ∙ byte in
    let top : bit_and (((d + 1) * 2 ^ 3 + (y - 8)) / 8) 31 ≡ suc d =
      ap (λ t. bit_and t 31) (omega arith) ∙ mask_self 5 (d + 1) (omega arith) ∙ omega arith in
    let low : bit_and ((d + 1) * 2 ^ 3 + (y - 8)) 7 ≡ y - 8 =
      bit_and_mask 3 (d + 1) (y - 8) (omega arith) in
    let mantissa : y - 8 + 8 ≡ y = omega arith in
    let shift : suc d - 1 ≡ d = omega arith in
    let value : (y - 8 + 8) * 2 ^ (suc d - 1) % 2 ^ 32 ≡ y * 2 ^ d =
      ap₂ (λ t k. t * 2 ^ k % 2 ^ 32) mantissa shift ∙ omega (arith, fits) in
    ap fb2int whole
    ∙ ap₂ (λ e m. if e == 0 then (d + 1) * 2 ^ 3 + (y - 8) else (m + 8) * 2 ^ (e - 1) % 2 ^ 32) top
        low
    ∙ sym (if_false _ _ (suc-==-zero d))
    ∙ value

-- A small number is its own byte.
decoded_small : (y e : ℕ) → y < 8 → fb2int (fb_of (y, e)) ≡ y
unfolding fb_of fb2int
decoded_small y e h =
    let whole : (if ltb y 8 then y else bit_or ((e + 1) * 8) (y - 8)) ≡ y =
      sym (if_true _ _ (lt→ltb y 8 h)) in
    let none : y / 8 ≡ 0 = omega arith in
    let top : bit_and (y / 8) 31 ≡ 0 = ap (λ t. bit_and t 31) none ∙ zero-bit_and 31 in
    ap fb2int whole ∙ ap (λ t. if t == 0 then y else (bit_and y 7 + 8) * 2 ^ (t - 1) % 2 ^ 32) top

-- What the rounds come to, decoded.
decoded-Rounds :
    (x y e : ℕ)
    → x < 2 ^ 30
    → Rounds 29 x 0 (y, e)
    → (x ≤ fb2int (fb_of (y, e))) × (7 * fb2int (fb_of (y, e)) ≤ 8 * x)
decoded-Rounds x y e h R = elim (dec_le 8 y) [
  | yes big ↦
      let shift : e ≡ R.d = omega (arith, R.exponent) in
      let eighth : 8 * 2 ^ R.d ≤ y * 2 ^ R.d = mul-le-mul_right (2 ^ R.d) big in
      let value : fb2int (fb_of (y, e)) ≡ y * 2 ^ R.d =
        ap (λ k. fb2int (fb_of (y, k))) shift
        ∙ decoded y R.d big R.small (omega (arith, R.few)) (omega (arith, R.below, eighth)) in
      (omega (arith, value, R.above), omega (arith, value, R.below, eighth))
  | no small ↦
      let none : R.d ≡ 0 = no_shift R.normal small in
      let value : fb2int (fb_of (y, e)) ≡ y = decoded_small y e (omega arith) in
      let above : x ≤ y * 2 ^ 0 = subst (λ k. x ≤ y * 2 ^ k) none R.above in
      let below : y * 2 ^ 0 < x + 2 ^ 0 = subst (λ k. y * 2 ^ k < x + 2 ^ k) none R.below in
      (omega (arith, value), omega (arith, value))
]
  where
    no_shift : {d : ℕ} → (d ≡ 0) ⊎ (8 ≤ y) → ¬ (8 ≤ y) → d ≡ 0
    no_shift (inl z) n = z
    no_shift (inr k) n = absurd (n k)

-- A size below 2 ^ 30 that is put into a floating point byte and read back is rounded up, by an
-- eighth of the result at most. The loop of the encoder ends within its fuel.
pub fb2int-int2fb : (x : ℕ) → x < 2 ^ 30 → (x ≤ fb2int (int2fb x)) × (7 * fb2int (int2fb x) ≤ 8 * x)
unfolding int2fb
fb2int-int2fb x h =
    decoded-Rounds x (fb_loop 29 x 0).0 (fb_loop 29 x 0).1 h
      (Rounds-fb_loop 29 x 0 (omega arith) (omega arith))
