-- ===== src/Objects/Log2/Exact.antt =====
-- The logarithms are exact.
use hack_livesuite.Common.{
  ℕ, zero, suc, ◌+◌, ◌-◌, ◌*◌, ◌/◌, ◌^◌, ◌≤◌, ◌<◌, ◌≡◌, refl, sym, ap, subst, ◌∙◌, arith, Bool,
  true, false, ◌&&◌, ◌||◌, ◌==◌, ==_iff, leb, ltb, ltb→lt, leb→le, not_leb, if◌then◌else◌, List, [],
  ◌∷◌, get_or, length,
}
use native.Mathlib.Nat.{pow-suc, pow-le-pow_right}
use native.Mathlib.Decide.{dec_lt}
use hack_livesuite.Objects.Log2.{log_2, log2_loop, bits_of, ceillog2}

-- b is the number of bits of x.
abbrev pub IsBits : ℕ → ℕ → Type 0
IsBits x b = (x < 2 ^ b) × (1 ≤ x → 2 ^ b ≤ 2 * x)

-- The test that a table has the number of bits of k, k + 1, …
abbrev table_right : List ℕ → ℕ → Bool
table_right [] k = true
table_right (b ∷ bs) k =
    (ltb k (2 ^ b) && (leb (2 ^ b) (2 * k) || k == 0)) && table_right bs (k + 1)

and_true : (a b : Bool) → (a && b) ≡ true → (a ≡ true) × (b ≡ true)
and_true true true h = (refl, refl)
and_true true false h = cc
and_true false b h = cc

IsBits-get_or :
    (bs : List ℕ) (k i : ℕ)
    → table_right bs k ≡ true
    → i < length bs
    → IsBits (k + i) (get_or bs i 0)
IsBits-get_or [] k i h lt = absurd (omega arith)
IsBits-get_or (b ∷ bs) k zero h lt =
    let (low, high) =
      and_true (ltb k (2 ^ b)) (leb (2 ^ b) (2 * k) || k == 0)
        (and_true _ (table_right bs (k + 1)) h).0 in
    let here : k + 0 ≡ k = omega arith in
    subst (λ x. IsBits x b) (sym here)
      (ltb→lt k (2 ^ b) low, at_least (leb (2 ^ b) (2 * k)) refl high)
  where
    at_least : (t : Bool) → leb (2 ^ b) (2 * k) ≡ t → (t || k == 0) ≡ true → 1 ≤ k → 2 ^ b ≤ 2 * k
    at_least true e h one = leb→le _ _ e
    at_least false e h one = absurd (ground (arith, (==_iff k 0).0 h))
IsBits-get_or (b ∷ bs) k (suc i) h lt =
    let next : k + 1 + i ≡ k + suc i = omega arith in
    subst (λ x. IsBits x (get_or bs i 0)) next
      (IsBits-get_or bs (k + 1) i (and_true _ _ h).1 (omega arith))

IsBits-log_2 : (x : ℕ) → x < 256 → IsBits x (get_or log_2 x 0)
IsBits-log_2 x h =
    let same : 0 + x ≡ x = omega arith in
    subst (λ k. IsBits k (get_or log_2 x 0)) same (IsBits-get_or log_2 0 x refl h)

eight_more : (b : ℕ) → 2 ^ (b + 8) ≡ 2 ^ b * 256
eight_more b =
    let split : b + 8 ≡ suc (suc (suc (suc (four_up b)))) = omega arith in
    ap (λ n. 2 ^ n) split ∙ omega (arith, four_more (four_up b), four_more b)
  where
    four_up : ℕ → ℕ
    four_up n = suc (suc (suc (suc n)))

    four_more : (n : ℕ) → 2 ^ suc (suc (suc (suc n))) ≡ 2 ^ n * 16
    four_more n = omega (
      arith,
      pow-suc 2 n,
      pow-suc 2 (suc n),
      pow-suc 2 (suc (suc n)),
      pow-suc 2 (suc (suc (suc n))),
    )

-- The loop adds the bits of x to what it starts with.
log2_loop-IsBits :
    (fuel l x : ℕ) → x < 256 * 256 ^ fuel → (b : ℕ) × (log2_loop fuel l x ≡ l + b) × IsBits x b
unfolding log2_loop
log2_loop-IsBits zero l x h = (get_or log_2 x 0, refl, IsBits-log_2 x (omega arith))
log2_loop-IsBits (suc fuel) l x h =
    at (leb 256 x) refl (log2_loop-IsBits fuel (l + 8) (x / 256) (omega (arith, pow-suc 256 fuel)))
  where
    at :
        (t : Bool)
        → leb 256 x ≡ t
        → (b : ℕ) × (log2_loop fuel (l + 8) (x / 256) ≡ l + 8 + b) × IsBits (x / 256) b
        → (b : ℕ) × ((if t then log2_loop fuel (l + 8) (x / 256) else l + get_or log_2 x 0) ≡ l + b)
          × IsBits x b
    at true e (b, same, (low, high)) = (
      b + 8,
      omega (arith, same),
      (
        omega (arith, eight_more b),
        λ _. omega (arith, eight_more b, high (omega (arith, leb→le 256 x e))),
      ),
    )
    at false e rest = (get_or log_2 x 0, refl, IsBits-log_2 x (not_leb 256 x e))

-- luaO_log2 of an unsigned int is one less than its number of bits.
pub bits_of-IsBits : (x : ℕ) → x < 2 ^ 32 → IsBits x (bits_of x)
unfolding bits_of
bits_of-IsBits x h =
    let (b, same, bits) = log2_loop-IsBits 3 0 x h in
    let result : log2_loop 3 0 x ≡ b = omega (arith, same) in subst (IsBits x) (sym result) bits

bits_of_zero : (y : ℕ) → y ≡ 0 → bits_of y ≡ 0
unfolding bits_of log2_loop
bits_of_zero y e = ap bits_of e

-- For a positive x up to 2 ^ 32, ceillog2 is the least exponent of a power of two that is x or more.
pub ceillog2-least :
    (x : ℕ) → 1 ≤ x → x ≤ 2 ^ 32 → (x ≤ 2 ^ ceillog2 x) × ((e : ℕ) → x ≤ 2 ^ e → ceillog2 x ≤ e)
unfolding ceillog2
ceillog2-least x one small =
    let (low, high) = bits_of-IsBits (x - 1) (omega arith) in
    (omega (arith, low), λ e h. least e h high)
  where
    least :
        (e : ℕ) → x ≤ 2 ^ e → (1 ≤ x - 1 → 2 ^ bits_of (x - 1) ≤ 2 * (x - 1)) → bits_of (x - 1) ≤ e
    least e h high = elim (dec_lt e (bits_of (x - 1))) [
      | yes above ↦ absurd (too_low (dec_lt 1 x) above)
      | no below ↦ omega arith
    ]
      where
        too_low : Dec (1 < x) → e < bits_of (x - 1) → ⊥
        too_low (yes big) above = omega (
          arith,
          pow-le-pow_right {n = 2} (omega arith) {i = suc e} {j = bits_of (x - 1)} above,
          pow-suc 2 e,
          high (omega arith),
        )
        too_low (no one_at) above = omega (arith, bits_of_zero (x - 1) (omega arith))
