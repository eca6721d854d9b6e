-- ===== src/Opcodes/Create.antt =====
-- Building instructions and RK arguments.
use hack_livesuite.Common.{
  ℕ, ◌+◌, ◌-◌, ◌*◌, ◌%◌, ◌^◌, ◌<◌, bit_and, bit_or, true, false, not, ◌==◌, ◌≡◌, ◌∙◌, ap, ap₂,
  arith,
}
use hack_livesuite.Common.Bits.{
  bit_and_split, bit_or_split, bit_and-zero, bit_or-zero, bit_or_high, bit_or_low, mask_self,
}
use hack_livesuite.Opcodes.Fields.{get-eq, get_bx-eq}
use hack_livesuite.Opcodes.{
  opcode, arg_a, arg_b, arg_c, get, get_bx, create_abc, create_abx, bit_rk, is_k, index_k, rk_as_k,
}

-- The opcode and A, which both formats place alike.
create_low :
    (o x : ℕ)
    → o < 2 ^ 6
    → x < 2 ^ 8
    → bit_or (o * 2 ^ 0 % 2 ^ 32) (x * 2 ^ 6 % 2 ^ 32) ≡ x * 2 ^ 6 + o
create_low o x ho hx =
    let o_kept : o * 2 ^ 0 % 2 ^ 32 ≡ o = omega arith in
    let x_kept : x * 2 ^ 6 % 2 ^ 32 ≡ x * 2 ^ 6 = omega arith in
    ap₂ bit_or o_kept x_kept ∙ bit_or_low 6 x o ho

pub create_abc-eq :
    (o x y z : ℕ)
    → o < 2 ^ 6
    → x < 2 ^ 8
    → y < 2 ^ 9
    → z < 2 ^ 9
    → create_abc o x y z ≡ ((y * 2 ^ 9 + z) * 2 ^ 8 + x) * 2 ^ 6 + o
unfolding create_abc
create_abc-eq o x y z ho hx hy hz =
    let low = x * 2 ^ 6 + o in
    let y_kept : y * 2 ^ 23 % 2 ^ 32 ≡ y * 2 ^ 23 = omega arith in
    let z_kept : z * 2 ^ 14 % 2 ^ 32 ≡ z * 2 ^ 14 + 0 = omega arith in
    let regroup : y * 2 ^ 23 + low ≡ y * 2 ^ 9 * 2 ^ 14 + low = omega arith in
    ap₂ (λ u t. bit_or (bit_or u t) (z * 2 ^ 14 % 2 ^ 32)) (create_low o x ho hx) y_kept
    ∙ ap₂ bit_or (bit_or_low 23 y low (omega arith) ∙ regroup) z_kept
    ∙ bit_or_split 14 (y * 2 ^ 9) z low 0 (omega arith) (omega arith)
    ∙ omega (arith, bit_or_high 9 y z hz, bit_or-zero low)

pub create_abx-eq :
    (o x y : ℕ) → o < 2 ^ 6 → x < 2 ^ 8 → y < 2 ^ 18 → create_abx o x y ≡ y * 2 ^ 14 + x * 2 ^ 6 + o
unfolding create_abx
create_abx-eq o x y ho hx hy =
    let low = x * 2 ^ 6 + o in
    let y_kept : y * 2 ^ 14 % 2 ^ 32 ≡ y * 2 ^ 14 = omega arith in
    ap₂ bit_or (create_low o x ho hx) y_kept ∙ bit_or_low 14 y low (omega arith) ∙ omega arith

-- An instruction in either format gives back the opcode and the arguments that it was made of, if
-- each of them fits its field.
pub get-create :
    (o x y z bx : ℕ)
    → o < 2 ^ 6
    → x < 2 ^ 8
    → y < 2 ^ 9
    → z < 2 ^ 9
    → bx < 2 ^ 18
    → (get opcode (create_abc o x y z) ≡ o)
      × (get arg_a (create_abc o x y z) ≡ x)
      × (get arg_b (create_abc o x y z) ≡ y)
      × (get arg_c (create_abc o x y z) ≡ z)
      × (get opcode (create_abx o x bx) ≡ o)
      × (get arg_a (create_abx o x bx) ≡ x)
      × (get_bx (create_abx o x bx) ≡ bx)
get-create o x y z bx ho hx hy hz hb =
    let e = create_abc-eq o x y z ho hx hy hz in
    let e' = create_abx-eq o x bx ho hx hb in
    let i = create_abc o x y z in
    let j = create_abx o x bx in
    (
      omega (arith, e, get-eq opcode i),
      omega (arith, e, get-eq arg_a i),
      omega (arith, e, get-eq arg_b i),
      omega (arith, e, get-eq arg_c i),
      omega (arith, e', get-eq opcode j),
      omega (arith, e', get-eq arg_a j),
      omega (arith, e', get_bx-eq j),
    )

-- A constant's index as an RK argument: it is seen to be a constant, and its index is read back;
-- a register is seen to be none.
pub index_k-rk_as_k :
    (x : ℕ)
    → x < bit_rk
    → (is_k (rk_as_k x) ≡ true) × (index_k (rk_as_k x) ≡ x) × (is_k x ≡ false) × (rk_as_k x < 2 ^ 9)
unfolding is_k index_k rk_as_k
index_k-rk_as_k x h =
    let made : bit_or x bit_rk ≡ 1 * 2 ^ 8 + x = bit_or_low 8 1 x h in
    let test : bit_and (1 * 2 ^ 8 + x) (1 * 2 ^ 8 + 0) ≡ 256 =
      omega (arith, bit_and_split 8 1 1 x 0 h (omega arith), bit_and-zero x) in
    let small : bit_and (0 * 2 ^ 8 + x) (1 * 2 ^ 8 + 0) ≡ 0 =
      omega (arith, bit_and_split 8 0 1 x 0 h (omega arith), bit_and-zero x) in
    let index : bit_and (1 * 2 ^ 8 + x) ((2 ^ 24 - 2) * 2 ^ 8 + (2 ^ 8 - 1)) ≡ x =
      omega
        (arith, bit_and_split 8 1 (2 ^ 24 - 2) x (2 ^ 8 - 1) h (omega arith), mask_self 8 x h) in
    let padded : x ≡ 0 * 2 ^ 8 + x = omega arith in
    (
      ap (λ t. not (t == 0)) (ap (λ u. bit_and u bit_rk) made ∙ test),
      ap (λ u. bit_and u (2 ^ 32 - 1 - bit_rk)) made ∙ index,
      ap (λ t. not (t == 0)) (ap (λ u. bit_and u bit_rk) padded ∙ small),
      omega (arith, made),
    )
