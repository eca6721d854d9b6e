-- ===== src/Opcodes/Fields.antt =====
-- Getting and setting the fields of an instruction.
use hack_livesuite.Common.{
  ℕ, ◌+◌, ◌-◌, ◌*◌, ◌/◌, ◌%◌, ◌^◌, ◌<◌, bit_and, bit_or, ◌≡◌, ◌≢◌, refl, sym, ◌∙◌, ap, ap₂, arith,
}
use hack_livesuite.Common.Bits.{
  bit_and_split, bit_or_split, bit_and-zero, bit_or-zero, bit_and_mask, bit_or_high, mask_self,
  two_pow_pos,
}
use native.Mathlib.Nat.{div-add-mod', mod-lt}
use hack_livesuite.Opcodes.{
  mask1, mask0, get_field, set_field, Field, opcode, arg_a, arg_b, arg_c, pos, size, get, set_arg,
  get_bx, set_bx,
}

-- What a setter makes of an instruction in three parts, at a field of `n` bits above `p` others
-- and below `q` more.
module _ (p n q : ℕ) (mask : mask1 n p ≡ (2 ^ n - 1) * 2 ^ p + 0)
    (outside : mask0 n p ≡ ((2 ^ q - 1) * 2 ^ n + 0) * 2 ^ p + (2 ^ p - 1)) where
  set_field_parts :
      (h x l v : ℕ)
      → h < 2 ^ q
      → x < 2 ^ n
      → l < 2 ^ p
      → v < 2 ^ n
      → v * 2 ^ p < 2 ^ 32
      → set_field p n ((h * 2 ^ n + x) * 2 ^ p + l) v ≡ (h * 2 ^ n + v) * 2 ^ p + l
  unfolding set_field
  set_field_parts h x l v hh hx hl hv hw =
      ap₂ bit_or kept placed
      ∙ bit_or_split p (h * 2 ^ n) v l 0 hl (two_pow_pos p)
      ∙ ap₂ (λ high low. high * 2 ^ p + low) (bit_or_high n h v hv) (bit_or-zero l)
    where
      kept : bit_and ((h * 2 ^ n + x) * 2 ^ p + l) (mask0 n p) ≡ h * 2 ^ n * 2 ^ p + l
      kept =
          ap (bit_and ((h * 2 ^ n + x) * 2 ^ p + l)) outside
          ∙ bit_and_split p (h * 2 ^ n + x) ((2 ^ q - 1) * 2 ^ n + 0) l (2 ^ p - 1) hl
              (omega (arith, two_pow_pos p))
          ∙ ap₂ (λ high low. high * 2 ^ p + low)
              (bit_and_split n h (2 ^ q - 1) x 0 hx (two_pow_pos n)
                ∙ omega (arith, ap (λ t. t * 2 ^ n) (mask_self q h hh), bit_and-zero x))
              (mask_self p l hl)

      shifted : v * 2 ^ p % 2 ^ 32 ≡ v * 2 ^ p + 0
      shifted = omega arith

      placed : bit_and (v * 2 ^ p % 2 ^ 32) (mask1 n p) ≡ v * 2 ^ p + 0
      placed =
          ap₂ bit_and shifted mask
          ∙ bit_and_split p v (2 ^ n - 1) 0 0 (two_pow_pos p) (two_pow_pos p)
          ∙ omega (arith, ap (λ t. t * 2 ^ p) (mask_self n v hv), bit_and-zero 0)

  set_field_at :
      (i v : ℕ)
      → i ≡ (i / 2 ^ (p + n) * 2 ^ n + i / 2 ^ p % 2 ^ n) * 2 ^ p + i % 2 ^ p
      → i / 2 ^ (p + n) < 2 ^ q
      → v < 2 ^ n
      → v * 2 ^ p < 2 ^ 32
      → set_field p n i v ≡ (i / 2 ^ (p + n) * 2 ^ n + v) * 2 ^ p + i % 2 ^ p
  set_field_at i v parts high hv hw =
      ap (λ j. set_field p n j v) parts
      ∙ set_field_parts (i / 2 ^ (p + n)) (i / 2 ^ p % 2 ^ n) (i % 2 ^ p) v high
          (mod-lt _ (two_pow_pos n)) (mod-lt _ (two_pow_pos p)) hv hw

-- The field of `n` bits above `p` others is a quotient and a remainder.
get_field_value : (p n i : ℕ) → mask1 n 0 ≡ 2 ^ n - 1 → get_field p n i ≡ i / 2 ^ p % 2 ^ n
unfolding get_field
get_field_value p n i mask =
    ap₂ bit_and (sym (div-add-mod' (i / 2 ^ p) (2 ^ n))) mask
    ∙ bit_and_mask n (i / 2 ^ p / 2 ^ n) (i / 2 ^ p % 2 ^ n) (mod-lt _ (two_pow_pos n))

pub get-eq : (f : Field) (i : ℕ) → get f i ≡ i / 2 ^ pos f % 2 ^ size f
unfolding get mask1
get-eq opcode i = get_field_value 0 6 i refl
get-eq arg_a i = get_field_value 6 8 i refl
get-eq arg_c i = get_field_value 14 9 i refl
get-eq arg_b i = get_field_value 23 9 i refl

set_arg-eq :
    (f : Field) (i v : ℕ)
    → i < 2 ^ 32
    → v < 2 ^ size f
    → set_arg f i v ≡ (i / 2 ^ (pos f + size f) * 2 ^ size f + v) * 2 ^ pos f + i % 2 ^ pos f
unfolding set_arg mask1 mask0
set_arg-eq opcode i v hi hv =
    set_field_at 0 6 26 refl refl i v (omega arith) (omega arith) hv (omega arith)
set_arg-eq arg_a i v hi hv =
    set_field_at 6 8 18 refl refl i v (omega arith) (omega arith) hv (omega arith)
set_arg-eq arg_c i v hi hv =
    set_field_at 14 9 9 refl refl i v (omega arith) (omega arith) hv (omega arith)
set_arg-eq arg_b i v hi hv =
    set_field_at 23 9 0 refl refl i v (omega arith) (omega arith) hv (omega arith)

pub set_bx-eq : (i v : ℕ) → i < 2 ^ 32 → v < 2 ^ 18 → set_bx i v ≡ v * 2 ^ 14 + i % 2 ^ 14
unfolding set_bx mask1 mask0
set_bx-eq i v hi hv =
    set_field_at 14 18 0 refl refl i v (omega arith) (omega arith) hv (omega arith) ∙ omega arith

pub get_bx-eq : (i : ℕ) → get_bx i ≡ i / 2 ^ 14 % 2 ^ 18
unfolding get_bx mask1
get_bx-eq i = get_field_value 14 18 i refl

module _ (i v : ℕ) (hi : i < 2 ^ 32) where
  set_arg-lt : (f : Field) → v < 2 ^ size f → set_arg f i v < 2 ^ 32
  set_arg-lt opcode hv = omega (arith, set_arg-eq opcode i v hi hv)
  set_arg-lt arg_a hv = omega (arith, set_arg-eq arg_a i v hi hv)
  set_arg-lt arg_c hv = omega (arith, set_arg-eq arg_c i v hi hv)
  set_arg-lt arg_b hv = omega (arith, set_arg-eq arg_b i v hi hv)

  get-set_arg_self : (f : Field) → v < 2 ^ size f → get f (set_arg f i v) ≡ v
  get-set_arg_self opcode hv =
      omega (arith, set_arg-eq opcode i v hi hv, get-eq opcode (set_arg opcode i v))
  get-set_arg_self arg_a hv =
      omega (arith, set_arg-eq arg_a i v hi hv, get-eq arg_a (set_arg arg_a i v))
  get-set_arg_self arg_c hv =
      omega (arith, set_arg-eq arg_c i v hi hv, get-eq arg_c (set_arg arg_c i v))
  get-set_arg_self arg_b hv =
      omega (arith, set_arg-eq arg_b i v hi hv, get-eq arg_b (set_arg arg_b i v))

  get-set_arg_other : (f g : Field) → v < 2 ^ size f → f ≢ g → get g (set_arg f i v) ≡ get g i
  get-set_arg_other opcode opcode hv ne = absurd (ne refl)
  get-set_arg_other opcode arg_a hv ne =
      omega (arith, set_arg-eq opcode i v hi hv, get-eq arg_a (set_arg opcode i v), get-eq arg_a i)
  get-set_arg_other opcode arg_c hv ne =
      omega (arith, set_arg-eq opcode i v hi hv, get-eq arg_c (set_arg opcode i v), get-eq arg_c i)
  get-set_arg_other opcode arg_b hv ne =
      omega (arith, set_arg-eq opcode i v hi hv, get-eq arg_b (set_arg opcode i v), get-eq arg_b i)
  get-set_arg_other arg_a opcode hv ne =
      omega (arith, set_arg-eq arg_a i v hi hv, get-eq opcode (set_arg arg_a i v), get-eq opcode i)
  get-set_arg_other arg_a arg_a hv ne = absurd (ne refl)
  get-set_arg_other arg_a arg_c hv ne =
      omega (arith, set_arg-eq arg_a i v hi hv, get-eq arg_c (set_arg arg_a i v), get-eq arg_c i)
  get-set_arg_other arg_a arg_b hv ne =
      omega (arith, set_arg-eq arg_a i v hi hv, get-eq arg_b (set_arg arg_a i v), get-eq arg_b i)
  get-set_arg_other arg_c opcode hv ne =
      omega (arith, set_arg-eq arg_c i v hi hv, get-eq opcode (set_arg arg_c i v), get-eq opcode i)
  get-set_arg_other arg_c arg_a hv ne =
      omega (arith, set_arg-eq arg_c i v hi hv, get-eq arg_a (set_arg arg_c i v), get-eq arg_a i)
  get-set_arg_other arg_c arg_c hv ne = absurd (ne refl)
  get-set_arg_other arg_c arg_b hv ne =
      omega (arith, set_arg-eq arg_c i v hi hv, get-eq arg_b (set_arg arg_c i v), get-eq arg_b i)
  get-set_arg_other arg_b opcode hv ne =
      omega (arith, set_arg-eq arg_b i v hi hv, get-eq opcode (set_arg arg_b i v), get-eq opcode i)
  get-set_arg_other arg_b arg_a hv ne =
      omega (arith, set_arg-eq arg_b i v hi hv, get-eq arg_a (set_arg arg_b i v), get-eq arg_a i)
  get-set_arg_other arg_b arg_c hv ne =
      omega (arith, set_arg-eq arg_b i v hi hv, get-eq arg_c (set_arg arg_b i v), get-eq arg_c i)
  get-set_arg_other arg_b arg_b hv ne = absurd (ne refl)

-- A setter keeps the instruction within 32 bits, its getter reads the value back, and the other
-- three fields are as they were, for every instruction and every value that the field can hold.
pub get-set_arg :
    (f : Field) (i v : ℕ)
    → i < 2 ^ 32
    → v < 2 ^ size f
    → (set_arg f i v < 2 ^ 32)
      × (get f (set_arg f i v) ≡ v)
      × ((g : Field) → f ≢ g → get g (set_arg f i v) ≡ get g i)
get-set_arg f i v hi hv =
    (set_arg-lt i v hi f hv, get-set_arg_self i v hi f hv, λ g. get-set_arg_other i v hi f g hv)

-- The same for Bx, which leaves the opcode and A as they were.
pub get_bx-set_bx :
    (i v : ℕ)
    → i < 2 ^ 32
    → v < 2 ^ 18
    → (set_bx i v < 2 ^ 32)
      × (get_bx (set_bx i v) ≡ v)
      × (get opcode (set_bx i v) ≡ get opcode i)
      × (get arg_a (set_bx i v) ≡ get arg_a i)
get_bx-set_bx i v hi hv =
    let e = set_bx-eq i v hi hv in
    (
      omega (arith, e),
      omega (arith, e, get_bx-eq (set_bx i v)),
      omega (arith, e, get-eq opcode (set_bx i v), get-eq opcode i),
      omega (arith, e, get-eq arg_a (set_bx i v), get-eq arg_a i),
    )
