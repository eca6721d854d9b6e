-- ===== src/Verifier/Pieces.antt =====
-- Each piece of the verifier reads within bounds, and passes only what fits.
use hack_livesuite.Common.{
  ℕ, zero, suc, ◌+◌, ◌-◌, ◌≤◌, ◌<◌, ◌≡◌, refl, arith, Bool, true, false, not, ◌==◌, ltb,
  if◌then◌else◌, List, [], ◌∷◌, length, get_elem?, Option, some, ltb→lt, ==_iff, subst,
}
use native.Mathlib.Decide.{dec_lt}
use hack_livesuite.Proto.{Fields, Protos, Constant, count_protos, proto, no_protos, more}
use hack_livesuite.Opcodes.{
  arg_b, arg_c, get, get_bx, max_sbx, is_k, index_k, opcode_of, OpMode, iabc, iabx, iasbx,
  OpArgMask, arg_n, arg_u, arg_r, arg_k,
}
use hack_livesuite.Verifier.Defs.{
  Checked, passed, refused, ◌>>=◌, check, found, fetch, check_reg, check_arg_mode, in_code, target,
  check_target, arguments, check_skip, nups_at, check_captures, check_open_op, check_jump,
  check_string, is_string, is_jmp, is_capture, has_count, open_op,
}
use hack_livesuite.Verifier.Valid.{
  WordAt, IsReg, ArgFits, JumpFits, ArgumentsFit, SkipFits, IsOpen, b_of, c_of,
}

-- No read went out of bounds, and `P` holds of the result if the checks passed.
pub data Holds {A : Type 0} (P : A → Type 0) : Checked A → Type 0 where
  holds : {a : A} → P a → Holds P (passed a)
  stopped : Holds P refused

pub Holds-bind :
    {A B : Type 0} {P : A → Type 0} {Q : B → Type 0} {m : Checked A} (k : A → Checked B)
    → Holds P m
    → ((a : A) → P a → Holds Q (k a))
    → Holds Q (m >>= k)
Holds-bind k (holds {a} p) h = h a p
Holds-bind k stopped h = stopped

pub Holds-map :
    {A : Type 0} {P Q : A → Type 0} {m : Checked A} → Holds P m → ((a : A) → P a → Q a) → Holds Q m
Holds-map (holds {a} p) h = holds (h a p)
Holds-map stopped h = stopped

pub Holds-check : (b : Bool) → Holds (λ _. b ≡ true) (check b)
Holds-check true = holds refl
Holds-check false = stopped

-- A check whose success gives the fact that it tests for.
pub Holds-test : {Q : Unit {0} → Type 0} (b : Bool) → (b ≡ true → Q tt) → Holds Q (check b)
Holds-test true h = holds (h refl)
Holds-test false h = stopped

pub Holds-passed : {A : Type 0} (P : A → Type 0) (a : A) → P a → Holds P (passed a)
Holds-passed P a p = holds p

pub get_elem?-lt :
    {A : Type 0} (xs : List A) (i : ℕ) → i < length xs → (x : A) × (get_elem? xs i ≡ some x)
get_elem?-lt [] i h = absurd (omega arith)
get_elem?-lt (x ∷ xs) zero h = (x, refl)
get_elem?-lt (x ∷ xs) (suc i) h = get_elem?-lt xs i (omega arith)

-- A read in bounds gives the element.
pub Holds-found :
    {A : Type 0} (xs : List A) (i : ℕ)
    → i < length xs
    → Holds (λ x. get_elem? xs i ≡ some x) (found (get_elem? xs i))
Holds-found xs i h = let (x, e) = get_elem?-lt xs i h in rw e (holds refl)

false_if_not : (b : Bool) → not b ≡ true → b ≡ false
false_if_not true h = cc
false_if_not false h = refl

module _ (f : Fields) where
  pub Holds-fetch :
      (pc : ℕ) → pc < length f.code → Holds (λ i. get_elem? f.code pc ≡ some i) (fetch f pc)
  unfolding fetch
  Holds-fetch pc h = Holds-found f.code pc h

  pub Holds-word :
      (pc : ℕ) (test : ℕ → Bool)
      → pc < length f.code
      → Holds (λ _. WordAt f pc (λ i. test i ≡ true)) (fetch f pc >>= λ i. check (test i))
  Holds-word pc test h =
      Holds-bind _ (Holds-fetch pc h) (λ i e. Holds-test (test i) (λ t. (i, e, t)))

  pub Holds-reg : (r : ℕ) → Holds (λ _. IsReg f r) (check_reg f r)
  unfolding check_reg
  Holds-reg r = Holds-test (ltb r f.maxstacksize) (ltb→lt r f.maxstacksize)

  Holds-arg : (r : ℕ) (mode : OpArgMask) → Holds (λ _. ArgFits f r mode) (check_arg_mode f r mode)
  unfolding check_arg_mode
  Holds-arg r arg_n = Holds-test (r == 0) (λ h. (==_iff r 0).0 h)
  Holds-arg r arg_u = holds tt
  Holds-arg r arg_r = Holds-test (ltb r f.maxstacksize) (ltb→lt r f.maxstacksize)
  Holds-arg r arg_k =
      Holds-test (if is_k r then ltb (index_k r) (length f.k) else ltb r f.maxstacksize)
        (branches (is_k r))
    where
      branches :
          (b : Bool)
          → (if b then ltb (index_k r) (length f.k) else ltb r f.maxstacksize) ≡ true
          → (if b then index_k r else r) < (if b then length f.k else f.maxstacksize)
      branches true h = ltb→lt (index_k r) (length f.k) h
      branches false h = ltb→lt r f.maxstacksize h

  Holds-target :
      (dest : ℕ)
      → dest < length f.code
      → Holds
          (λ _. (before : ℕ) → dest ≡ suc before → WordAt f before (λ d. has_count d ≡ false))
          (check_target f dest)
  unfolding check_target
  Holds-target zero h = holds (λ before e. absurd (omega arith))
  Holds-target (suc d) h = Holds-bind _ (Holds-fetch d (omega arith)) (λ i e.
      Holds-test (not (has_count i)) (λ t before s.
        let same : d ≡ before = omega arith in
        subst (λ n. WordAt f n (λ j. has_count j ≡ false)) same
          (i, e, false_if_not (has_count i) t)))

  Holds-jump : (pc bx : ℕ) → Holds (λ _. JumpFits f pc bx) (check_jump f pc bx)
  unfolding check_jump in_code target
  Holds-jump pc bx = Holds-bind _ (Holds-check (in_code f pc bx)) (λ _ inside.
      let low : max_sbx ≤ pc + 1 + bx = ground arith in
      let high : pc + 1 + bx - max_sbx < length f.code = ground arith in
      Holds-map (Holds-target (pc + 1 + bx - max_sbx) high)
        (λ _ no. record { not_before = low; inside = high; no_count = no }))

  pub Holds-arguments :
      (pc i : ℕ) (b_mode c_mode : OpArgMask) (mode : OpMode)
      → Holds
          (λ (b, c). (b ≡ b_of i mode) × (c ≡ c_of i mode) × ArgumentsFit f pc i b_mode c_mode mode)
          (arguments f pc i b_mode c_mode mode)
  unfolding arguments
  Holds-arguments pc i b_mode c_mode iabc =
      Holds-bind _ (Holds-arg (get arg_b i) b_mode) (λ _ hb.
        Holds-bind _ (Holds-arg (get arg_c i) c_mode) (λ _ hc. holds (refl, refl, (hb, hc))))
  Holds-arguments pc i arg_k c_mode iabx =
      Holds-bind _ (Holds-check (ltb (get_bx i) (length f.k)))
        (λ _ h. holds (refl, refl, ltb→lt (get_bx i) (length f.k) h))
  Holds-arguments pc i _ c_mode iabx = holds (refl, refl, tt)
  Holds-arguments pc i arg_r c_mode iasbx =
      Holds-bind _ (Holds-jump pc (get_bx i)) (λ _ h. holds (refl, refl, h))
  Holds-arguments pc i _ c_mode iasbx = holds (refl, refl, tt)

  pub Holds-skip : (pc : ℕ) (t : Bool) → Holds (λ _. SkipFits f pc t) (check_skip f pc t)
  unfolding check_skip
  Holds-skip pc false = holds tt
  Holds-skip pc true = Holds-bind _ (Holds-check (ltb (pc + 2) (length f.code))) (λ _ h.
      let room = ltb→lt (pc + 2) (length f.code) h in
      Holds-map (Holds-word (pc + 1) (λ j. is_jmp (opcode_of j)) (omega arith)) (λ _ w. (room, w)))

  pub Holds-IsOpen :
      (pc : ℕ) → pc + 1 < length f.code → Holds (λ _. IsOpen f pc) (check_open_op f pc)
  unfolding check_open_op
  Holds-IsOpen pc h = Holds-word (pc + 1) (λ j. open_op (opcode_of j) (get arg_b j)) h

  pub Holds-captures :
      (pc nup : ℕ)
      → pc + nup < length f.code
      → Holds
          (λ _. (j : ℕ) → j < nup → WordAt f (pc + suc j) (λ i. is_capture (opcode_of i) ≡ true))
          (check_captures f pc nup)
  unfolding check_captures
  Holds-captures pc zero h = holds (λ j b. absurd (omega arith))
  Holds-captures pc (suc nup) h = Holds-bind _ (Holds-fetch (pc + suc nup) h) (λ i e.
      Holds-bind _ (Holds-check (is_capture (opcode_of i))) (λ _ t.
        Holds-map (Holds-captures pc nup (omega arith))
          (λ _ below j b. last_or_below i e t below j b)))
    where
      last_or_below :
          (i : ℕ)
          → get_elem? f.code (pc + suc nup) ≡ some i
          → is_capture (opcode_of i) ≡ true
          → ((j : ℕ) → j < nup → WordAt f (pc + suc j) (λ i. is_capture (opcode_of i) ≡ true))
          → (j : ℕ) → j < suc nup
          → WordAt f (pc + suc j) (λ i. is_capture (opcode_of i) ≡ true)
      last_or_below i e t below j b = elim (dec_lt j nup) [
        | yes lower ↦ below j lower
        | no upper ↦
            let same : nup ≡ j = omega arith in
            subst (λ n. WordAt f (pc + suc n) (λ i. is_capture (opcode_of i) ≡ true)) same (i, e, t)
      ]

pub Holds-nups_at :
    (ps : Protos) (b : ℕ)
    → b < count_protos ps
    → Holds (λ n. nups_at ps b ≡ passed n) (nups_at ps b)
unfolding nups_at
Holds-nups_at no_protos b h = absurd (omega arith)
Holds-nups_at (more (proto f ps) rest) zero h = holds refl
Holds-nups_at (more (proto f ps) rest) (suc b) h = Holds-nups_at rest b (omega arith)

pub Holds-string :
    (f : Fields) (b : ℕ)
    → b < length f.k
    → Holds
        (λ _. (s : Option (List ℕ)) × (get_elem? f.k b ≡ some (Constant.string s)))
        (check_string f b)
unfolding check_string
Holds-string f b h =
    Holds-bind _ (Holds-found f.k b h) (λ k e. Holds-test (is_string k) (λ t. its_string k e t))
  where
    its_string :
        (k : Constant)
        → get_elem? f.k b ≡ some k
        → is_string k ≡ true
        → (s : Option (List ℕ)) × (get_elem? f.k b ≡ some (Constant.string s))
    its_string (Constant.string s) e t = (s, e)
    its_string Constant.nil e t = cc
    its_string (Constant.boolean v) e t = cc
    its_string (Constant.number x) e t = cc
    its_string (Constant.other x) e t = cc
