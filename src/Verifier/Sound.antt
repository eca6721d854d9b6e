-- ===== src/Verifier/Sound.antt =====
-- The loop of the verifier, precheck and luaG_checkcode.
use hack_livesuite.Common.{
  not_ltb, ℕ, zero, suc, ◌+◌, ◌-◌, ◌≤◌, ◌<◌, ◌≡◌, ◌≢◌, refl, sym, ◌∙◌, ap, subst, arith, ◌⊎◌, inl,
  inr, Bool, true, false, ◌&&◌, ◌||◌, ◌==◌, leb, ltb, if◌then◌else◌, length, get_elem?, Option,
  none, some, Bool-cases, ltb→lt,
}
use native.Mathlib.Decide.{dec_lt}
use hack_livesuite.Proto.{accepted, Fields, Protos, proto}
use hack_livesuite.Opcodes.{arg_a, get, OpCode, opcode_of, op_modes}
use hack_livesuite.Opcodes.{op_return, op_move}
use hack_livesuite.Verifier.Defs.{
  Checked, fault, has_count, is_return, inspect, inspect_known, round, scan, precheck, symbexec,
  accepts, check_code, no_reg, max_stack, changed,
}
use hack_livesuite.Verifier.Valid.{WordAt, IsValid, IsValidAt, Scanned, here, later}
use hack_livesuite.Verifier.Switch.{after, Holds-switch}
use hack_livesuite.Verifier.Pieces.{
  Holds, holds, stopped, Holds-bind, Holds-map, Holds-check, Holds-fetch, Holds-word, Holds-reg,
  Holds-arguments, Holds-skip,
}

is_return-eq : (o : OpCode) → is_return (some o) ≡ true → o ≡ op_return
is_return-eq op_return h = refl
is_return-eq op_move h = cc
is_return-eq _ h = cc

-- The last word of the code is a RETURN.
abbrev pub EndsInReturn : Fields → Type 0
EndsInReturn f = WordAt f (length f.code - 1) (λ i. is_return (opcode_of i) ≡ true)

goes_on :
    (f : Fields) (pc i : ℕ) (o : OpCode)
    → EndsInReturn f
    → pc < length f.code
    → get_elem? f.code pc ≡ some i
    → opcode_of i ≡ some o
    → o ≢ op_return
    → pc + 1 < length f.code
goes_on f pc i o (j, ej, rj) h e eo ne = elim (dec_lt (pc + 1) (length f.code)) [
  | yes room ↦ room
  | no end ↦
      let here : pc ≡ length f.code - 1 = omega arith in
      let both : some i ≡ some j = sym e ∙ ap (get_elem? f.code) here ∙ ej in
      let same : i ≡ j = cc in
      absurd (ne (is_return-eq o (ap is_return (sym eo ∙ ap opcode_of same) ∙ rj)))
]

last_in :
    (b : Bool) (x pc last : ℕ) {n : ℕ}
    → (x ≡ pc) ⊎ (x ≡ (if b then pc else last))
    → pc < n
    → last < n
    → x < n
last_in true x pc last (inl e) h k = omega arith
last_in true x pc last (inr e) h k = omega arith
last_in false x pc last (inl e) h k = omega arith
last_in false x pc last (inr e) h k = omega arith

Scanned-le : (f : Fields) {t s : ℕ} → Scanned f t s → s ≤ t
Scanned-le f (here e) = omega arith
Scanned-le f (later {i} e r) = le_next (has_count i) (Scanned-le f r)
  where
    le_next : {s t : ℕ} (b : Bool) → (if b then s + 2 else s + 1) ≤ t → s ≤ t
    le_next true h = omega arith
    le_next false h = omega arith

module _ (f : Fields) (ps : Protos) (lastpc reg : ℕ) (ends : EndsInReturn f) where
  Holds-inspect :
      (o : OpCode) (i pc last : ℕ)
      → pc < length f.code
      → get_elem? f.code pc ≡ some i
      → opcode_of i ≡ some o
      → last < length f.code
      → Holds
          (λ r.
            (pc ≤ r.0)
            × (reg ≡ no_reg → r.0 ≡ after f ps lastpc reg o i pc)
            × (r.1 < length f.code)
            × IsValid f ps o pc i)
          (inspect f ps lastpc reg o i pc last)
  unfolding inspect
  Holds-inspect o i pc last h e eo hl =
      let m = op_modes o in
      let last' = changed f ps lastpc reg (m.a_set && get arg_a i == reg) pc last in
      Holds-bind _ (Holds-reg f (get arg_a i)) (λ _ ra.
        Holds-bind _ (Holds-arguments f pc i m.b_mode m.c_mode m.mode) (λ bc (eb, ec, fit).
          Holds-bind _ (Holds-skip f pc m.t) (λ _ sk.
            rw (eb, ec)
              (Holds-map
                (Holds-switch f ps lastpc reg o i pc last' (goes_on f pc i o ends h e eo) fit)
                (λ r ((grows, full, lasts), opf). (
                  grows,
                  full,
                  last_in (m.a_set && get arg_a i == reg) r.1 pc last lasts h hl,
                  record { target = ra; arguments = fit; skip = sk; op = opf },
                ))))))

  after-next :
      (o : OpCode) (i pc : ℕ)
      → opcode_of i ≡ some o
      → after f ps lastpc reg o i pc + 1 ≡ (if has_count i then pc + 2 else pc + 1)
  unfolding has_count
  after-next o i pc e = rw e (ground arith)

  -- A round passes only a valid instruction, and a full check goes on to the next one.
  abbrev Passes : ℕ → ℕ × ℕ → Type 0
  Passes pc (pc', last') =
      (pc ≤ pc')
      × (last' < length f.code)
      × IsValidAt f ps pc
      × (reg ≡ no_reg → WordAt f pc (λ i. pc' + 1 ≡ (if has_count i then pc + 2 else pc + 1)))

  Holds-known :
      (oo : Option OpCode) (i pc last : ℕ)
      → pc < length f.code
      → get_elem? f.code pc ≡ some i
      → opcode_of i ≡ oo
      → last < length f.code
      → Holds (Passes pc) (inspect_known f ps lastpc reg oo i pc last)
  unfolding inspect_known
  Holds-known none i pc last h e eo hl = stopped
  Holds-known (some o) i pc last h e eo hl =
      Holds-map (Holds-inspect o i pc last h e eo hl) (λ r (grows, full, inside, valid). (
        grows,
        inside,
        (i, e, (o, eo, valid)),
        λ q. (i, e, ap (λ n. n + 1) (full q) ∙ after-next o i pc eo),
      ))

  Holds-round :
      (pc last : ℕ)
      → pc < length f.code
      → last < length f.code
      → Holds (Passes pc) (round f ps lastpc reg pc last)
  unfolding round
  Holds-round pc last h hl =
      Holds-bind _ (Holds-fetch f pc h) (λ i e. Holds-known (opcode_of i) i pc last h e refl hl)

  -- Every instruction that a pass from `pc` comes to is valid.
  abbrev AllValid : ℕ → Type 0
  AllValid pc = (t : ℕ) → Scanned f t pc → t < length f.code → IsValidAt f ps t

  AllValid-end : (pc : ℕ) → length f.code ≤ pc → AllValid pc
  AllValid-end pc h t s ht = absurd (omega (arith, Scanned-le f s))

  AllValid-step :
      (pc pc' : ℕ)
      → IsValidAt f ps pc
      → WordAt f pc (λ i. pc' ≡ (if has_count i then pc + 2 else pc + 1))
      → AllValid pc'
      → AllValid pc
  AllValid-step pc pc' v w rest t (here e) ht = subst (IsValidAt f ps) e v
  AllValid-step pc pc' v (i, ei, en) rest t (later {i = j} ej s) ht =
      let both : some i ≡ some j = sym ei ∙ ej in
      let same : j ≡ i = cc in
      let there = ap (λ k. if has_count k then pc + 2 else pc + 1) same ∙ sym en in
      rest t (subst (Scanned f t) there s) ht

  module _ (inside : lastpc ≤ length f.code) where
    abbrev Done : ℕ → ℕ → Type 0
    Done pc r = (r < length f.code) × (reg ≡ no_reg → lastpc ≡ length f.code → AllValid pc)

    -- A round that goes on to a pass that ends well.
    Done-step : (pc : ℕ) (r : ℕ × ℕ) (s : ℕ) → Passes pc r → Done (r.0 + 1) s → Done pc s
    Done-step pc (pc', last') s (grows, hl, v, w) (hs, rest) =
        (hs, λ q e. AllValid-step pc (pc' + 1) v (w q) (rest q e))

    Holds-scan :
        (fuel pc last : ℕ)
        → lastpc ≤ pc + fuel
        → last < length f.code
        → Holds (Done pc) (scan f ps lastpc reg fuel pc last)
    unfolding scan
    Holds-scan zero pc last hf hl = holds (hl, λ q e. AllValid-end pc (omega arith))
    Holds-scan (suc fuel) pc last hf hl = elim (Bool-cases (ltb pc lastpc)) [
      | inl t ↦
          let lt : pc < lastpc = ltb→lt pc lastpc t in
          rw t (
            Holds-bind _ (Holds-round pc last (omega arith) hl) (λ r p.
              Holds-map (Holds-scan fuel (r.0 + 1) r.1 (omega (arith, p.0)) p.1)
                (λ s d. Done-step pc r s p d)))
      | inr e ↦
          rw e (holds (hl, λ q l. AllValid-end pc (subst (λ n. n ≤ pc) l (not_ltb pc lastpc e))))
    ]

module _ (f : Fields) where
  -- precheck reads the last word of the code, and what it passes ends in a RETURN.
  Holds-precheck : 0 < length f.code → Holds (λ _. EndsInReturn f) (precheck f)
  unfolding precheck
  Holds-precheck h = Holds-bind _ (Holds-check (leb f.maxstacksize max_stack)) (λ _ _.
      Holds-bind _ (Holds-check (leb (length f.upvalues) f.nups)) (λ _ _.
        Holds-bind _ (Holds-check (length f.lineinfo == length f.code || length f.lineinfo == 0))
          (λ _ _. Holds-word f (length f.code - 1) (λ i. is_return (opcode_of i)) (omega arith))))

module _ (f : Fields) (ps : Protos) (lastpc reg : ℕ) where
  Holds-symbexec :
      0 < length f.code
      → lastpc ≤ length f.code
      → Holds
          (λ _.
            EndsInReturn f
            × (reg ≡ no_reg
                → lastpc ≡ length f.code
                → (t : ℕ) → Scanned f t 0
                → t < length f.code
                → IsValidAt f ps t))
          (symbexec f ps lastpc reg)
  unfolding symbexec
  Holds-symbexec h inside = Holds-bind _ (Holds-precheck f h) (λ _ ends.
      Holds-bind _
        (Holds-scan f ps lastpc reg ends inside lastpc 0 (length f.code - 1) (omega arith)
          (omega arith))
        (λ last (hl, all). Holds-map (Holds-fetch f last hl) (λ i _. (ends, all))))

Holds-ne : {A : Type 0} {P : A → Type 0} {m : Checked A} → Holds P m → m ≢ fault
Holds-ne (holds p) h = cc
Holds-ne stopped h = cc

Holds-passed_lem : {P : Type 0} {m : Checked ℕ} → Holds (λ _. P) m → accepts m ≡ accepted → P
unfolding accepts
Holds-passed_lem (holds p) h = p
Holds-passed_lem stopped h = cc

-- The symbolic execution of a function with at least one word of code, up to a pc within the code
-- and for any register, reads no instruction, constant or inner function out of bounds.
pub symbexec-ne-fault :
    (f : Fields) (ps : Protos) (lastpc reg : ℕ)
    → 0 < length f.code
    → lastpc ≤ length f.code
    → symbexec f ps lastpc reg ≢ fault
symbexec-ne-fault f ps lastpc reg h inside = Holds-ne (Holds-symbexec f ps lastpc reg h inside)

-- A function that luaG_checkcode accepts ends in a RETURN, and each instruction that a pass over
-- its code comes to is one of the opcodes, has its arguments within the registers, the constants,
-- the upvalues and the inner functions, jumps within the code and not to the word behind a SETLIST
-- that takes its count from there, and is followed by what its opcode needs. The function has at
-- least one word of code.
pub check_code-IsValidAt :
    (f : Fields) (ps : Protos)
    → 0 < length f.code
    → check_code (proto f ps) ≡ accepted
    → EndsInReturn f × ((t : ℕ) → Scanned f t 0 → t < length f.code → IsValidAt f ps t)
unfolding check_code
check_code-IsValidAt f ps h e =
    let (ends, all) =
      Holds-passed_lem (Holds-symbexec f ps (length f.code) no_reg h (omega arith)) e in
    (ends, all refl refl)
