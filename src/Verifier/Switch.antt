-- ===== src/Verifier/Switch.antt =====
-- The switch on the opcode reads no array out of bounds, and passes only what fits.
use hack_livesuite.Common.{
  ℕ, ◌+◌, ◌-◌, ◌≤◌, ◌<◌, ◌≡◌, ◌≢◌, refl, arith, ◌⊎◌, inl, inr, Bool, true, false, ◌&&◌, ◌||◌, ◌==◌,
  leb, ltb, if◌then◌else◌, length, some, ltb→lt, leb→le, ==_iff,
}
use hack_livesuite.Proto.{Fields, Protos, count_protos}
use hack_livesuite.Opcodes.{arg_a, arg_b, arg_c, get, get_bx, OpCode, op_modes}
use hack_livesuite.Opcodes.{
  op_getupval, op_setupval, op_getglobal, op_setglobal, op_loadbool, op_loadnil, op_self, op_concat,
  op_jmp, op_call, op_tailcall, op_return, op_forloop, op_forprep, op_tforloop, op_setlist,
  op_closure, op_vararg, op_move,
}
use hack_livesuite.Verifier.Defs.{
  passed, check, check_open_op, check_call, is_setlist, takes_varargs, switch, no_reg, jump,
  changed,
}
use hack_livesuite.Verifier.Valid.{ArgumentsFit, IsOpen, CallFits, OpFits, b_of, c_of}
use hack_livesuite.Verifier.Pieces.{
  Holds, holds, Holds-bind, Holds-map, Holds-check, Holds-test, Holds-reg, Holds-IsOpen,
  Holds-captures, Holds-nups_at, Holds-string,
}

or_cases : (x y : Bool) → (x || y) ≡ true → (x ≡ true) ⊎ (y ≡ true)
or_cases true y h = inl refl
or_cases false y h = inr h

zero_or_lt : (b r m : ℕ) → (b == 0 || ltb r m) ≡ true → (b ≡ 0) ⊎ (r < m)
zero_or_lt b r m h = elim (or_cases (b == 0) (ltb r m) h) [
  | inl z ↦ inl ((==_iff b 0).0 z)
  | inr l ↦ inr (ltb→lt r m l)
]

le_or_lt : (b r m : ℕ) → (leb b 1 || ltb r m) ≡ true → (b ≤ 1) ⊎ (r < m)
le_or_lt b r m h = elim (or_cases (leb b 1) (ltb r m) h) [
  | inl z ↦ inl (leb→le b 1 z)
  | inr l ↦ inr (ltb→lt r m l)
]

module _ (f : Fields) (ps : Protos) (lastpc reg : ℕ) where
  -- The pc that the switch leaves is not before the old one, and in a full check it is the old one
  -- but for a SETLIST with a count.
  abbrev pub after : OpCode → ℕ → ℕ → ℕ
  after o i pc = if is_setlist (some o) && get arg_c i == 0 then pc + 1 else pc

  -- `expected` is the pc that a full check goes on from. The last change is at `pc`, or as before.
  abbrev pub Steps : ℕ → ℕ → ℕ → ℕ × ℕ → Type 0
  Steps expected pc last (pc', last') =
      (pc ≤ pc') × (reg ≡ no_reg → pc' ≡ expected) × ((last' ≡ pc) ⊎ (last' ≡ last))

  stays : (pc last : ℕ) → Steps pc pc last (pc, last)
  stays pc last = (omega arith, λ _. refl, inr refl)

  changes : (b : Bool) (pc last : ℕ) → Steps pc pc last (pc, changed f ps lastpc reg b pc last)
  changes true pc last = (omega arith, λ _. refl, inl refl)
  changes false pc last = (omega arith, λ _. refl, inr refl)

  Holds-call :
      (pc last a b c : ℕ)
      → pc + 1 < length f.code
      → Holds
          (λ r. Steps pc pc last r × CallFits f pc a b c)
          (check_call f ps lastpc reg pc last a b c)
  unfolding check_call
  Holds-call pc last a b c h =
      Holds-bind _ (Holds-check (b == 0 || ltb (a + b - 1) f.maxstacksize)) (λ _ hb.
        Holds-bind _ (results (c == 0) refl) (λ _ hc.
          holds (changes (leb a reg) pc last, (zero_or_lt b (a + b - 1) f.maxstacksize hb, hc))))
    where
      Results : Type 0
      Results = ((c ≡ 0) × IsOpen f pc) ⊎ (c ≡ 1) ⊎ (a + c - 2 < f.maxstacksize)

      results :
          (z : Bool)
          → (c == 0) ≡ z
          → Holds
              (λ _. ((c ≡ 0) × IsOpen f pc) ⊎ (c ≡ 1) ⊎ (a + c - 2 < f.maxstacksize))
              (if z then check_open_op f pc else check (c == 1 || ltb (a + c - 2) f.maxstacksize))
      results true e = Holds-map (Holds-IsOpen f pc h) (λ _ o. inl ((==_iff c 0).0 e, o))
      results false e = Holds-test (c == 1 || ltb (a + c - 2) f.maxstacksize) (λ t.
          elim (or_cases (c == 1) (ltb (a + c - 2) f.maxstacksize) t) [
            | inl one ↦ inr (inl ((==_iff c 1).0 one))
            | inr l ↦ inr (inr (ltb→lt (a + c - 2) f.maxstacksize l))
          ])

  jump-Steps : (pc last bx : ℕ) → Steps pc pc last (jump f ps lastpc reg pc last bx)
  unfolding jump
  jump-Steps pc last bx = ground arith

  setlist-Steps :
      (z : Bool) (pc last : ℕ) → let pc' = if z then pc + 1 else pc in Steps pc' pc last (pc', last)
  setlist-Steps true pc last = (omega arith, λ _. refl, inr refl)
  setlist-Steps false pc last = (omega arith, λ _. refl, inr refl)

  Holds-vararg :
      (pc last a b : ℕ)
      → pc + 1 < length f.code
      → Holds
          (λ r. Steps pc pc last r × OpFits f ps op_vararg pc a b 0)
          (switch f ps lastpc reg op_vararg pc last a b 0)
  unfolding switch
  Holds-vararg pc last a b n = Holds-bind _ (Holds-check (takes_varargs f)) (λ _ t.
      Holds-bind _ (open_end (b == 0) refl) (λ _ u.
        Holds-bind _ (Holds-check (ltb (a + b) (f.maxstacksize + 2)))
          (λ _ v. holds (stays pc last, (t, u, ltb→lt _ _ v)))))
    where
      open_end :
          (z : Bool)
          → (b == 0) ≡ z
          → Holds
              (λ _. ((b ≡ 0) × IsOpen f pc) ⊎ (b ≢ 0))
              (if z then check_open_op f pc else passed tt)
      open_end true e = Holds-map (Holds-IsOpen f pc n) (λ _ o. inl ((==_iff b 0).0 e, o))
      open_end false e = holds (inr (λ (q : b ≡ 0). ground arith))

  -- What the switch may rely on: the arguments fit their modes, and the code goes on.
  pub Holds-switch :
      (o : OpCode) (i pc last : ℕ)
      → (o ≢ op_return → pc + 1 < length f.code)
      → let m = op_modes o in
        ArgumentsFit f pc i m.b_mode m.c_mode m.mode
        → Holds
            (λ r.
              Steps (after o i pc) pc last r
              × OpFits f ps o pc (get arg_a i) (b_of i m.mode) (c_of i m.mode))
            (switch f ps lastpc reg o pc last (get arg_a i) (b_of i m.mode) (c_of i m.mode))
  unfolding switch
  Holds-switch op_loadbool i pc last n h =
      let c = get arg_c i in
      Holds-bind _ (Holds-check (c == 0 || ltb (pc + 2) (length f.code)))
        (λ _ t. holds (stays pc last, zero_or_lt c (pc + 2) (length f.code) t))
  Holds-switch op_getupval i pc last n h =
      Holds-bind _ (Holds-check (ltb (get arg_b i) f.nups))
        (λ _ t. holds (stays pc last, ltb→lt _ _ t))
  Holds-switch op_setupval i pc last n h =
      Holds-bind _ (Holds-check (ltb (get arg_b i) f.nups))
        (λ _ t. holds (stays pc last, ltb→lt _ _ t))
  Holds-switch op_getglobal i pc last n h =
      Holds-bind _ (Holds-string f (get_bx i) h) (λ _ s. holds (stays pc last, s))
  Holds-switch op_setglobal i pc last n h =
      Holds-bind _ (Holds-string f (get_bx i) h) (λ _ s. holds (stays pc last, s))
  Holds-switch op_self i pc last n h =
      Holds-bind _ (Holds-reg f (get arg_a i + 1))
        (λ _ r. holds (changes (reg == get arg_a i + 1) pc last, r))
  Holds-switch op_concat i pc last n h =
      Holds-bind _ (Holds-check (ltb (get arg_b i) (get arg_c i)))
        (λ _ t. holds (stays pc last, tt))
  Holds-switch op_tforloop i pc last n h = Holds-bind _ (Holds-check (leb 1 (get arg_c i))) (λ _ t.
      Holds-bind _ (Holds-reg f (get arg_a i + 2 + get arg_c i))
        (λ _ r. holds (changes (leb (get arg_a i + 2) reg) pc last, (leb→le 1 (get arg_c i) t, r))))
  Holds-switch op_forloop i pc last n h =
      Holds-bind _ (Holds-reg f (get arg_a i + 3)) (λ _ r. holds (jump-Steps pc last (get_bx i), r))
  Holds-switch op_forprep i pc last n h =
      Holds-bind _ (Holds-reg f (get arg_a i + 3)) (λ _ r. holds (jump-Steps pc last (get_bx i), r))
  Holds-switch op_jmp i pc last n h = holds (jump-Steps pc last (get_bx i), tt)
  Holds-switch op_call i pc last n h = Holds-call pc last _ _ _ (n (λ e. cc))
  Holds-switch op_tailcall i pc last n h = Holds-call pc last _ _ _ (n (λ e. cc))
  Holds-switch op_return i pc last n h =
      let b = get arg_b i in
      let top = get arg_a i + b - 2 in
      Holds-bind _ (Holds-check (leb b 1 || ltb top f.maxstacksize))
        (λ _ t. holds (stays pc last, le_or_lt b top f.maxstacksize t))
  Holds-switch op_setlist i pc last n h =
      let b = get arg_b i in
      Holds-bind _ (Holds-check (b == 0 || ltb (get arg_a i + b) f.maxstacksize)) (λ _ t.
        holds (
          setlist-Steps (get arg_c i == 0) pc last,
          zero_or_lt b (get arg_a i + b) f.maxstacksize t,
        ))
  Holds-switch op_closure i pc last n h =
      Holds-bind _ (Holds-check (ltb (get_bx i) (count_protos ps))) (λ _ t.
        Holds-bind _ (Holds-nups_at ps (get_bx i) (ltb→lt _ _ t)) (λ nup e.
          Holds-bind _ (Holds-check (ltb (pc + nup) (length f.code))) (λ _ u.
            Holds-bind _ (Holds-captures f pc nup (ltb→lt _ _ u))
              (λ _ w. holds (stays pc last, (nup, e, ltb→lt _ _ u, w))))))
  Holds-switch op_vararg i pc last n h =
      Holds-vararg pc last (get arg_a i) (get arg_b i) (n (λ e. cc))
  Holds-switch op_loadnil i pc last n h =
      holds (changes (leb (get arg_a i) reg && leb reg (get arg_b i)) pc last, tt)
  Holds-switch op_move i pc last n h = holds (stays pc last, tt)
  Holds-switch _ i pc last n h = holds (stays pc last, tt)
