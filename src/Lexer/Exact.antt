-- ===== src/Lexer/Exact.antt =====
-- What the steps of the lexer give exactly, where they throw no error.
use hack_livesuite.Common.{
  ℕ, ◌+◌, ◌*◌, ◌/◌, ◌≤◌, ◌<◌, ◌≡◌, ◌≢◌, refl, sym, ap, ◌∙◌, arith, false, ◌==◌, leb, if◌then◌else◌,
  if_true, if_false, Bool-cases, not_le, not_leb, ==_iff, inl, inr, List, [], ◌∷◌, ◌++◌, length,
  Option, none, some,
}
use hack_livesuite.Zio.Stream.{stream}
use hack_livesuite.Limits.{max_int, max_sizet}
use hack_livesuite.Lexer.{
  LexState, Lexed, done, thrown, too_many_lines, ◌>>=◌, saved, second_newline, next, save,
  save_and_next, skip_newline, inclinenumber,
}
use hack_livesuite.Lexer.Steps.{remaining_of, remaining, remaining_current}

pub current_of : (ls : LexState) {c : ℕ} {cs : List ℕ} → remaining ls ≡ c ∷ cs → ls.current ≡ some c
unfolding remaining
current_of ls {c} {cs} h = first ls.current h
  where
    first : (o : Option ℕ) → remaining_of o (stream ls.z) ≡ c ∷ cs → o ≡ some c
    first none e = cc
    first (some d) e = cc

pub remaining_tail :
    (ls : LexState) {c : ℕ} {cs : List ℕ} → remaining ls ≡ c ∷ cs → remaining (next ls) ≡ cs
remaining_tail ls {c} {cs} h =
    let same : c ∷ remaining (next ls) ≡ c ∷ cs =
      sym (remaining_current ls (current_of ls h)) ∙ h in
    cc

-- `ls1` is `ls` with `c` saved and `cs` left; it may be a line further on.
pub record After (c : ℕ) (cs : List ℕ) (ls ls1 : LexState) : Type 0 where
  pub buff : ls1.buff ≡ ls.buff ++ c ∷ []
  pub left : remaining ls1 ≡ cs
  pub line : ls1.linenumber ≤ ls.linenumber + 1

module _ (c : ℕ) (ls : LexState) (room : length ls.buff < max_sizet / 2) where
  pub save-done :
      (ls1 : LexState) × (save c ls ≡ done ls1)
      × After c (remaining ls) ls ls1
      × (ls1.current ≡ ls.current)
      × (ls1.linenumber ≡ ls.linenumber)
      × (remaining (next ls1) ≡ remaining (next ls))
  unfolding save remaining next
  save-done = elim (Bool-cases (leb (length ls.buff + 1) ls.buffsize)) [
    | inl fits ↦ (
      record ls { buff = ls.buff ++ c ∷ [] },
      sym (if_true _ _ fits),
      record { buff = refl; left = refl; line = omega arith },
      refl,
      refl,
      refl,
    )
    | inr full ↦ (
      record ls { buff = ls.buff ++ c ∷ []; buffsize = ls.buffsize * 2 },
      sym (if_false _ _ (not_huge full) ∙ if_false _ _ full),
      record { buff = refl; left = refl; line = omega arith },
      refl,
      refl,
      refl,
    )
  ]
    where
      not_huge :
          leb (length ls.buff + 1) ls.buffsize ≡ false → leb (max_sizet / 2) ls.buffsize ≡ false
      not_huge full =
          not_le (max_sizet / 2) ls.buffsize
            (omega (arith, not_leb (length ls.buff + 1) ls.buffsize full))

pub next_buff : (ls : LexState) → (next ls).buff ≡ ls.buff
unfolding next
next_buff ls = refl

pub next_line : (ls : LexState) → (next ls).linenumber ≡ ls.linenumber
unfolding next
next_line ls = refl

pub save_and_next-done :
    (ls : LexState) {c : ℕ} {cs : List ℕ}
    → remaining ls ≡ c ∷ cs
    → length ls.buff < max_sizet / 2
    → (ls1 : LexState) × (save_and_next ls ≡ done ls1) × After c cs ls ls1
unfolding save_and_next
save_and_next-done ls {c} {cs} h room =
    let current = current_of ls h in
    let (ls1, e, a, same, line, n) = save-done c ls room in
    (
      next ls1,
      ap (λ o. save (saved o) ls >>= λ ls'. done (next ls')) current
          ∙ ap (λ m. m >>= λ ls'. done (next ls')) e,
      record {
        buff = next_buff ls1 ∙ a.buff;
        left = n ∙ remaining_tail ls h;
        line = omega (arith, next_line ls1, a.line);
      },
    )

no_second : (o : Option ℕ) → o ≢ some b'\r' → second_newline (some b'\n') o ≡ false
no_second none ne = refl
no_second (some d) ne = elim (Bool-cases (d == b'\r')) [
  | inl r ↦ absurd (ne (ap some ((==_iff d b'\r').0 r)))
  | inr r ↦ ground arith
]

skip_once :
    (ls : LexState)
    → ls.current ≡ some b'\n'
    → (next ls).current ≢ some b'\r'
    → skip_newline ls ≡ next ls
unfolding skip_newline
skip_once ls h ne =
    ap (λ o. if second_newline o (next ls).current then next (next ls) else next ls) h
    ∙ sym (if_false _ _ (no_second (next ls).current ne))

-- A newline that no carriage return follows.
pub inclinenumber-done :
    (ls : LexState) {cs : List ℕ}
    → remaining ls ≡ b'\n' ∷ cs
    → (next ls).current ≢ some b'\r'
    → ls.linenumber + 1 < max_int
    → (ls1 : LexState) × (inclinenumber ls ≡ done ls1)
      × (ls1.buff ≡ ls.buff)
      × (remaining ls1 ≡ cs)
      × (ls1.linenumber ≡ ls.linenumber + 1)
unfolding inclinenumber remaining
inclinenumber-done ls {cs} h ne small = (
  record (next ls) { linenumber = (next ls).linenumber + 1 },
  ap counted (skip_once ls (current_of ls h) ne)
      ∙ sym
          (if_false _ _ (not_le max_int ((next ls).linenumber + 1) (omega (arith, next_line ls)))),
  next_buff ls,
  remaining_tail ls h,
  ap (λ n. n + 1) (next_line ls),
)
  where
    counted : LexState → Lexed LexState
    counted l =
        if leb max_int (l.linenumber + 1)
        then thrown too_many_lines
        else done (record l { linenumber = l.linenumber + 1 })
