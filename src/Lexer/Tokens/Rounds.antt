-- ===== src/Lexer/Tokens/Rounds.antt =====
-- The rounds of read_string over one character that the format %q has written.
use hack_livesuite.Common.{
  ℕ, suc, ◌+◌, ◌-◌, ◌*◌, ◌/◌, ◌<◌, ◌≡◌, ◌≢◌, refl, sym, ap, subst, ◌∙◌, arith, true, false, ◌||◌,
  ◌==◌, if◌then◌else◌, if_true, if_false, Bool-cases, ==_iff, ==-ne, inl, inr, List, [], ◌∷◌, ◌++◌,
  length, none, some,
}
use hack_livesuite.Patterns.Quote.{quoted_char}
use hack_livesuite.Limits.{max_int, max_sizet}
use hack_livesuite.Lexer.{Clib, LexState, ◌>>=◌, satisfies, saved, next, inclinenumber}
use hack_livesuite.Lexer.Strings.{
  escaped, decimal, decimal_escape, letter_escape, escape, string_char, string_loop,
}
use hack_livesuite.Lexer.Steps.{remaining, remaining_current}
use hack_livesuite.Lexer.Exact.{
  After, current_of, next_line, remaining_tail, save-done, save_and_next-done, inclinenumber-done,
}

-- isdigit is that of the "C" locale on three characters.
pub record HasDigits (lib : Clib) : Type 0 where
  pub digit_zero : lib.isdigit b'0' ≡ true
  pub digit_quote : lib.isdigit b'"' ≡ false
  pub digit_backslash : lib.isdigit b'\\' ≡ false

-- The next byte is no carriage return.
abbrev pub NoReturn : List ℕ → Type 0
NoReturn [] = Unit {0}
NoReturn (c ∷ cs) = c ≢ b'\r'

buff_four : (l : LexState) → (next (next (next (next l)))).buff ≡ l.buff
unfolding next
buff_four l = refl

ne_of : (a b : ℕ) → (a == b) ≡ false → a ≢ b
ne_of a b h = ground arith

plain_char :
    (c : ℕ)
    → (c == b'"') ≡ false
    → (c == b'\\') ≡ false
    → (c == b'\n') ≡ false
    → (c == 0) ≡ false
    → quoted_char c ≡ c ∷ []
unfolding quoted_char
plain_char c q b n z = rw (q, b, n, z) refl

decimal_none : (lib : Clib) (l : LexState) → decimal lib 0 0 l ≡ (0, l)
unfolding decimal
decimal_none lib l = refl

module _ (lib : Clib) (digits : HasDigits lib) (fuel : ℕ) (ls : LexState)
    (room : length ls.buff < max_sizet / 2) (small : ls.linenumber + 1 < max_int) where
  -- One round of the loop of read_string that saves `c` and leaves `cs`.
  unfoldable pub Rounds : ℕ → List ℕ → Type 0
  Rounds c cs =
      (ls1 : LexState) × (string_loop lib b'"' (suc fuel) ls ≡ string_loop lib b'"' fuel ls1)
      × After c cs ls ls1

  Rounds-plain :
      (c : ℕ) (cs : List ℕ)
      → remaining ls ≡ c ∷ cs
      → c ≢ b'"'
      → c ≢ b'\\'
      → c ≢ b'\n'
      → c ≢ b'\r'
      → Rounds c cs
  unfolding Rounds string_loop string_char
  Rounds-plain c cs h q b n r =
      let (ls1, e, a) = save_and_next-done ls h room in
      let newline : (c == b'\n' || c == b'\r') ≡ false = rw (==-ne c b'\n' n) (==-ne c b'\r' r) in
      (
        ls1,
        ap (λ o. string_char lib (string_loop lib b'"' fuel) b'"' o ls) (current_of ls h)
            ∙ sym (if_false _ _ (==-ne c b'"' q))
            ∙ sym (if_false _ _ newline)
            ∙ sym (if_false _ _ (==-ne c b'\\' b))
            ∙ ap (λ m. m >>= string_loop lib b'"' fuel) e,
        a,
      )

  -- A backslash before a character.
  backslash :
      (d : ℕ) (cs : List ℕ)
      → remaining ls ≡ b'\\' ∷ d ∷ cs
      → string_loop lib b'"' (suc fuel) ls
        ≡ letter_escape lib (string_loop lib b'"' fuel) (escaped d) d (next ls)
  unfolding string_loop string_char escape
  backslash d cs h =
      ap (λ o. string_char lib (string_loop lib b'"' fuel) b'"' o ls) (current_of ls h)
      ∙ ap (λ o. escape lib (string_loop lib b'"' fuel) o (next ls))
          (current_of (next ls) (remaining_tail ls h))

  After-next : {c : ℕ} {cs : List ℕ} {ls1 : LexState} → After c cs (next ls) ls1 → After c cs ls ls1
  unfolding next
  After-next a = record { buff = a.buff; left = a.left; line = a.line }

  next_room : length (next ls).buff < max_sizet / 2
  unfolding next
  next_room = room

  Rounds-escaped :
      (d : ℕ) (cs : List ℕ)
      → remaining ls ≡ b'\\' ∷ d ∷ cs
      → escaped d ≡ none
      → (d == b'\n' || d == b'\r') ≡ false
      → lib.isdigit d ≡ false
      → Rounds d cs
  unfolding Rounds letter_escape
  Rounds-escaped d cs h no_letter newline no_digit =
      let (ls1, e, a) = save_and_next-done (next ls) (remaining_tail ls h) next_room in
      (
        ls1,
        backslash d cs h
            ∙ ap (λ o. letter_escape lib (string_loop lib b'"' fuel) o d (next ls)) no_letter
            ∙ sym (if_false _ _ newline)
            ∙ sym (if_false _ _ no_digit)
            ∙ ap (λ m. m >>= string_loop lib b'"' fuel) e,
        After-next a,
      )

  not_return :
      (l : LexState) (cs : List ℕ) → remaining l ≡ cs → NoReturn cs → l.current ≢ some b'\r'
  not_return l [] h ne e =
      let both : b'\r' ∷ remaining (next l) ≡ [] = sym (remaining_current l e) ∙ h in cc
  not_return l (c ∷ cs) h ne e =
      let both : b'\r' ∷ remaining (next l) ≡ c ∷ cs = sym (remaining_current l e) ∙ h in
      let same : c ≡ b'\r' = cc in ne same

  Rounds-newline : (cs : List ℕ) → remaining ls ≡ b'\\' ∷ b'\n' ∷ cs → NoReturn cs → Rounds b'\n' cs
  unfolding Rounds letter_escape escaped
  Rounds-newline cs h ne =
      let left = remaining_tail ls h in
      let (l1, e1, a1, same, line, n) = save-done b'\n' (next ls) next_room in
      let (l2, e2, buff, left2, line2) =
        inclinenumber-done l1 (a1.left ∙ left)
          (not_return (next l1) cs (n ∙ remaining_tail (next ls) left) ne)
          (omega (arith, line, next_line ls)) in
      (
        l2,
        backslash b'\n' cs h
            ∙ ap (λ m. m >>= inclinenumber >>= string_loop lib b'"' fuel) e1
            ∙ ap (λ m. m >>= string_loop lib b'"' fuel) e2,
        record {
          buff = buff ∙ (After-next a1).buff;
          left = left2;
          line = omega (arith, line, line2, next_line ls);
        },
      )

  decimal-zero :
      (n : ℕ) (l : LexState) {cs : List ℕ}
      → remaining l ≡ b'0' ∷ cs
      → decimal lib (suc n) 0 l ≡ decimal lib n 0 (next l)
  unfolding decimal
  decimal-zero n l h =
      ap
        (λ o.
          if satisfies lib.isdigit o
          then decimal lib n (10 * 0 + (saved o - b'0')) (next l)
          else (0, l))
        (current_of l h)
      ∙ sym (if_true _ _ digits.digit_zero)

  Rounds-zero : (cs : List ℕ) → remaining ls ≡ b'\\' ∷ b'0' ∷ b'0' ∷ b'0' ∷ cs → Rounds 0 cs
  unfolding Rounds letter_escape escaped decimal_escape
  Rounds-zero cs h =
      let l1 = next ls in
      let l2 = next l1 in
      let l3 = next l2 in
      let l4 = next l3 in
      let h1 = remaining_tail ls h in
      let h2 = remaining_tail l1 h1 in
      let h3 = remaining_tail l2 h2 in
      let (l5, e, a, same, line, n) =
        save-done 0 l4 (subst (λ b. length b < max_sizet / 2) (sym (buff_four ls)) room) in
      (
        l5,
        backslash b'0' _ h
            ∙ sym (if_true _ _ digits.digit_zero)
            ∙ ap (decimal_escape lib (string_loop lib b'"' fuel)) (
                decimal-zero 2 l1 h1
                ∙ decimal-zero 1 l2 h2
                ∙ decimal-zero 0 l3 h3
                ∙ decimal_none lib l4)
            ∙ ap (λ m. m >>= string_loop lib b'"' fuel) e,
        record {
          buff = a.buff ∙ ap (λ b. b ++ 0 ∷ []) (buff_four ls);
          left = a.left ∙ remaining_tail l3 h3;
          line = omega (arith, line, next_line ls, next_line l1, next_line l2, next_line l3);
        },
      )

  pub Rounds-step :
      (c : ℕ) (cs : List ℕ)
      → c ≢ b'\r'
      → (c ≡ b'\n' → NoReturn cs)
      → remaining ls ≡ quoted_char c ++ cs
      → Rounds c cs
  unfolding quoted_char
  Rounds-step c cs r ne h = elim (Bool-cases (c == b'"')) [
    | inl q ↦
        subst (λ d. remaining ls ≡ quoted_char d ++ cs → Rounds d cs) (sym ((==_iff c b'"').0 q))
          (λ k. Rounds-escaped b'"' cs k (unfold escaped in refl) refl digits.digit_quote) h
    | inr q ↦ elim (Bool-cases (c == b'\\')) [
      | inl b ↦
          subst (λ d. remaining ls ≡ quoted_char d ++ cs → Rounds d cs) (sym ((==_iff c b'\\').0 b))
            (λ k. Rounds-escaped b'\\' cs k (unfold escaped in refl) refl digits.digit_backslash) h
      | inr b ↦ elim (Bool-cases (c == b'\n')) [
        | inl n ↦
            let newline : c ≡ b'\n' = (==_iff c b'\n').0 n in
            subst (λ d. remaining ls ≡ quoted_char d ++ cs → Rounds d cs) (sym newline)
              (λ k. Rounds-newline cs k (ne newline)) h
        | inr n ↦ elim (Bool-cases (c == 0)) [
          | inl z ↦
              subst (λ d. remaining ls ≡ quoted_char d ++ cs → Rounds d cs) (sym ((==_iff c 0).0 z))
                (λ k. Rounds-zero cs k) h
          | inr z ↦
              Rounds-plain c cs (h ∙ ap (λ t. t ++ cs) (plain_char c q b n z)) (ne_of c b'"' q)
                (ne_of c b'\\' b) (ne_of c b'\n' n) r
        ]
      ]
    ]
  ]
