-- ===== src/Lexer/LongLoops.antt =====
-- The loops of long strings and comments end, and leave less of the input.
use hack_livesuite.Common.{
  ℕ, zero, suc, ◌+◌, ◌≤◌, ◌<◌, ◌≡◌, refl, ◌∙◌, arith, Bool, true, false, ◌||◌, ◌==◌, if◌then◌else◌,
  Option, none, some,
}
use hack_livesuite.Lexer.{LexState, Lexed, is, is_newline, next, reset}
use hack_livesuite.Lexer.Strings.{
  Sep, closed, unclosed, count_signs, same_char, skip_sep, is_sep, long_open, long_close,
  long_newline, long_other, long_char, long_loop, skip_first_newline, read_long_string,
}
use hack_livesuite.Lexer.Steps.{
  size, size-next, Ends, ended, failed, Ends-bind, Ends-if, Ends-map, newline_some, Ends-save,
  Ends-save_and_next, Ends-inclinenumber,
}
use hack_livesuite.Lexer.Loops.{Within, size-reset}

Ends-count_signs :
    (fuel count : ℕ) (ls : LexState)
    → size ls < fuel
    → Ends (λ (n, ls'). size ls' ≤ size ls) (count_signs fuel count ls)
unfolding count_signs
Ends-count_signs zero count ls f = absurd (omega arith)
Ends-count_signs (suc fuel) count ls f =
    Ends-if (is b'=' ls.current)
      (λ t. Ends-bind _ (Ends-save_and_next ls (sign_some ls.current t).1) (λ ls' h.
        Ends-map (Ends-count_signs fuel (count + 1) ls' (omega arith)) (λ r k. omega arith)))
      (λ _. ended (omega arith))
  where
    sign_some : (o : Option ℕ) → is b'=' o ≡ true → (c : ℕ) × (o ≡ some c)
    sign_some none h = cc
    sign_some (some c) h = (c, refl)

-- The bracket that closes a separator is the current character.
abbrev pub AtBracket : Sep → LexState → Type 0
AtBracket (closed n) ls = (c : ℕ) × (ls.current ≡ some c)
AtBracket (unclosed n) ls = Unit {0}

pub Ends-skip_sep :
    (fuel : ℕ) (ls : LexState) {c : ℕ}
    → ls.current ≡ some c
    → size ls < fuel
    → Ends (λ (sep, ls'). (size ls' < size ls) × AtBracket sep ls') (skip_sep fuel ls)
unfolding skip_sep
Ends-skip_sep fuel ls h f = Ends-bind _ (Ends-save_and_next ls h) (λ ls1 h1.
    Ends-bind _ (Ends-count_signs fuel 0 ls1 (omega arith))
      (λ (count, ls2) h2. ended (omega arith, at_bracket count ls2 ls2.current ls.current refl h)))
  where
    at_bracket :
        (count : ℕ) (ls2 : LexState) (o p : Option ℕ) {c : ℕ}
        → ls2.current ≡ o
        → p ≡ some c
        → AtBracket (if same_char o p then closed count else unclosed count) ls2
    at_bracket count ls2 none none e g = cc
    at_bracket count ls2 none (some c) e g = tt
    at_bracket count ls2 (some d) none e g = tt
    at_bracket count ls2 (some d) (some c) e g = found (d == c)
      where
        found : (b : Bool) → AtBracket (if b then closed count else unclosed count) ls2
        found true = (d, e)
        found false = tt

module _ (seminfo : Bool) (sep fuel m n : ℕ) (again : LexState → Lexed LexState)
    (ends : (ls : LexState) → size ls < m → size ls ≤ n → Within n (again ls)) where
  -- After a bracket and its signs.
  sep_some :
      (found : Sep) (ls : LexState)
      → is_sep sep found ≡ true
      → AtBracket found ls
      → (c : ℕ) × (ls.current ≡ some c)
  sep_some (closed k) ls t b = b
  sep_some (unclosed k) ls t b = cc

  Ends-long_open :
      (ls : LexState) {c : ℕ}
      → ls.current ≡ some c
      → size ls < fuel
      → size ls ≤ m
      → size ls ≤ n
      → Within n (long_open seminfo sep fuel again ls)
  unfolding long_open
  Ends-long_open ls h f hm hn = Ends-bind _ (Ends-skip_sep fuel ls h f) (λ (found, ls1) (h1, b).
      Ends-if (is_sep sep found)
        (λ t.
          Ends-bind _ (Ends-save_and_next ls1 (sep_some found ls1 t b).1) (λ ls2 h2.
            Ends-if (sep == 0) (λ _. failed) (λ _. ends ls2 (omega arith) (omega arith))))
        (λ _. ends ls1 (omega arith) (omega arith)))

  Ends-long_close :
      (ls : LexState) {c : ℕ}
      → ls.current ≡ some c
      → size ls < fuel
      → size ls ≤ m
      → size ls ≤ n
      → Within n (long_close seminfo sep fuel again ls)
  unfolding long_close
  Ends-long_close ls h f hm hn = Ends-bind _ (Ends-skip_sep fuel ls h f) (λ (found, ls1) (h1, b).
      Ends-if (is_sep sep found)
        (λ t. Ends-map (Ends-save_and_next ls1 (sep_some found ls1 t b).1) (λ ls2 h2. omega arith))
        (λ _. ends ls1 (omega arith) (omega arith)))

  Ends-long_newline :
      (ls : LexState) {c : ℕ}
      → ls.current ≡ some c
      → size ls ≤ m
      → size ls ≤ n
      → Within n (long_newline seminfo sep fuel again ls)
  unfolding long_newline
  Ends-long_newline ls h hm hn = Ends-bind _ (Ends-save b'\n' ls) (λ ls1 (h1, e).
      Ends-bind _ (Ends-inclinenumber ls1 (e ∙ h))
        (λ ls2 h2. kept seminfo ls2 (omega arith) (omega arith)))
    where
      kept :
          (b : Bool) (ls2 : LexState)
          → size ls2 < m
          → size ls2 ≤ n
          → Within n (again (if b then ls2 else reset ls2))
      kept true ls2 u v = ends ls2 u v
      kept false ls2 u v =
          ends (reset ls2) (omega (arith, size-reset ls2)) (omega (arith, size-reset ls2))

  Ends-long_other :
      (ls : LexState) {c : ℕ}
      → ls.current ≡ some c
      → size ls ≤ m
      → size ls ≤ n
      → Within n (long_other seminfo sep fuel again ls)
  unfolding long_other
  Ends-long_other ls h hm hn =
      Ends-if seminfo
        (λ _.
          Ends-bind _ (Ends-save_and_next ls h) (λ ls1 h1. ends ls1 (omega arith) (omega arith)))
        (λ _. ends (next ls) (omega (arith, size-next ls h)) (omega (arith, size-next ls h)))

  Ends-long_char :
      (ls : LexState) (o : Option ℕ)
      → ls.current ≡ o
      → size ls < fuel
      → size ls ≤ m
      → size ls ≤ n
      → Within n (long_char seminfo sep fuel again o ls)
  unfolding long_char
  Ends-long_char ls none h f hm hn = failed
  Ends-long_char ls (some c) h f hm hn =
      Ends-if (c == b'[') (λ _. Ends-long_open ls h f hm hn)
        (λ _.
          Ends-if (c == b']') (λ _. Ends-long_close ls h f hm hn)
            (λ _.
              Ends-if (c == b'\n' || c == b'\r') (λ _. Ends-long_newline ls h hm hn)
                (λ _. Ends-long_other ls h hm hn)))

Ends-long_loop :
    (seminfo : Bool) (sep inner n fuel : ℕ) (ls : LexState)
    → size ls < fuel
    → size ls ≤ n
    → n < inner
    → Within n (long_loop seminfo sep inner fuel ls)
unfolding long_loop
Ends-long_loop seminfo sep inner n zero ls f hn hi = absurd (omega arith)
Ends-long_loop seminfo sep inner n (suc fuel) ls f hn hi =
    Ends-long_char seminfo sep inner fuel n (long_loop seminfo sep inner fuel)
      (λ ls' hm hn'. Ends-long_loop seminfo sep inner n fuel ls' hm hn' hi) ls ls.current refl
      (omega arith) (omega arith) hn

pub Ends-read_long_string :
    (seminfo : Bool) (sep fuel : ℕ) (ls : LexState) {c : ℕ}
    → ls.current ≡ some c
    → size ls < fuel
    → Ends (λ (s, ls'). size ls' < size ls) (read_long_string seminfo sep fuel ls)
unfolding read_long_string skip_first_newline
Ends-read_long_string seminfo sep fuel ls h f = Ends-bind _ (Ends-save_and_next ls h) (λ ls1 h1.
    Ends-bind _
      (Ends-if (is_newline ls1.current)
        (λ t. Ends-map (Ends-inclinenumber ls1 (newline_some ls1.current t).1) (λ ls2 h2. lt_le h2))
        (λ _. ended (omega arith)))
      (λ ls2 h2.
        Ends-bind _
          (Ends-long_loop seminfo sep fuel (size ls2) fuel ls2 (omega arith) (omega arith)
            (omega arith))
          (λ ls3 h3. ended (omega arith))))
  where
    lt_le : {a b : ℕ} → a < b → a ≤ b
    lt_le k = omega arith
