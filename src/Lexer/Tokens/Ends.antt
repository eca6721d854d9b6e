-- ===== src/Lexer/Tokens/Ends.antt =====
-- llex ends with a token or an error, and consumes a character unless the input is at its end.
use hack_livesuite.Common.{
  ℕ, zero, suc, ◌≤◌, ◌<◌, ◌≡◌, ◌⊎◌, inl, inr, refl, arith, Bool, true, false, ◌||◌, ◌==◌, [], ◌∷◌,
  Option, none, some,
}
use hack_livesuite.Lexer.{
  Clib, Token, tk_eos, tk_eq, tk_le, tk_ge, tk_ne, LexState, Lexed, ◌>>=◌, is, satisfies, next,
  reset,
}
use hack_livesuite.Lexer.Numerals.{is_word}
use hack_livesuite.Lexer.Strings.{Sep, closed, unclosed}
use hack_livesuite.Lexer.Steps.{
  size, size-next, Ends, ended, failed, Ends-bind, Ends-if, Ends-map, satisfied, Ends-save_and_next,
  Ends-inclinenumber, Ends-check_next,
}
use hack_livesuite.Lexer.Loops.{Within, size-reset, Ends-save_while, Ends-read_numeral}
use hack_livesuite.Lexer.LongLoops.{AtBracket, Ends-skip_sep, Ends-read_long_string}
use hack_livesuite.Lexer.StringLoops.{Ends-read_string}
use hack_livesuite.Lexer.Tokens.{
  operator, skip_line, ends_line, comment_of, comment, lex_minus, bracket_of, lex_number, third_dot,
  second_dot, lex_dot, lex_string, lex_word, lex_default, lex_char, llex_loop, llex,
}

-- The end of the input, or less than `n` characters left.
abbrev pub Consumes : ℕ → Token × LexState → Type 0
Consumes n (tok, ls) = (tok ≡ tk_eos) ⊎ (size ls < n)

line_some : (o : Option ℕ) → ends_line o ≡ false → (c : ℕ) × (o ≡ some c)
line_some none h = cc
line_some (some c) h = (c, refl)

Ends-skip_line : (fuel : ℕ) (ls : LexState) → size ls < fuel → Within (size ls) (skip_line fuel ls)
unfolding skip_line
Ends-skip_line zero ls f = absurd (omega arith)
Ends-skip_line (suc fuel) ls f =
    Ends-if (ends_line ls.current) (λ _. ended (omega arith))
      (λ t.
        let less = size-next ls (line_some ls.current t).1 in
        Ends-map (Ends-skip_line fuel (next ls) (omega (arith, less)))
          (λ ls' k. omega (arith, less)))

is_some : (d : ℕ) (o : Option ℕ) → is d o ≡ true → (c : ℕ) × (o ≡ some c)
is_some d none h = cc
is_some d (some c) h = (c, refl)

Ends-operator :
    (c : ℕ) (two : Token) (ls : LexState) {d : ℕ}
    → ls.current ≡ some d
    → Ends (Consumes (size ls)) (operator c two ls)
unfolding operator
Ends-operator c two ls h =
    Ends-if (is b'=' (next ls).current)
      (λ t. ended (
        inr (
          omega (arith, size-next ls h, size-next (next ls) (is_some b'=' (next ls).current t).1))))
      (λ _. ended (inr (omega (arith, size-next ls h))))

module _ (lib : Clib) (fuel n : ℕ) (small : n < fuel) (again : LexState → Lexed (Token × LexState))
    (ends : (ls : LexState) → size ls < n → Ends (Consumes n) (again ls)) where
  Ends-comment_end : (ls : LexState) → size ls < n → Ends (Consumes n) (skip_line fuel ls >>= again)
  Ends-comment_end ls h =
      Ends-bind _ (Ends-skip_line fuel ls (omega arith)) (λ ls1 h1. ends ls1 (omega arith))

  Ends-comment_of :
      (sep : Sep) (ls : LexState)
      → size ls < n
      → AtBracket sep ls
      → Ends (Consumes n) (comment_of lib fuel again (sep, ls))
  unfolding comment_of reset
  Ends-comment_of (closed k) ls h b =
      Ends-bind _ (Ends-read_long_string false k fuel (reset ls) b.1 (omega (arith, size-reset ls)))
        (λ (s, ls1) h1. ends (reset ls1) (omega (arith, size-reset ls, size-reset ls1)))
  Ends-comment_of (unclosed k) ls h b = Ends-comment_end (reset ls) (omega (arith, size-reset ls))

  Ends-comment : (ls : LexState) → size ls < n → Ends (Consumes n) (comment lib fuel again ls)
  unfolding comment
  Ends-comment ls h =
      Ends-if (is b'[' ls.current)
        (λ t.
          Ends-bind _ (Ends-skip_sep fuel ls (is_some b'[' ls.current t).1 (omega arith))
            (λ (sep, ls1) (h1, b). Ends-comment_of sep ls1 (omega arith) b))
        (λ _. Ends-comment_end ls h)

  module _ (ls : LexState) (c : ℕ) (h : ls.current ≡ some c) (hn : size ls ≤ n) where
    Ends-lex_minus : Ends (Consumes n) (lex_minus lib fuel again ls)
    unfolding lex_minus
    Ends-lex_minus =
        Ends-if (is b'-' (next ls).current)
          (λ t. Ends-comment (next (next ls)) (
            omega
              (arith, size-next ls h, size-next (next ls) (is_some b'-' (next ls).current t).1)))
          (λ _. ended (inr (omega (arith, size-next ls h))))

    Ends-bracket_of :
        (sep : Sep) (ls1 : LexState)
        → size ls1 < n
        → AtBracket sep ls1
        → Ends (Consumes n) (bracket_of lib fuel again (sep, ls1))
    unfolding bracket_of
    Ends-bracket_of (closed k) ls1 h1 b =
        Ends-bind _ (Ends-read_long_string true k fuel ls1 b.1 (omega arith))
          (λ r k. ended (inr (omega arith)))
    Ends-bracket_of (unclosed zero) ls1 h1 b = ended (inr h1)
    Ends-bracket_of (unclosed (suc k)) ls1 h1 b = failed

    Ends-lex_string : Ends (Consumes n) (lex_string lib fuel again c ls)
    unfolding lex_string
    Ends-lex_string =
        Ends-bind _ (Ends-read_string lib c fuel ls h (omega arith))
          (λ r k. ended (inr (omega arith)))

    Ends-lex_word : Ends (Consumes n) (lex_word lib fuel again ls)
    unfolding lex_word
    Ends-lex_word = Ends-bind _ (Ends-save_and_next ls h) (λ ls1 h1.
        Ends-bind _ (Ends-save_while (is_word lib) word_some fuel ls1 (omega arith))
          (λ ls2 h2. ended (inr (omega arith))))
      where
        word_some : (o : Option ℕ) → is_word lib o ≡ true → (c : ℕ) × (o ≡ some c)
        word_some none t = cc
        word_some (some d) t = (d, refl)

  Ends-lex_number :
      (ls : LexState) {c : ℕ}
      → ls.current ≡ some c
      → size ls ≤ n
      → Ends (Consumes n) (lex_number lib fuel again ls)
  unfolding lex_number
  Ends-lex_number ls h hn =
      Ends-bind _ (Ends-read_numeral lib fuel ls h (omega arith)) (λ r k. ended (inr (omega arith)))

  Ends-second_dot :
      (b : Bool) (ls : LexState)
      → size ls < n
      → Ends (Consumes n) (second_dot lib fuel again (b, ls))
  unfolding second_dot third_dot
  Ends-second_dot b ls h =
      Ends-if b
        (λ _.
          Ends-bind _ (Ends-check_next (b'.' ∷ []) ls) (λ (d, ls1) k. ended (inr (omega arith))))
        (λ _.
          Ends-if (satisfies lib.isdigit ls.current)
            (λ t. Ends-lex_number ls (satisfied lib.isdigit ls.current t).1 (omega arith))
            (λ _. ended (inr h)))

  module _ (ls : LexState) (c : ℕ) (h : ls.current ≡ some c) (hn : size ls ≤ n) where
    Ends-lex_dot : Ends (Consumes n) (lex_dot lib fuel again ls)
    unfolding lex_dot
    Ends-lex_dot = Ends-bind _ (Ends-save_and_next ls h) (λ ls1 h1.
        Ends-bind _ (Ends-check_next (b'.' ∷ []) ls1)
          (λ (b, ls2) h2. Ends-second_dot b ls2 (omega arith)))

    Ends-lex_default : Ends (Consumes n) (lex_default lib fuel again c ls)
    unfolding lex_default
    Ends-lex_default =
        Ends-if (lib.isspace c) (λ _. ends (next ls) (omega (arith, size-next ls h)))
          (λ _.
            Ends-if (lib.isdigit c) (λ _. Ends-lex_number ls h hn)
              (λ _.
                Ends-if (lib.isalpha c || c == b'_') (λ _. Ends-lex_word ls c h hn)
                  (λ _. ended (inr (omega (arith, size-next ls h))))))

    consumed : (r : Token × LexState) → Consumes (size ls) r → Consumes n r
    consumed r (inl e) = inl e
    consumed r (inr k) = inr (omega arith)

    Ends-lex_some : Ends (Consumes n) (lex_char lib fuel again (some c) ls)
    unfolding lex_char
    Ends-lex_some =
        Ends-if (c == b'\n' || c == b'\r')
          (λ _. Ends-bind _ (Ends-inclinenumber ls h) (λ ls1 k. ends ls1 (omega arith)))
          (λ _.
            Ends-if (c == b'-') (λ _. Ends-lex_minus ls c h hn)
              (λ _.
                Ends-if (c == b'[')
                  (λ _.
                    Ends-bind _ (Ends-skip_sep fuel ls h (omega arith))
                      (λ (sep, ls1) (h1, b). Ends-bracket_of ls c h hn sep ls1 (omega arith) b))
                  (λ _.
                    Ends-if (c == b'=') (λ _. Ends-map (Ends-operator c tk_eq ls h) consumed)
                      (λ _.
                        Ends-if (c == b'<') (λ _. Ends-map (Ends-operator c tk_le ls h) consumed)
                          (λ _.
                            Ends-if (c == b'>')
                              (λ _. Ends-map (Ends-operator c tk_ge ls h) consumed)
                              (λ _.
                                Ends-if (c == b'~')
                                  (λ _. Ends-map (Ends-operator c tk_ne ls h) consumed)
                                  (λ _.
                                    Ends-if (c == b'"' || c == b'\'')
                                      (λ _. Ends-lex_string ls c h hn)
                                      (λ _.
                                        Ends-if (c == b'.') (λ _. Ends-lex_dot)
                                          (λ _. Ends-lex_default)))))))))

Ends-lex_char :
    (lib : Clib) (fuel n : ℕ) (again : LexState → Lexed (Token × LexState))
    → ((ls : LexState) → size ls < n → Ends (Consumes n) (again ls))
    → (ls : LexState) (o : Option ℕ) → ls.current ≡ o
    → n < fuel
    → size ls ≤ n
    → Ends (Consumes n) (lex_char lib fuel again o ls)
unfolding lex_char
Ends-lex_char lib fuel n again ends ls none e f h = ended (inl refl)
Ends-lex_char lib fuel n again ends ls (some c) e f h =
    Ends-lex_some lib fuel n f again ends ls c e h

consumed_less : (a b : ℕ) (r : Token × LexState) → a ≤ b → Consumes a r → Consumes b r
consumed_less a b r h (inl e) = inl e
consumed_less a b r h (inr k) = inr (omega arith)

Ends-llex_loop :
    (lib : Clib) (inner fuel : ℕ) (ls : LexState)
    → size ls < fuel
    → size ls < inner
    → Ends (Consumes (size ls)) (llex_loop lib inner fuel ls)
unfolding llex_loop
Ends-llex_loop lib inner zero ls f fi = absurd (omega arith)
Ends-llex_loop lib inner (suc fuel) ls f fi =
    Ends-lex_char lib inner (size ls) (llex_loop lib inner fuel)
      (λ ls' h.
        Ends-map (Ends-llex_loop lib inner fuel ls' (omega arith) (omega arith))
          (λ r k. consumed_less (size ls') (size ls) r (omega arith) k))
      ls ls.current refl fi (omega arith)

-- With more fuel than characters are left, llex ends with a token or an error, and a token other
-- than the end of the input leaves fewer characters than there were.
pub llex-Consumes :
    (lib : Clib) (fuel : ℕ) (ls : LexState)
    → size ls < fuel
    → Ends (Consumes (size ls)) (llex lib fuel ls)
unfolding llex
llex-Consumes lib fuel ls f =
    Ends-map
      (Ends-llex_loop lib fuel fuel (reset ls) (omega (arith, size-reset ls))
        (omega (arith, size-reset ls)))
      (λ r k. consumed_less (size (reset ls)) (size ls) r (omega (arith, size-reset ls)) k)
