-- ===== src/Lexer/Tokens.antt =====
-- llex, luaX_next and luaX_lookahead.
pub mod Ends
pub mod Rounds
pub mod Quoted
use hack_livesuite.Common.{
  ℕ, zero, suc, ◌+◌, Bool, true, false, not, ◌&&◌, ◌||◌, ◌==◌, if◌then◌else◌, List, [], ◌∷◌, Option,
  none, some,
}
use hack_livesuite.Lexer.{
  Clib, Token, tk_and, tk_break, tk_do, tk_else, tk_elseif, tk_end, tk_false, tk_for, tk_function,
  tk_if, tk_in, tk_local, tk_nil, tk_not, tk_or, tk_repeat, tk_return, tk_then, tk_true, tk_until,
  tk_while, tk_concat, tk_dots, tk_eq, tk_ge, tk_le, tk_ne, tk_eos, tk_number, tk_name, tk_string,
  char, LexState, Lexed, done, thrown, out_of_fuel, ◌>>=◌, is, satisfies, is_newline, saved, next,
  save, save_and_next, inclinenumber, reset, check_next, codes, invalid_delimiter,
}
use hack_livesuite.Lexer.Numerals.{save_while, is_word, read_numeral}
use hack_livesuite.Lexer.Strings.{Sep, closed, unclosed, skip_sep, read_long_string, read_string}
use hack_livesuite.Proto.{same_bytes}

-- luaX_tokens up to NUM_RESERVED, with the token that luaX_init has marked each word with.
abbrev pub reserved_words : List (List ℕ × Token)
reserved_words =
    (codes "and", tk_and)
    ∷ (codes "break", tk_break)
    ∷ (codes "do", tk_do)
    ∷ (codes "else", tk_else)
    ∷ (codes "elseif", tk_elseif)
    ∷ (codes "end", tk_end)
    ∷ (codes "false", tk_false)
    ∷ (codes "for", tk_for)
    ∷ (codes "function", tk_function)
    ∷ (codes "if", tk_if)
    ∷ (codes "in", tk_in)
    ∷ (codes "local", tk_local)
    ∷ (codes "nil", tk_nil)
    ∷ (codes "not", tk_not)
    ∷ (codes "or", tk_or)
    ∷ (codes "repeat", tk_repeat)
    ∷ (codes "return", tk_return)
    ∷ (codes "then", tk_then)
    ∷ (codes "true", tk_true)
    ∷ (codes "until", tk_until)
    ∷ (codes "while", tk_while)
    ∷ []

-- A name, or the reserved word that is spelled like it.
unfoldable pub word_token : List (List ℕ × Token) → List ℕ → Token
word_token [] s = tk_name s
word_token ((w, t) ∷ words) s = if same_bytes w s then t else word_token words s

abbrev pub token_with : {A : Type 0} → (A → Token) → A × LexState → Token × LexState
token_with f (a, ls) = (f a, ls)

-- `else { next(ls); return ...; }` for an operator of two characters
unfoldable pub operator : ℕ → Token → LexState → Lexed (Token × LexState)
operator c two ls =
    if is b'=' (next ls).current then done (two, next (next ls)) else done (char c, next ls)

-- The loop of a short comment, on fuel.
abbrev pub ends_line : Option ℕ → Bool
ends_line none = true
ends_line (some c) = c == b'\n' || c == b'\r'

unfoldable pub skip_line : ℕ → LexState → Lexed LexState
skip_line zero ls = out_of_fuel
skip_line (suc fuel) ls =
    let rest = skip_line fuel (next ls) in if ends_line ls.current then done ls else rest

module _ (lib : Clib) (fuel : ℕ) (again : LexState → Lexed (Token × LexState)) where
  abbrev pub comment_end : LexState → Lexed (Token × LexState)
  comment_end ls = skip_line fuel ls >>= again

  unfoldable pub comment_of : Sep × LexState → Lexed (Token × LexState)
  comment_of (closed sep, ls) =
      read_long_string false sep fuel (reset ls) >>= λ (_, ls'). again (reset ls')
  comment_of (unclosed n, ls) = comment_end (reset ls)

  -- After `--`.
  unfoldable pub comment : LexState → Lexed (Token × LexState)
  comment ls = if is b'[' ls.current then skip_sep fuel ls >>= comment_of else comment_end ls

  unfoldable pub lex_minus : LexState → Lexed (Token × LexState)
  lex_minus ls =
      if is b'-' (next ls).current then comment (next (next ls)) else done (char b'-', next ls)

  unfoldable pub bracket_of : Sep × LexState → Lexed (Token × LexState)
  bracket_of (closed sep, ls) =
      read_long_string true sep fuel ls >>= λ r. done (token_with tk_string r)
  bracket_of (unclosed zero, ls) = done (char b'[', ls)
  bracket_of (unclosed (suc n), ls) = thrown invalid_delimiter

  unfoldable pub lex_number : LexState → Lexed (Token × LexState)
  lex_number ls = read_numeral lib fuel ls >>= λ r. done (token_with tk_number r)

  unfoldable pub third_dot : Bool × LexState → Lexed (Token × LexState)
  third_dot (b, ls) = done (if b then tk_dots else tk_concat, ls)

  unfoldable pub second_dot : Bool × LexState → Lexed (Token × LexState)
  second_dot (b, ls) =
      if b
      then check_next (b'.' ∷ []) ls >>= third_dot
      else (if satisfies lib.isdigit ls.current then lex_number ls else done (char b'.', ls))

  unfoldable pub lex_dot : LexState → Lexed (Token × LexState)
  lex_dot ls = do ls' ← save_and_next ls; check_next (b'.' ∷ []) ls' >>= second_dot

  unfoldable pub lex_string : ℕ → LexState → Lexed (Token × LexState)
  lex_string c ls = read_string lib c fuel ls >>= λ r. done (token_with tk_string r)

  -- An identifier or a reserved word.
  unfoldable pub lex_word : LexState → Lexed (Token × LexState)
  lex_word ls = do
    ls1 ← save_and_next ls
    ls2 ← save_while (is_word lib) fuel ls1
    done (word_token reserved_words ls2.buff, ls2)

  unfoldable pub lex_default : ℕ → LexState → Lexed (Token × LexState)
  lex_default c ls =
      if lib.isspace c
      then again (next ls)
      else (if lib.isdigit c
          then lex_number ls
          else (if lib.isalpha c || c == b'_' then lex_word ls else done (char c, next ls)))

  -- The switch of llex.
  unfoldable pub lex_char : Option ℕ → LexState → Lexed (Token × LexState)
  lex_char none ls = done (tk_eos, ls)
  lex_char (some c) ls =
      if c == b'\n' || c == b'\r'
      then inclinenumber ls >>= again
      else (if c == b'-'
          then lex_minus ls
          else (if c == b'['
              then skip_sep fuel ls >>= bracket_of
              else (if c == b'='
                  then operator c tk_eq ls
                  else (if c == b'<'
                      then operator c tk_le ls
                      else (if c == b'>'
                          then operator c tk_ge ls
                          else (if c == b'~'
                              then operator c tk_ne ls
                              else (if c == b'"' || c == b'\''
                                  then lex_string c ls
                                  else (if c == b'.' then lex_dot ls else lex_default c ls))))))))

-- The loop of llex, on fuel. `inner` is the fuel of the loops in it.
unfoldable pub llex_loop : Clib → ℕ → ℕ → LexState → Lexed (Token × LexState)
llex_loop lib inner zero ls = out_of_fuel
llex_loop lib inner (suc fuel) ls = lex_char lib inner (llex_loop lib inner fuel) ls.current ls

-- llex
unfoldable pub llex : Clib → ℕ → LexState → Lexed (Token × LexState)
llex lib fuel ls = llex_loop lib fuel fuel (reset ls)

-- luaX_next
abbrev pub is_eos : Token → Bool
is_eos tk_eos = true
is_eos _ = false

unfoldable pub lex_next : Clib → ℕ → LexState → Lexed LexState
lex_next lib fuel ls =
    let ls1 : LexState = record ls { lastline = ls.linenumber } in
    if is_eos ls.ahead
    then (llex lib fuel ls1 >>= λ (tok, ls2). done (record ls2 { t = tok }))
    else done (record ls1 { t = ls.ahead; ahead = tk_eos })

-- luaX_lookahead
unfoldable pub lex_lookahead : Clib → ℕ → LexState → Lexed LexState
lex_lookahead lib fuel ls = llex lib fuel ls >>= λ (tok, ls1). done (record ls1 { ahead = tok })
