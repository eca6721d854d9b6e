-- ===== src/Lexer/Runs.antt =====
-- Concrete runs of the lexer, with the "C" locale.
use hack_livesuite.Common.{
  ℕ, zero, suc, ◌+◌, ◌*◌, ◌-◌, drop, arith, ◌≡◌, refl, Bool, ◌&&◌, ◌||◌, ◌==◌, leb, if◌then◌else◌,
  List, [], ◌∷◌, ◌++◌, some,
}
use hack_livesuite.Zio
use hack_livesuite.Zio.{Zio, fill_from}
use hack_livesuite.Lexer.{
  Clib, Token, tk_return, tk_concat, tk_dots, tk_eq, tk_eos, tk_number, tk_name, tk_string, char,
  LexState, Lexed, done, thrown, min_buffer, out_of_fuel, unfinished_string, codes, getc, next,
  save, save_and_next, reset, skip_newline, inclinenumber, strchr, check_next, setinput,
}
use hack_livesuite.Lexer.Numerals.{
  save_while, c_string, skip_spaces, ends, str2d, buffreplace, or_try, exponent, read_numeral,
}
use hack_livesuite.Lexer.Strings.{
  count_signs, skip_sep, long_open, long_close, long_newline, long_other, long_char, long_loop,
  skip_first_newline, read_long_string, escaped, decimal, decimal_escape, letter_escape, escape,
  string_char, string_loop, read_string,
}
use hack_livesuite.Lexer.Tokens.{
  word_token, operator, skip_line, comment_of, comment, lex_minus, bracket_of, lex_number,
  third_dot, second_dot, lex_dot, lex_string, lex_word, lex_default, lex_char, llex_loop, llex,
}
use hack_livesuite.Proto.{same_bytes}
use hack_livesuite.Patterns.Quote.{addquoted, quoted_chars, quoted_char}
use hack_livesuite.Zio.Stream.{stream, until_end}
use hack_livesuite.Lexer.Steps.{remaining, size, Ends}
use hack_livesuite.Lexer.Tokens.Rounds.{HasDigits}
use hack_livesuite.Lexer.Tokens.Ends.{Consumes, llex-Consumes}
use hack_livesuite.Lexer.Tokens.Quoted.{llex-addquoted, llex-addquoted_return}

abbrev between : ℕ → ℕ → ℕ → Bool
between a b c = leb a c && leb c b

-- strtod on digits: the number as a natural number, in place of its pattern.
abbrev digits_value : List ℕ → ℕ → ℕ × ℕ
digits_value [] r = (r, 0)
digits_value (c ∷ s) r =
    let rest = digits_value s (10 * r + (c - 48)) in
    if between 48 57 c then (rest.0, rest.1 + 1) else (r, 0)

abbrev c_locale : Clib
c_locale = record {
  isdigit = between 48 57;
  isalpha = λ c. between 65 90 c || between 97 122 c;
  isalnum = λ c. between 48 57 c || between 65 90 c || between 97 122 c;
  isspace = λ c. between 9 13 c || c == 32;
  strtod = λ s. digits_value s 0;
  strtoul16 = λ s. (0, 0);
  cast_num = λ n. n;
  decimal_point = 46;
}

-- The tokens of a text, up to the end or an error.
collect : (LexState → List Token) → Lexed (Token × LexState) → List Token
collect rest (done (tk_eos, ls)) = tk_eos ∷ []
collect rest (done (tok, ls)) = tok ∷ rest ls
collect rest (thrown e) = []
collect rest out_of_fuel = []

tokens_of : ℕ → LexState → List Token
tokens_of zero ls = []
tokens_of (suc n) ls = collect (tokens_of n) (llex c_locale 100 ls)

abbrev text : List ℕ → LexState
text s = setinput (Zio.init (s ∷ []))

tokens_test :
    tokens_of 9 (text (codes "return x1==[[a]] .. 12--[==[c]]]==]..." ++ 10 ∷ codes "<--z"))
    ≡ tk_return
      ∷ tk_name (codes "x1")
      ∷ tk_eq
      ∷ tk_string (codes "a")
      ∷ tk_concat
      ∷ tk_number 12
      ∷ tk_dots
      ∷ char b'<'
      ∷ tk_eos
      ∷ []
unfolding tokens_of collect Zio.init fill_from getc next save save_and_next reset skip_newline
    inclinenumber strchr check_next setinput save_while c_string skip_spaces ends str2d buffreplace
    or_try exponent read_numeral count_signs skip_sep long_open long_close long_newline long_other
    long_char long_loop skip_first_newline read_long_string word_token operator skip_line comment_of
    comment lex_minus bracket_of lex_number third_dot second_dot lex_dot lex_string lex_word
    lex_default lex_char llex_loop llex same_bytes
tokens_test = refl

-- 'a\65\n\"'
string_test :
    tokens_of 2 (text (codes "'a\\65\\n\\\"'")) ≡ tk_string (97 ∷ 65 ∷ 10 ∷ 34 ∷ []) ∷ tk_eos ∷ []
unfolding tokens_of collect Zio.init fill_from getc next save save_and_next reset skip_newline
    inclinenumber setinput escaped decimal decimal_escape letter_escape escape string_char
    string_loop read_string lex_string lex_char llex_loop llex
string_test = refl

-- A zero byte behind a dot is taken for a second dot.
zero_byte_test : tokens_of 2 (text (b'.' ∷ 0 ∷ [])) ≡ tk_concat ∷ tk_eos ∷ []
unfolding tokens_of collect Zio.init fill_from getc next save save_and_next reset setinput strchr
    check_next third_dot second_dot lex_dot lex_char llex_loop llex
zero_byte_test = refl

c_digits : HasDigits c_locale
c_digits = record { digit_zero = refl; digit_quote = refl; digit_backslash = refl }

-- a, a newline, a zero byte, and a quotation mark
abbrev sample : List ℕ
sample = b'a' ∷ 10 ∷ 0 ∷ b'"' ∷ []

abbrev quoted_state : List ℕ → LexState
quoted_state s = record {
  current = some b'"';
  z = record { blocks = []; buffered = drop 1 (addquoted s) ++ b')' ∷ [] };
  linenumber = 1;
  lastline = 1;
  t = tk_eos;
  ahead = tk_eos;
  buff = [];
  buffsize = min_buffer;
  decpoint = b'.';
}

llex-addquoted_example :
    (ls' : LexState) × (llex c_locale 9 (quoted_state sample) ≡ done (tk_string sample, ls'))
    × (remaining ls' ≡ b')' ∷ [])
unfolding remaining stream until_end addquoted quoted_chars quoted_char
llex-addquoted_example =
    llex-addquoted c_locale sample (b')' ∷ []) 9 (quoted_state sample) c_digits (omega arith)
      (omega arith) (omega arith) (omega arith) refl

llex-addquoted_return_example :
    llex c_locale 9 (quoted_state (b'a' ∷ 13 ∷ b'b' ∷ [])) ≡ thrown unfinished_string
unfolding remaining stream until_end addquoted quoted_chars quoted_char
llex-addquoted_return_example =
    llex-addquoted_return c_locale (b'a' ∷ []) (b'b' ∷ []) (b')' ∷ []) 9
      (quoted_state (b'a' ∷ 13 ∷ b'b' ∷ [])) c_digits (omega arith) (omega arith) (omega arith)
      (omega arith) refl

llex-Consumes_example :
    Ends (Consumes (size (quoted_state sample))) (llex c_locale 20 (quoted_state sample))
llex-Consumes_example =
    llex-Consumes c_locale 20 (quoted_state sample)
      (unfold size remaining stream until_end addquoted quoted_chars quoted_char in omega arith)

-- A carriage return behind a newline is lost.
lost_return_test : tokens_of 2 (quoted_state (10 ∷ 13 ∷ [])) ≡ tk_string (10 ∷ []) ∷ char b')' ∷ []
unfolding tokens_of collect fill_from getc next save save_and_next reset skip_newline inclinenumber
    escaped letter_escape escape string_char string_loop read_string lex_default addquoted
    quoted_chars quoted_char lex_string lex_char llex_loop llex
lost_return_test = refl
