-- ===== src/Lexer/Tokens/Quoted.antt =====
-- A string that the format %q has written, read again by the lexer.
use hack_livesuite.Common.{
  ℕ, zero, suc, ◌+◌, ◌-◌, ◌/◌, ◌≤◌, ◌<◌, ◌≡◌, ◌≢◌, refl, sym, ap, ◌∙◌, arith, Bool, true, false,
  ◌||◌, ◌==◌, if◌then◌else◌, List, [], ◌∷◌, ◌++◌, append-nil, append_assoc, length, length-append,
  take, drop, take_append_length,
}
use hack_livesuite.Patterns.Quote.{quoted_char, quoted_chars, addquoted}
use hack_livesuite.Limits.{max_int, max_sizet}
use hack_livesuite.Lexer.{
  Clib, tk_string, LexState, Lexed, done, thrown, unfinished_string, ◌>>=◌, save_and_next, reset,
}
use hack_livesuite.Lexer.Strings.{string_char, string_loop, read_string}
use hack_livesuite.Lexer.Steps.{remaining}
use hack_livesuite.Lexer.Exact.{current_of, save_and_next-done}
use hack_livesuite.Lexer.Tokens.{Token, lex_string, lex_char, llex_loop, llex}
use hack_livesuite.Lexer.Tokens.Rounds.{HasDigits, NoReturn, Rounds, Rounds-step}

-- No carriage return, and none behind a newline at the end.
abbrev pub IsClean : List ℕ → List ℕ → Type 0
IsClean [] cs = Unit {0}
IsClean (c ∷ s) cs = (c ≢ b'\r') × (c ≡ b'\n' → NoReturn (quoted_chars s ++ cs)) × IsClean s cs

-- The fuel for the rounds over `s` and `fuel` more.
abbrev rounds : List ℕ → ℕ → ℕ
rounds [] fuel = fuel
rounds (c ∷ s) fuel = suc (rounds s fuel)

rounds-split : (s : List ℕ) (fuel : ℕ) → length s < fuel → (k : ℕ) × (fuel ≡ rounds s (suc k))
rounds-split [] zero h = absurd (omega arith)
rounds-split [] (suc k) h = (k, refl)
rounds-split (c ∷ s) zero h = absurd (omega arith)
rounds-split (c ∷ s) (suc fuel) h = let (k, e) = rounds-split s fuel (omega arith) in (k, ap suc e)

module _ (lib : Clib) (digits : HasDigits lib) where
  -- The loop of read_string over what %q wrote of `s`, before `cs`.
  string_loop_quoted :
      (s : List ℕ) (fuel : ℕ) (ls : LexState) (cs : List ℕ)
      → IsClean s cs
      → length ls.buff + length s < max_sizet / 2
      → ls.linenumber + length s < max_int
      → remaining ls ≡ quoted_chars s ++ cs
      → (ls1 : LexState) × (string_loop lib b'"' (rounds s fuel) ls ≡ string_loop lib b'"' fuel ls1)
        × (ls1.buff ≡ ls.buff ++ s)
        × (remaining ls1 ≡ cs)
  unfolding quoted_chars Rounds
  string_loop_quoted [] fuel ls cs clean room small h = (ls, refl, sym (append-nil ls.buff), h)
  string_loop_quoted (c ∷ s) fuel ls cs (r, ne, clean) room small h =
      let (ls1, e, a) =
        Rounds-step lib digits (rounds s fuel) ls (omega arith) (omega arith) c
          (quoted_chars s ++ cs) r ne (h ∙ append_assoc (quoted_char c) (quoted_chars s) cs) in
      let longer : length ls1.buff ≡ length ls.buff + 1 =
        ap length a.buff ∙ length-append ls.buff (c ∷ []) in
      let (ls2, e2, buff, left) =
        string_loop_quoted s fuel ls1 cs clean (omega (arith, longer)) (omega (arith, a.line))
          a.left in
      (ls2, e ∙ e2, buff ∙ ap (λ b. b ++ s) a.buff ∙ append_assoc ls.buff (c ∷ []) s, left)

  -- The state in which the loop begins.
  quoted_start :
      (ls : LexState) (cs : List ℕ)
      → remaining ls ≡ b'"' ∷ cs
      → (ls1 : LexState) × (save_and_next (reset ls) ≡ done ls1)
        × (ls1.buff ≡ b'"' ∷ [])
        × (remaining ls1 ≡ cs)
        × (ls1.linenumber ≤ ls.linenumber + 1)
  unfolding reset remaining
  quoted_start ls cs h =
      let (ls1, e, a) = save_and_next-done (reset ls) h (omega arith) in
      (ls1, e, a.buff, a.left, a.line)

  -- llex on a quotation mark.
  llex_quote :
      (fuel : ℕ) (ls : LexState) (cs : List ℕ)
      → remaining ls ≡ b'"' ∷ cs
      → llex lib (suc fuel) ls
        ≡ (read_string lib b'"' (suc fuel) (reset ls) >>= λ r. done (tk_string r.0, r.1))
  unfolding llex llex_loop lex_char lex_string reset remaining
  llex_quote fuel ls cs h =
      ap (λ o. lex_char lib (suc fuel) (llex_loop lib (suc fuel) fuel) o (reset ls))
        (current_of ls h)

abbrev pub NoReturns : List ℕ → Type 0
NoReturns [] = Unit {0}
NoReturns (c ∷ s) = (c ≢ b'\r') × NoReturns s

NoReturn-quoted_chars : (s rest : List ℕ) → NoReturns s → NoReturn (quoted_chars s ++ b'"' ∷ rest)
unfolding quoted_chars quoted_char
NoReturn-quoted_chars [] rest h = λ e. absurd (omega arith)
NoReturn-quoted_chars (c ∷ s) rest (r, h) = first (c == b'"' || c == b'\\' || c == b'\n') (c == 0)
  where
    first :
        (x y : Bool)
        → NoReturn (
            ((if x then b'\\' ∷ c ∷ [] else (if y then b'\\' ∷ b'0' ∷ b'0' ∷ b'0' ∷ [] else c ∷ []))
              ++ quoted_chars s)
            ++ b'"' ∷ rest)
    first true y = λ e. absurd (omega arith)
    first false true = λ e. absurd (omega arith)
    first false false = r

IsClean-NoReturns : (s rest : List ℕ) → NoReturns s → IsClean s (b'"' ∷ rest)
IsClean-NoReturns [] rest h = tt
IsClean-NoReturns (c ∷ s) rest (r, h) =
    (r, λ e. NoReturn-quoted_chars s rest h, IsClean-NoReturns s rest h)

abbrev pub HasNoNewline : List ℕ → Type 0
HasNoNewline [] = Unit {0}
HasNoNewline (c ∷ s) = (c ≢ b'\r') × (c ≢ b'\n') × HasNoNewline s

IsClean-HasNoNewline : (s cs : List ℕ) → HasNoNewline s → IsClean s cs
IsClean-HasNoNewline [] cs h = tt
IsClean-HasNoNewline (c ∷ s) cs (r, n, h) = (r, λ e. absurd (n e), IsClean-HasNoNewline s cs h)

-- What follows `s` in the text, up to the carriage return.
rest_of :
    (s t rest : List ℕ)
    → (quoted_chars (s ++ b'\r' ∷ t) ++ b'"' ∷ []) ++ rest
      ≡ quoted_chars s ++ (b'\r' ∷ (quoted_chars t ++ b'"' ∷ rest))
unfolding quoted_chars quoted_char
rest_of [] t rest = ap (λ u. b'\r' ∷ u) (append_assoc (quoted_chars t) (b'"' ∷ []) rest)
rest_of (c ∷ s) t rest =
    ap (λ u. u ++ rest) (append_assoc (quoted_char c) (quoted_chars (s ++ b'\r' ∷ t)) (b'"' ∷ []))
    ∙ append_assoc (quoted_char c) (quoted_chars (s ++ b'\r' ∷ t) ++ b'"' ∷ []) rest
    ∙ ap (λ u. quoted_char c ++ u) (rest_of s t rest)
    ∙ sym (append_assoc (quoted_char c) (quoted_chars s) (b'\r' ∷ (quoted_chars t ++ b'"' ∷ rest)))

between_quotes : (s b : List ℕ) → b ≡ b'"' ∷ (s ++ b'"' ∷ []) → take (length b - 2) (drop 1 b) ≡ s
between_quotes s b h =
    let long : length (b'"' ∷ (s ++ b'"' ∷ [])) - 2 ≡ length s =
      omega (arith, length-append s (b'"' ∷ [])) in
    ap (λ t. take (length t - 2) (drop 1 t)) h
    ∙ ap (λ n. take n (s ++ b'"' ∷ [])) long
    ∙ take_append_length s (b'"' ∷ [])

-- A string without carriage returns that string.format has written by %q is read by llex as the
-- same string, and what follows it is left. The string is shorter than the largest buffer, the
-- count of lines stays in range, isdigit knows digits, and the fuel is more than the length.
pub llex-addquoted :
    (lib : Clib) (s rest : List ℕ) (fuel : ℕ) (ls : LexState)
    → HasDigits lib
    → NoReturns s
    → length s < fuel
    → length s + 2 < max_sizet / 2
    → ls.linenumber + length s + 1 < max_int
    → remaining ls ≡ addquoted s ++ rest
    → (ls' : LexState) × (llex lib fuel ls ≡ done (tk_string s, ls')) × (remaining ls' ≡ rest)
unfolding addquoted read_string string_loop string_char
llex-addquoted lib s rest zero ls digits clean f room small h = absurd (omega arith)
llex-addquoted lib s rest (suc fuel) ls digits clean f room small h =
    let opened = h ∙ ap (λ t. b'"' ∷ t) (append_assoc (quoted_chars s) (b'"' ∷ []) rest) in
    let (ls1, e1, b1, h1, n1) = quoted_start lib digits ls (quoted_chars s ++ b'"' ∷ rest) opened in
    let one : length ls1.buff ≡ 1 = ap length b1 in
    let (k, e2) = rounds-split s (suc fuel) f in
    let (ls2, e3, b2, h2) =
      string_loop_quoted lib digits s (suc k) ls1 (b'"' ∷ rest) (IsClean-NoReturns s rest clean)
        (omega (arith, one)) (omega (arith, n1)) h1 in
    let two : length ls2.buff ≡ length s + 1 =
      omega (arith, ap length b2, length-append ls1.buff s, one) in
    let (ls3, e4, a) = save_and_next-done ls2 h2 (omega (arith, two)) in
    let whole : ls3.buff ≡ b'"' ∷ (s ++ b'"' ∷ []) =
      a.buff ∙ ap (λ b. b ++ b'"' ∷ []) (b2 ∙ ap (λ b. b ++ s) b1) in
    let read : string_loop lib b'"' (suc fuel) ls1 ≡ done ls2 =
      ap (λ n. string_loop lib b'"' n ls1) e2
      ∙ e3
      ∙ ap (λ o. string_char lib (string_loop lib b'"' k) b'"' o ls2) (current_of ls2 h2) in
    (
      ls3,
      llex_quote lib digits fuel ls _ opened
          ∙ ap (λ m. m >>= (λ l1. string_loop lib b'"' (suc fuel) l1 >>= closing) >>= token) e1
          ∙ ap (λ m. m >>= closing >>= token) read
          ∙ ap (λ m. m >>= (λ l. done (text_of l)) >>= token) e4
          ∙ ap (λ t. done (tk_string t, ls3)) (between_quotes s ls3.buff whole),
      a.left,
    )
  where
    text_of : LexState → List ℕ × LexState
    text_of l = (take (length l.buff - 2) (drop 1 l.buff), l)

    closing : LexState → Lexed (List ℕ × LexState)
    closing l = save_and_next l >>= λ l3. done (text_of l3)

    token : List ℕ × LexState → Lexed (Token × LexState)
    token r = done (tk_string r.0, r.1)

-- Where the first carriage return or newline of the string is a carriage return, llex refuses what
-- %q has written as unfinished. The other conditions are those of a string that it reads.
pub llex-addquoted_return :
    (lib : Clib) (s t rest : List ℕ) (fuel : ℕ) (ls : LexState)
    → HasDigits lib
    → HasNoNewline s
    → length s < fuel
    → length s + 2 < max_sizet / 2
    → ls.linenumber + length s + 1 < max_int
    → remaining ls ≡ addquoted (s ++ b'\r' ∷ t) ++ rest
    → llex lib fuel ls ≡ thrown unfinished_string
unfolding addquoted read_string string_loop string_char
llex-addquoted_return lib s t rest zero ls digits clean f room small h = absurd (omega arith)
llex-addquoted_return lib s t rest (suc fuel) ls digits clean f room small h =
    let opened = h ∙ ap (λ u. b'"' ∷ u) (rest_of s t rest) in
    let (ls1, e1, b1, h1, n1) = quoted_start lib digits ls _ opened in
    let one : length ls1.buff ≡ 1 = ap length b1 in
    let (k, e2) = rounds-split s (suc fuel) f in
    let (ls2, e3, b2, h2) =
      string_loop_quoted lib digits s (suc k) ls1 _ (IsClean-HasNoNewline s _ clean)
        (omega (arith, one)) (omega (arith, n1)) h1 in
    let stopped : string_loop lib b'"' (suc fuel) ls1 ≡ thrown unfinished_string =
      ap (λ n. string_loop lib b'"' n ls1) e2
      ∙ e3
      ∙ ap (λ o. string_char lib (string_loop lib b'"' k) b'"' o ls2) (current_of ls2 h2) in
    llex_quote lib digits fuel ls _ opened
    ∙ ap (λ m. m >>= (λ l1. string_loop lib b'"' (suc fuel) l1 >>= closing) >>= token) e1
    ∙ ap (λ m. m >>= closing >>= token) stopped
  where
    closing : LexState → Lexed (List ℕ × LexState)
    closing l = save_and_next l >>= λ l3. done (take (length l3.buff - 2) (drop 1 l3.buff), l3)

    token : List ℕ × LexState → Lexed (Token × LexState)
    token r = done (tk_string r.0, r.1)
