-- ===== src/Lexer/Strings.antt =====
-- Strings and comments: skip_sep, read_long_string and read_string.
use hack_livesuite.Common.{
  ℕ, zero, suc, ◌+◌, ◌-◌, ◌*◌, Bool, true, false, ◌||◌, ◌==◌, ltb, if◌then◌else◌, List, length,
  take, drop, Option, none, some,
}
use hack_livesuite.Lexer.{
  Clib, LexState, Lexed, done, thrown, out_of_fuel, ◌>>=◌, is, satisfies, is_newline, next, save,
  saved, save_and_next, inclinenumber, reset, unfinished_long, nesting_deprecated,
  unfinished_string, unfinished_string_at_end, escape_too_large,
}

-- The count of skip_sep: the `=` signs, if the bracket `s` follows them, or else minus their number
-- less one, which is `unclosed` of their number.
pub data Sep : Type 0 where
  closed : ℕ → Sep
  unclosed : ℕ → Sep

-- The loop over the `=` signs, on fuel.
unfoldable pub count_signs : ℕ → ℕ → LexState → Lexed (ℕ × LexState)
count_signs zero count ls = out_of_fuel
count_signs (suc fuel) count ls =
    let rest = save_and_next ls >>= count_signs fuel (count + 1) in
    if is b'=' ls.current then rest else done (count, ls)

abbrev pub same_char : Option ℕ → Option ℕ → Bool
same_char none none = true
same_char (some c) (some d) = c == d
same_char _ _ = false

unfoldable pub skip_sep : ℕ → LexState → Lexed (Sep × LexState)
skip_sep fuel ls = do
  ls1 ← save_and_next ls
  (count, ls2) ← count_signs fuel 0 ls1
  done (if same_char ls2.current ls.current then closed count else unclosed count, ls2)

abbrev pub is_sep : ℕ → Sep → Bool
is_sep n (closed count) = count == n
is_sep n (unclosed count) = false

-- `seminfo` tells a long string, of which the text is kept, from a long comment.
module _ (seminfo : Bool) (sep fuel : ℕ) (again : LexState → Lexed LexState) where
  -- A `[`: LUA_COMPAT_LSTR is 1.
  unfoldable pub long_open : LexState → Lexed LexState
  long_open ls = skip_sep fuel ls >>= λ (found, ls1).
      if is_sep sep found
      then (do ls2 ← save_and_next ls1; if sep == 0 then thrown nesting_deprecated else again ls2)
      else again ls1

  -- A `]`.
  unfoldable pub long_close : LexState → Lexed LexState
  long_close ls =
      skip_sep fuel ls >>= λ (found, ls1). if is_sep sep found then save_and_next ls1 else again ls1

  unfoldable pub long_newline : LexState → Lexed LexState
  long_newline ls = do
    ls1 ← save b'\n' ls
    ls2 ← inclinenumber ls1
    again (if seminfo then ls2 else reset ls2)

  unfoldable pub long_other : LexState → Lexed LexState
  long_other ls = if seminfo then save_and_next ls >>= again else again (next ls)

  -- The switch of the loop of read_long_string.
  unfoldable pub long_char : Option ℕ → LexState → Lexed LexState
  long_char none ls = thrown unfinished_long
  long_char (some c) ls =
      if c == b'['
      then long_open ls
      else (if c == b']'
          then long_close ls
          else (if c == b'\n' || c == b'\r' then long_newline ls else long_other ls))

-- The loop of read_long_string, on fuel. `inner` is the fuel of the loops in it.
unfoldable pub long_loop : Bool → ℕ → ℕ → ℕ → LexState → Lexed LexState
long_loop seminfo sep inner zero ls = out_of_fuel
long_loop seminfo sep inner (suc fuel) ls =
    long_char seminfo sep inner (long_loop seminfo sep inner fuel) ls.current ls

unfoldable pub skip_first_newline : LexState → Lexed LexState
skip_first_newline ls = if is_newline ls.current then inclinenumber ls else done ls

-- read_long_string: the bytes between the brackets.
unfoldable pub read_long_string : Bool → ℕ → ℕ → LexState → Lexed (List ℕ × LexState)
read_long_string seminfo sep fuel ls = do
  ls1 ← save_and_next ls
  ls2 ← skip_first_newline ls1
  ls3 ← long_loop seminfo sep fuel fuel ls2
  done (take (length ls3.buff - 2 * (2 + sep)) (drop (2 + sep) ls3.buff), ls3)

-- The letter of an escape sequence, and what it stands for.
unfoldable pub escaped : ℕ → Option ℕ
escaped c =
    if c == b'a'
    then some 7
    else (if c == b'b'
        then some 8
        else (if c == b'f'
            then some 12
            else (if c == b'n'
                then some 10
                else (if c == b'r'
                    then some 13
                    else (if c == b't' then some 9 else (if c == b'v' then some 11 else none))))))

-- `c = 10*c + (ls->current-'0'); next(ls);` for one digit, and the loop: at most `left` more digits.
unfoldable pub decimal : Clib → ℕ → ℕ → LexState → ℕ × LexState
decimal lib zero c ls = (c, ls)
decimal lib (suc left) c ls =
    if satisfies lib.isdigit ls.current
    then decimal lib left (10 * c + (saved ls.current - b'0')) (next ls)
    else (c, ls)

module _ (lib : Clib) (again : LexState → Lexed LexState) where
  unfoldable pub decimal_escape : ℕ × LexState → Lexed LexState
  decimal_escape (c, ls) = if ltb 255 c then thrown escape_too_large else save c ls >>= again

  unfoldable pub letter_escape : Option ℕ → ℕ → LexState → Lexed LexState
  letter_escape (some b) c ls = do ls' ← save b ls; again (next ls')
  letter_escape none c ls =
      if c == b'\n' || c == b'\r'
      then save b'\n' ls >>= inclinenumber >>= again
      else (if lib.isdigit c
          then decimal_escape (decimal lib 3 0 ls)
          else save_and_next ls >>= again)

  -- The character after a backslash.
  unfoldable pub escape : Option ℕ → LexState → Lexed LexState
  escape none ls = again ls
  escape (some c) ls = letter_escape (escaped c) c ls

  -- The body of the loop of read_string.
  unfoldable pub string_char : ℕ → Option ℕ → LexState → Lexed LexState
  string_char del none ls = thrown unfinished_string_at_end
  string_char del (some c) ls =
      if c == del
      then done ls
      else (if c == b'\n' || c == b'\r'
          then thrown unfinished_string
          else (if c == b'\\'
              then escape (next ls).current (next ls)
              else save_and_next ls >>= again))

-- The loop of read_string, on fuel.
unfoldable pub string_loop : Clib → ℕ → ℕ → LexState → Lexed LexState
string_loop lib del zero ls = out_of_fuel
string_loop lib del (suc fuel) ls = string_char lib (string_loop lib del fuel) del ls.current ls

-- read_string: the bytes between the delimiters.
unfoldable pub read_string : Clib → ℕ → ℕ → LexState → Lexed (List ℕ × LexState)
read_string lib del fuel ls = do
  ls1 ← save_and_next ls
  ls2 ← string_loop lib del fuel ls1
  ls3 ← save_and_next ls2
  done (take (length ls3.buff - 2) (drop 1 ls3.buff), ls3)
