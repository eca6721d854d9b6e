-- ===== src/Lexer.antt =====
-- lua-5.1/llex.c and llex.h: the lexer. Its state, its errors, and the steps that read and save a
-- character. The source's table of anchored strings belongs to the collector and is left out: a
-- string is the list of its bytes.
pub mod Numerals
pub mod Strings
pub mod Steps
pub mod Exact
pub mod Loops
pub mod LongLoops
pub mod StringLoops
pub mod Tokens
mod Runs
use Prim.Native.Char.{code}
use Prim.Native.String.{String}
use hack_livesuite.Common.{
  ℕ, zero, suc, ◌+◌, ◌*◌, ◌-◌, ◌/◌, ◌^◌, Bool, true, false, not, ◌&&◌, ◌||◌, ◌==◌, leb,
  if◌then◌else◌, List, [], ◌∷◌, ◌++◌, length, Option, none, some,
}
use hack_livesuite.Limits.{max_int, max_sizet, min_buffer}
use hack_livesuite.Zio.{Zio, fill_from}

-- What the lexer uses of the C library: <ctype.h>, strtod and strtoul with the number of
-- characters that they read, the conversion of the latter's result to a lua_Number, and the
-- decimal point of localeconv. A lua_Number is its 64-bit pattern.
pub record Clib : Type 0 where
  pub isdigit : ℕ → Bool
  pub isalpha : ℕ → Bool
  pub isalnum : ℕ → Bool
  pub isspace : ℕ → Bool
  pub strtod : List ℕ → ℕ × ℕ
  pub strtoul16 : List ℕ → ℕ × ℕ
  pub cast_num : ℕ → ℕ
  pub decimal_point : ℕ

-- enum RESERVED, with the semantic information of the tokens that have one. `char c` is the token
-- for a single character.
pub data Token : Type 0 where
  tk_and tk_break tk_do tk_else tk_elseif tk_end tk_false tk_for tk_function : Token
  tk_if tk_in tk_local tk_nil tk_not tk_or tk_repeat tk_return tk_then tk_true tk_until : Token
  tk_while tk_concat tk_dots tk_eq tk_ge tk_le tk_ne tk_eos : Token
  tk_number : ℕ → Token
  tk_name : List ℕ → Token
  tk_string : List ℕ → Token
  char : ℕ → Token

-- The messages of luaX_lexerror and luaX_syntaxerror.
pub data LexError : Type 0 where
  element_too_long too_many_lines malformed_number unfinished_long unfinished_string : LexError
  unfinished_string_at_end nesting_deprecated escape_too_large invalid_delimiter : LexError

-- `current` is none for EOZ. `buff` and `buffsize` are the Mbuffer.
pub record LexState : Type 0 where
  pub current : Option ℕ
  pub z : Zio
  pub linenumber : ℕ
  pub lastline : ℕ
  pub t : Token
  pub ahead : Token
  pub buff : List ℕ
  pub buffsize : ℕ
  pub decpoint : ℕ

pub data Lexed (A : Type 0) : Type 0 where
  done : A → Lexed A
  thrown : LexError → Lexed A
  out_of_fuel : Lexed A

infixl 5 ◌>>=◌
abbrev pub ◌>>=◌ : {A B : Type 0} → Lexed A → (A → Lexed B) → Lexed B
done a >>= k = k a
thrown e >>= k = thrown e
out_of_fuel >>= k = out_of_fuel

-- zgetc
unfoldable pub getc_from : Zio → List ℕ → Option ℕ × Zio
getc_from z [] = fill_from z.blocks z.buffered
getc_from z (c ∷ cs) = (some c, record z { buffered = cs })

unfoldable pub getc : Zio → Option ℕ × Zio
unfolding getc_from fill_from
getc z = getc_from z z.buffered

-- next(ls)
unfoldable pub next : LexState → LexState
next ls = record ls { current = (getc ls.z).0; z = (getc ls.z).1 }

-- `ls->current == c`
abbrev pub is : ℕ → Option ℕ → Bool
is c none = false
is c (some d) = d == c

abbrev pub satisfies : (ℕ → Bool) → Option ℕ → Bool
satisfies test none = false
satisfies test (some d) = test d

-- currIsNewline
abbrev pub is_newline : Option ℕ → Bool
is_newline c = is b'\n' c || is b'\r' c

unfoldable pub save : ℕ → LexState → Lexed LexState
save c ls =
    if leb (length ls.buff + 1) ls.buffsize
    then done (record ls { buff = ls.buff ++ c ∷ [] })
    else (if leb (max_sizet / 2) ls.buffsize
        then thrown element_too_long
        else done (record ls { buff = ls.buff ++ c ∷ []; buffsize = ls.buffsize * 2 }))

-- The current character as it is saved: EOZ as a char is 255.
abbrev pub saved : Option ℕ → ℕ
saved none = 255
saved (some c) = c

unfoldable pub save_and_next : LexState → Lexed LexState
save_and_next ls = do ls' ← save (saved ls.current) ls; done (next ls')

-- luaZ_resetbuffer
unfoldable pub reset : LexState → LexState
reset ls = record ls { buff = [] }

-- The tests of the current character are made before and after `next` skips the first of the two.
abbrev pub second_newline : Option ℕ → Option ℕ → Bool
second_newline old none = false
second_newline old (some d) = (d == b'\n' || d == b'\r') && not (is d old)

unfoldable pub skip_newline : LexState → LexState
skip_newline ls = if second_newline ls.current (next ls).current then next (next ls) else next ls

unfoldable pub inclinenumber : LexState → Lexed LexState
inclinenumber ls =
    let ls' = skip_newline ls in
    if leb max_int (ls'.linenumber + 1)
    then thrown too_many_lines
    else done (record ls' { linenumber = ls'.linenumber + 1 })

-- strchr(set, c) for the characters of `set`: it finds the terminating zero too.
unfoldable pub strchr : List ℕ → ℕ → Bool
strchr [] c = c == 0
strchr (d ∷ set) c = d == c || strchr set c

unfoldable pub check_next : List ℕ → LexState → Lexed (Bool × LexState)
check_next set ls =
    if satisfies (strchr set) ls.current
    then (do ls' ← save_and_next ls; done (true, ls'))
    else done (false, ls)

-- The bytes of a text.
abbrev pub codes : String → List ℕ
codes String.[] = []
codes (String.◌∷◌ c s) = code c ∷ codes s

-- luaX_setinput
unfoldable pub setinput : Zio → LexState
setinput z = next (record {
  current = none;
  z = z;
  linenumber = 1;
  lastline = 1;
  t = tk_eos;
  ahead = tk_eos;
  buff = [];
  buffsize = min_buffer;
  decpoint = b'.';
})
