-- ===== src/Lexer/Numerals.antt =====
-- Numerals: read_numeral, buffreplace and trydecpoint of llex.c, and luaO_str2d of lobject.c.
use hack_livesuite.Common.{
  ℕ, zero, suc, Bool, false, ◌||◌, ◌==◌, if◌then◌else◌, List, [], ◌∷◌, map, drop, Option, none,
  some,
}
use hack_livesuite.Lexer.{
  Clib, LexState, Lexed, done, thrown, out_of_fuel, malformed_number, ◌>>=◌, is, satisfies, save,
  save_and_next, check_next,
}

-- `while (test(ls->current)) save_and_next(ls);` on fuel
unfoldable pub save_while : (Option ℕ → Bool) → ℕ → LexState → Lexed LexState
save_while test zero ls = out_of_fuel
save_while test (suc fuel) ls =
    let rest = save_and_next ls >>= save_while test fuel in
    if test ls.current then rest else done ls

-- The characters before the terminating zero.
unfoldable pub c_string : List ℕ → List ℕ
c_string [] = []
c_string (c ∷ s) = if c == 0 then [] else c ∷ c_string s

unfoldable pub skip_spaces : (ℕ → Bool) → List ℕ → List ℕ
skip_spaces isspace [] = []
skip_spaces isspace (c ∷ s) = if isspace c then skip_spaces isspace s else c ∷ s

-- What luaO_str2d makes of the number and the rest of the text behind it.
unfoldable pub ends : (ℕ → Bool) → ℕ → List ℕ → Option ℕ
ends isspace r [] = some r
ends isspace r (c ∷ s) = nothing_left (skip_spaces isspace (c ∷ s))
  where
    nothing_left : List ℕ → Option ℕ
    nothing_left [] = some r
    nothing_left (c ∷ s) = none

abbrev pub is_hex : List ℕ → Bool
is_hex [] = false
is_hex (c ∷ s) = c == b'x' || c == b'X'

-- luaO_str2d
unfoldable pub str2d : Clib → List ℕ → Option ℕ
str2d lib text =
    let s = c_string text in
    let r = lib.strtod s in
    let h = lib.strtoul16 s in
    if r.1 == 0
    then none
    else (if is_hex (drop r.1 s)
        then ends lib.isspace (lib.cast_num h.0) (drop h.1 s)
        else ends lib.isspace r.0 (drop r.1 s))

-- buffreplace
unfoldable pub buffreplace : ℕ → ℕ → LexState → LexState
buffreplace from to ls = record ls { buff = map (λ c. if c == from then to else c) ls.buff }

unfoldable pub or_error : Option ℕ → LexState → Lexed (ℕ × LexState)
or_error none ls = thrown malformed_number
or_error (some r) ls = done (r, ls)

-- trydecpoint
unfoldable pub trydecpoint : Clib → LexState → Lexed (ℕ × LexState)
trydecpoint lib ls =
    let ls' =
      buffreplace ls.decpoint lib.decimal_point (record ls { decpoint = lib.decimal_point }) in
    or_error (str2d lib ls'.buff) ls'

unfoldable pub or_try : Clib → Option ℕ → LexState → Lexed (ℕ × LexState)
or_try lib none ls = trydecpoint lib ls
or_try lib (some r) ls = done (r, ls)

abbrev pub is_digit_or_dot : Clib → Option ℕ → Bool
is_digit_or_dot lib c = satisfies lib.isdigit c || is b'.' c

abbrev pub is_word : Clib → Option ℕ → Bool
is_word lib c = satisfies lib.isalnum c || is b'_' c

-- The optional exponent.
unfoldable pub exponent : LexState → Lexed LexState
exponent ls = do
  (e, ls1) ← check_next (b'E' ∷ b'e' ∷ []) ls
  (if e then check_next (b'+' ∷ b'-' ∷ []) ls1 else done (e, ls1)) >>= λ (_, ls2). done ls2

-- read_numeral
unfoldable pub read_numeral : Clib → ℕ → LexState → Lexed (ℕ × LexState)
read_numeral lib fuel ls = do
  ls1 ← save_and_next ls
  ls2 ← save_while (is_digit_or_dot lib) fuel ls1
  ls3 ← exponent ls2
  ls4 ← save_while (is_word lib) fuel ls3
  ls5 ← save 0 ls4
  let ls6 = buffreplace b'.' ls5.decpoint ls5
  or_try lib (str2d lib ls6.buff) ls6
