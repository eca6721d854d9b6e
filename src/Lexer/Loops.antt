-- ===== src/Lexer/Loops.antt =====
-- The loops of numerals end, and leave less of the input.
use hack_livesuite.Common.{
  ℕ, zero, suc, ◌≤◌, ◌<◌, ◌≡◌, refl, arith, Bool, true, ◌||◌, [], ◌∷◌, Option, none, some,
}
use hack_livesuite.Lexer.{Clib, LexState, Lexed, is, satisfies, reset}
use hack_livesuite.Lexer.Numerals.{
  save_while, or_error, trydecpoint, or_try, str2d, is_digit_or_dot, is_word, exponent,
  read_numeral, buffreplace,
}
use hack_livesuite.Lexer.Steps.{
  size, remaining, Ends, ended, failed, Ends-bind, Ends-if, Ends-map, Ends-save, Ends-save_and_next,
  Ends-check_next,
}

-- The piece ends, with at most `n` characters left.
abbrev pub Within : ℕ → Lexed LexState → Type 0
Within n = Ends (λ ls. size ls ≤ n)

pub Ends-save_while :
    (test : Option ℕ → Bool)
    → ((o : Option ℕ) → test o ≡ true → (c : ℕ) × (o ≡ some c))
    → (fuel : ℕ) (ls : LexState) → size ls < fuel
    → Within (size ls) (save_while test fuel ls)
unfolding save_while
Ends-save_while test some_char zero ls f = absurd (omega arith)
Ends-save_while test some_char (suc fuel) ls f =
    Ends-if (test ls.current)
      (λ t. Ends-bind _ (Ends-save_and_next ls (some_char ls.current t).1) (λ ls' h.
        Ends-map (Ends-save_while test some_char fuel ls' (omega arith)) (λ ls'' k. omega arith)))
      (λ _. ended (omega arith))

or_some :
    (test : ℕ → Bool) (d : ℕ) (o : Option ℕ)
    → (satisfies test o || is d o) ≡ true
    → (c : ℕ) × (o ≡ some c)
or_some test d none h = cc
or_some test d (some c) h = (c, refl)

size-buffreplace : (from to : ℕ) (ls : LexState) → size (buffreplace from to ls) ≡ size ls
unfolding buffreplace size remaining
size-buffreplace from to ls = refl

pub size-reset : (ls : LexState) → size (reset ls) ≡ size ls
unfolding reset size remaining
size-reset ls = refl

Ends-or_error :
    (o : Option ℕ) (ls : LexState) → Ends (λ (r, ls'). size ls' ≤ size ls) (or_error o ls)
unfolding or_error
Ends-or_error none ls = failed
Ends-or_error (some r) ls = ended (omega arith)

Ends-or_try :
    (lib : Clib) (o : Option ℕ) (ls : LexState)
    → Ends (λ (r, ls'). size ls' ≤ size ls) (or_try lib o ls)
unfolding or_try trydecpoint buffreplace size remaining
Ends-or_try lib (some r) ls = ended (omega arith)
Ends-or_try lib none ls = Ends-or_error (str2d lib _) _

Ends-exponent : (ls : LexState) → Within (size ls) (exponent ls)
unfolding exponent
Ends-exponent ls = Ends-bind _ (Ends-check_next (b'E' ∷ b'e' ∷ []) ls) (λ (e, ls1) h.
    Ends-bind _ (Ends-if e (λ _. Ends-check_next (b'+' ∷ b'-' ∷ []) ls1) (λ _. ended (omega arith)))
      (λ (e', ls2) k. ended (omega arith)))

pub Ends-read_numeral :
    (lib : Clib) (fuel : ℕ) (ls : LexState) {c : ℕ}
    → ls.current ≡ some c
    → size ls < fuel
    → Ends (λ (r, ls'). size ls' < size ls) (read_numeral lib fuel ls)
unfolding read_numeral
Ends-read_numeral lib fuel ls h f = Ends-bind _ (Ends-save_and_next ls h) (λ ls1 h1.
    Ends-bind _
      (Ends-save_while (is_digit_or_dot lib) (or_some lib.isdigit b'.') fuel ls1 (omega arith))
      (λ ls2 h2. Ends-bind _ (Ends-exponent ls2) (λ ls3 h3.
        Ends-bind _
          (Ends-save_while (is_word lib) (or_some lib.isalnum b'_') fuel ls3 (omega arith))
          (λ ls4 h4. Ends-bind _ (Ends-save 0 ls4) (λ ls5 (h5, e).
            Ends-map (Ends-or_try lib _ (buffreplace b'.' ls5.decpoint ls5))
              (λ r k. omega (arith, size-buffreplace b'.' ls5.decpoint ls5)))))))
