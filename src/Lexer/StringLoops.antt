-- ===== src/Lexer/StringLoops.antt =====
-- The loop of read_string ends, and leaves less of the input.
use hack_livesuite.Common.{
  ℕ, zero, suc, ◌+◌, ◌-◌, ◌*◌, ◌≤◌, ◌<◌, ◌≡◌, refl, ◌∙◌, arith, Bool, true, false, ◌||◌, ◌==◌, ltb,
  if◌then◌else◌, Option, none, some,
}
use hack_livesuite.Lexer.{Clib, LexState, Lexed, satisfies, saved, next}
use hack_livesuite.Lexer.Strings.{
  escaped, decimal, decimal_escape, letter_escape, escape, string_char, string_loop, read_string,
}
use hack_livesuite.Lexer.Steps.{
  size, size-next, Ends, ended, failed, Ends-bind, Ends-if, Ends-map, satisfied, Ends-save,
  Ends-save_and_next, Ends-inclinenumber,
}

size-decimal : (lib : Clib) (left c : ℕ) (ls : LexState) → size (decimal lib left c ls).1 ≤ size ls
unfolding decimal
size-decimal lib zero c ls = omega arith
size-decimal lib (suc left) c ls =
    more (satisfies lib.isdigit ls.current) (satisfied lib.isdigit ls.current)
      (size-decimal lib left (10 * c + (saved ls.current - b'0')) (next ls))
  where
    more :
        (b : Bool)
        → (b ≡ true → (d : ℕ) × (ls.current ≡ some d))
        → size (decimal lib left (10 * c + (saved ls.current - b'0')) (next ls)).1 ≤ size (next ls)
        → size
            (if b
              then decimal lib left (10 * c + (saved ls.current - b'0')) (next ls)
              else (c, ls)).1
          ≤ size ls
    more true d k = omega (arith, size-next ls (d refl).1)
    more false d k = omega arith

-- A string ends at its delimiter.
abbrev AtEnd : ℕ → LexState → Type 0
AtEnd n ls = (size ls ≤ n) × ((c : ℕ) × (ls.current ≡ some c))

module _ (lib : Clib) (m n : ℕ) (again : LexState → Lexed LexState)
    (ends : (ls : LexState) → size ls < m → size ls ≤ n → Ends (AtEnd n) (again ls)) where
  Ends-letter_escape :
      (o : Option ℕ) (ls : LexState) {c : ℕ}
      → ls.current ≡ some c
      → size ls < m
      → size ls ≤ n
      → Ends (AtEnd n) (letter_escape lib again o c ls)
  unfolding letter_escape decimal_escape
  Ends-letter_escape (some b) ls h hm hn = Ends-bind _ (Ends-save b ls) (λ ls' (s, e).
      ends (next ls') (omega (arith, size-next ls' (e ∙ h))) (omega (arith, size-next ls' (e ∙ h))))
  Ends-letter_escape none ls {c} h hm hn =
      Ends-if (c == b'\n' || c == b'\r')
        (λ _.
          Ends-bind _
            (Ends-bind _ (Ends-save b'\n' ls)
              (λ ls1 (s, e). Ends-map (Ends-inclinenumber ls1 (e ∙ h)) (λ ls2 k. le_via s k)))
            (λ ls2 k. ends ls2 (omega arith) (omega arith)))
        (λ _.
          Ends-if (lib.isdigit c) (λ _. digits (decimal lib 3 0 ls) (size-decimal lib 3 0 ls))
            (λ _.
              Ends-bind _ (Ends-save_and_next ls h)
                (λ ls1 k. ends ls1 (omega arith) (omega arith))))
    where
      le_via : {a b d : ℕ} → b ≡ d → a < b → a ≤ d
      le_via p q = omega arith

      digits : (r : ℕ × LexState) → size r.1 ≤ size ls → Ends (AtEnd n) (decimal_escape lib again r)
      digits (k, ls1) le =
          Ends-if (ltb 255 k) (λ _. failed)
            (λ _.
              Ends-bind _ (Ends-save k ls1) (λ ls2 (s, e). ends ls2 (omega arith) (omega arith)))

  Ends-string_char :
      (del : ℕ) (ls : LexState) (o : Option ℕ)
      → ls.current ≡ o
      → size ls ≤ m
      → size ls ≤ n
      → Ends (AtEnd n) (string_char lib again del o ls)
  unfolding string_char escape
  Ends-string_char del ls none h hm hn = failed
  Ends-string_char del ls (some c) h hm hn =
      Ends-if (c == del) (λ _. ended (hn, (c, h)))
        (λ _.
          Ends-if (c == b'\n' || c == b'\r') (λ _. failed)
            (λ _.
              Ends-if (c == b'\\') (λ _. after_backslash (next ls).current refl)
                (λ _.
                  Ends-bind _ (Ends-save_and_next ls h)
                    (λ ls1 k. ends ls1 (omega arith) (omega arith)))))
    where
      after_backslash :
          (p : Option ℕ) → (next ls).current ≡ p → Ends (AtEnd n) (escape lib again p (next ls))
      after_backslash none e =
          ends (next ls) (omega (arith, size-next ls h)) (omega (arith, size-next ls h))
      after_backslash (some d) e =
          Ends-letter_escape (escaped d) (next ls) e (omega (arith, size-next ls h))
            (omega (arith, size-next ls h))

Ends-string_loop :
    (lib : Clib) (del n fuel : ℕ) (ls : LexState)
    → size ls < fuel
    → size ls ≤ n
    → Ends (AtEnd n) (string_loop lib del fuel ls)
unfolding string_loop
Ends-string_loop lib del n zero ls f hn = absurd (omega arith)
Ends-string_loop lib del n (suc fuel) ls f hn =
    Ends-string_char lib fuel n (string_loop lib del fuel)
      (λ ls' hm hn'. Ends-string_loop lib del n fuel ls' hm hn') del ls ls.current refl
      (omega arith) hn

pub Ends-read_string :
    (lib : Clib) (del fuel : ℕ) (ls : LexState) {c : ℕ}
    → ls.current ≡ some c
    → size ls < fuel
    → Ends (λ (s, ls'). size ls' < size ls) (read_string lib del fuel ls)
unfolding read_string
Ends-read_string lib del fuel ls h f = Ends-bind _ (Ends-save_and_next ls h) (λ ls1 h1.
    Ends-bind _ (Ends-string_loop lib del (size ls1) fuel ls1 (omega arith) (omega arith))
      (λ ls2 (h2, d). Ends-bind _ (Ends-save_and_next ls2 d.1) (λ ls3 h3. ended (omega arith))))
