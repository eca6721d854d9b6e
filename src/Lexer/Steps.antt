-- ===== src/Lexer/Steps.antt =====
-- What the steps of the lexer leave of the input, and that its loops end.
use hack_livesuite.Common.{
  ℕ, suc, ◌+◌, ◌/◌, ◌≤◌, ◌<◌, ◌≡◌, refl, sym, ap, ◌∙◌, arith, Bool, true, false, leb, if◌then◌else◌,
  List, [], ◌∷◌, length, Option, none, some,
}
use hack_livesuite.Zio.{fill_from}
use hack_livesuite.Zio.Stream.{stream, until_end}
use hack_livesuite.Limits.{max_int, max_sizet}
use hack_livesuite.Lexer.{
  LexState, LexError, Lexed, done, thrown, ◌>>=◌, getc, getc_from, satisfies, is_newline,
  second_newline, next, save, save_and_next, skip_newline, inclinenumber, strchr, check_next,
}

-- The characters that are not consumed yet, the current one first.
abbrev pub remaining_of : Option ℕ → List ℕ → List ℕ
remaining_of none s = []
remaining_of (some c) s = c ∷ s

unfoldable pub remaining : LexState → List ℕ
remaining ls = remaining_of ls.current (stream ls.z)

unfoldable pub size : LexState → ℕ
unfolding remaining
size ls = length (remaining ls)

getc-stream :
    (blocks : List (List ℕ)) (buffered : List ℕ)
    → remaining_of
        (getc (record { blocks = blocks; buffered = buffered })).0
        (stream (getc (record { blocks = blocks; buffered = buffered })).1)
      ≡ stream (record { blocks = blocks; buffered = buffered })
unfolding getc getc_from fill_from stream until_end
getc-stream blocks (c ∷ cs) = refl
getc-stream [] [] = refl
getc-stream ([] ∷ rest) [] = refl
getc-stream ((c ∷ cs) ∷ rest) [] = refl

pub remaining-next : (ls : LexState) → remaining (next ls) ≡ stream ls.z
unfolding remaining next
remaining-next ls = getc-stream ls.z.blocks ls.z.buffered

pub remaining_current :
    (ls : LexState) {c : ℕ} → ls.current ≡ some c → remaining ls ≡ c ∷ remaining (next ls)
unfolding remaining
remaining_current ls {c} h =
    ap (λ o. remaining_of o (stream ls.z)) h ∙ ap (λ s. c ∷ s) (sym (remaining-next ls))

pub size-next : (ls : LexState) {c : ℕ} → ls.current ≡ some c → size ls ≡ suc (size (next ls))
unfolding size
size-next ls h = ap length (remaining_current ls h)

-- The piece ends, and `P` holds of its result if it throws no error.
pub data Ends {A : Type 0} (P : A → Type 0) : Lexed A → Type 0 where
  ended : {a : A} → P a → Ends P (done a)
  failed : {e : LexError} → Ends P (thrown e)

pub Ends-bind :
    {A B : Type 0} {P : A → Type 0} {Q : B → Type 0} {m : Lexed A} (k : A → Lexed B)
    → Ends P m
    → ((a : A) → P a → Ends Q (k a))
    → Ends Q (m >>= k)
Ends-bind k (ended {a} p) h = h a p
Ends-bind k failed h = failed

pub Ends-if :
    {A : Type 0} {P : A → Type 0} {x y : Lexed A} (b : Bool)
    → (b ≡ true → Ends P x)
    → (b ≡ false → Ends P y)
    → Ends P (if b then x else y)
Ends-if true u v = u refl
Ends-if false u v = v refl

pub Ends-map :
    {A : Type 0} {P Q : A → Type 0} {m : Lexed A} → Ends P m → ((a : A) → P a → Q a) → Ends Q m
Ends-map (ended {a} p) h = ended (h a p)
Ends-map failed h = failed

-- A character that a test accepts is not EOZ.
pub satisfied : (test : ℕ → Bool) (o : Option ℕ) → satisfies test o ≡ true → (c : ℕ) × (o ≡ some c)
satisfied test none h = cc
satisfied test (some c) h = (c, refl)

pub newline_some : (o : Option ℕ) → is_newline o ≡ true → (c : ℕ) × (o ≡ some c)
newline_some none h = cc
newline_some (some c) h = (c, refl)

-- The state is as it was but for the buffer.
pub Ends-save :
    (c : ℕ) (ls : LexState)
    → Ends (λ ls'. (size ls' ≡ size ls) × (ls'.current ≡ ls.current)) (save c ls)
unfolding save size remaining
Ends-save c ls =
    Ends-if (leb (length ls.buff + 1) ls.buffsize) (λ _. ended (refl, refl))
      (λ _. Ends-if (leb (max_sizet / 2) ls.buffsize) (λ _. failed) (λ _. ended (refl, refl)))

pub Ends-save_and_next :
    (ls : LexState) {c : ℕ}
    → ls.current ≡ some c
    → Ends (λ ls'. size ls' < size ls) (save_and_next ls)
unfolding save_and_next
Ends-save_and_next ls h =
    Ends-bind _ (Ends-save _ ls) (λ ls' (s, e). ended (omega (arith, s, size-next ls' (e ∙ h))))

size-skip_newline : (ls : LexState) {c : ℕ} → ls.current ≡ some c → size (skip_newline ls) < size ls
unfolding skip_newline
size-skip_newline ls h = twice (next ls).current refl
  where
    twice :
        (o : Option ℕ)
        → (next ls).current ≡ o
        → size (if second_newline ls.current o then next (next ls) else next ls) < size ls
    twice none e = omega (arith, size-next ls h)
    twice (some d) e = ground (arith, size-next ls h, size-next (next ls) e)

pub Ends-inclinenumber :
    (ls : LexState) {c : ℕ}
    → ls.current ≡ some c
    → Ends (λ ls'. size ls' < size ls) (inclinenumber ls)
unfolding inclinenumber size remaining
Ends-inclinenumber ls h =
    Ends-if (leb max_int ((skip_newline ls).linenumber + 1)) (λ _. failed)
      (λ _. ended (size-skip_newline ls h))

pub Ends-check_next :
    (set : List ℕ) (ls : LexState) → Ends (λ (b, ls'). size ls' ≤ size ls) (check_next set ls)
unfolding check_next
Ends-check_next set ls =
    Ends-if (satisfies (strchr set) ls.current)
      (λ t.
        Ends-bind _ (Ends-save_and_next ls (satisfied (strchr set) ls.current t).1)
          (λ ls' h. ended (omega arith)))
      (λ _. ended (omega arith))
