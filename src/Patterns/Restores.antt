-- ===== src/Patterns/Restores.antt =====
-- A match ends, stays within the subject, and undoes its captures when it fails.
use hack_livesuite.Common.{
  ℕ, zero, suc, ◌+◌, ◌-◌, ◌≤◌, ◌<◌, ◌≡◌, ◌≢◌, refl, sym, ap, subst, ◌∙◌, arith, Bool, true, false,
  not, ◌&&◌, ◌||◌, ◌==◌, leb, ltb, if_true, if_false, inl, inr, if◌then◌else◌, Bool-cases, ltb→lt,
  leb→le, List, [], ◌∷◌, ◌++◌, length, get_or, get_elem?, take, Option, none, some,
  take_append_length, length-append,
}
use hack_livesuite.Patterns.{
  Ctype, Len, closed, unfinished, position, Capture, MatchState, PatternError, Outcome, done,
  thrown, out_of_fuel, ◌>>=◌,
}
use hack_livesuite.Patterns.Classes.{classend, set_end}
use hack_livesuite.Patterns.Match.{
  Result, is_unfinished, check_capture, usable, last_unfinished, or_first, set_len, drop_last,
  undo_start, undo_end, or_else, same, balance_loop, matchbalance, match_len, match_capture,
}

-- A match from `s` in a subject of `n` bytes has not run out of fuel. If it found a match, this
-- ends from `s` on and within the subject; if it found none, the captures are those it began with.
pub data Safe (n : ℕ) (ms : MatchState) (s : ℕ) : Result → Type 0 where
  matched : {e : ℕ} {ms' : MatchState} → s ≤ e → e ≤ n → Safe n ms s (done (some e, ms'))
  restored : {ms' : MatchState} → ms' ≡ ms → Safe n ms s (done (none, ms'))
  failed : {x : PatternError} → Safe n ms s (thrown x)

-- A position that a piece of the pattern leads to.
pub data Moves (n s : ℕ) : Option ℕ → Type 0 where
  moved : {e : ℕ} → s ≤ e → e ≤ n → Moves n s (some e)
  stuck : Moves n s none

pub data Within (n s : ℕ) : Outcome (Option ℕ) → Type 0 where
  moves : {o : Option ℕ} → Moves n s o → Within n s (done o)
  bad : {x : PatternError} → Within n s (thrown x)

pub data Past (p : ℕ) : Outcome ℕ → Type 0 where
  past : {ep : ℕ} → p < ep → Past p (done ep)
  malformed : {x : PatternError} → Past p (thrown x)

Past-if :
    {p : ℕ} {x y : Outcome ℕ} (b : Bool)
    → Past p x
    → (b ≡ false → Past p y)
    → Past p (if b then x else y)
Past-if true u v = u
Past-if false u v = v refl

pub get_or-ne : (xs : List ℕ) (p : ℕ) → (get_or xs p 0 == 0) ≡ false → p < length xs
get_or-ne [] p h = cc
get_or-ne (x ∷ xs) zero h = omega arith
get_or-ne (x ∷ xs) (suc p) h = omega (arith, get_or-ne xs p h)

Past-set_end :
    (pat : List ℕ) (fuel q p : ℕ)
    → 1 ≤ fuel
    → q < p
    → length pat < p + fuel
    → Past q (set_end pat fuel p)
unfolding set_end
Past-set_end pat zero q p one h hf = absurd (omega arith)
Past-set_end pat (suc fuel) q p one h hf =
    let skips = get_or pat p 0 == 37 && not (get_or pat (p + 1) 0 == 0) in
    let step : p + 1 ≤ (if skips then p + 2 else p + 1) = grown skips p in
    Past-if (get_or pat p 0 == 0) malformed (λ more.
      Past-if (get_or pat (if skips then p + 2 else p + 1) 0 == 93) (past (omega (arith, step)))
        (λ _.
          Past-set_end pat fuel q (if skips then p + 2 else p + 1)
            (omega (arith, get_or-ne pat p more)) (omega (arith, step)) (omega (arith, step))))
  where
    grown : (b : Bool) (p : ℕ) → p + 1 ≤ (if b then p + 2 else p + 1)
    grown true p = omega arith
    grown false p = omega arith

pub Past-classend : (pat : List ℕ) (p : ℕ) → Past p (classend pat p)
unfolding classend
Past-classend pat p =
    Past-if (get_or pat p 0 == 37)
      (Past-if (get_or pat (p + 1) 0 == 0) malformed (λ _. past (omega arith)))
      (λ _.
        Past-if (get_or pat p 0 == 91)
          (Past-set_end pat (length pat + 1) p _ (omega arith) (from (get_or pat (p + 1) 0 == 94))
            (omega (arith, from (get_or pat (p + 1) 0 == 94))))
          (λ _. past (omega arith)))
  where
    from : (b : Bool) → p < (if b then p + 2 else p + 1)
    from true = omega arith
    from false = omega arith

pub Safe-later :
    {n : ℕ} {ms : MatchState} {s t : ℕ} {r : Result} → s ≤ t → Safe n ms t r → Safe n ms s r
Safe-later h (matched a b) = matched (omega arith) b
Safe-later h (restored e) = restored e
Safe-later h failed = failed

pub Safe-or_else :
    {n : ℕ} {ms : MatchState} {s : ℕ} {r : Result} (k : MatchState → Result)
    → Safe n ms s r
    → Safe n ms s (k ms)
    → Safe n ms s (r >>= or_else k)
unfolding or_else
Safe-or_else k (matched a b) h = matched a b
Safe-or_else {n} {ms} {s} k (restored e) h = subst (λ m. Safe n ms s (k m)) (sym e) h
Safe-or_else k failed h = failed

pub Safe-if :
    {n : ℕ} {ms : MatchState} {s : ℕ} {x y : Result} (b : Bool)
    → (b ≡ true → Safe n ms s x)
    → Safe n ms s y
    → Safe n ms s (if b then x else y)
Safe-if true u v = u refl
Safe-if false u v = v

pub Safe-Past :
    {n : ℕ} {ms : MatchState} {s q : ℕ} {o : Outcome ℕ} (k : ℕ → Result)
    → Past q o
    → ((ep : ℕ) → q < ep → Safe n ms s (k ep))
    → Safe n ms s (o >>= k)
Safe-Past k (past {ep} h) f = f ep h
Safe-Past k malformed f = failed

pub Safe-Within :
    {n : ℕ} {ms : MatchState} {s : ℕ} {o : Outcome (Option ℕ)} (k : Option ℕ → Result)
    → Within n s o
    → ((o' : Option ℕ) → Moves n s o' → Safe n ms s (k o'))
    → Safe n ms s (o >>= k)
Safe-Within k (moves {o} m) f = f o m
Safe-Within k bad f = failed

drop_last-append : (ms : MatchState) (c : Capture) → drop_last (ms ++ c ∷ []) ≡ ms
unfolding drop_last
drop_last-append ms c =
    let shorter : length (ms ++ c ∷ []) - 1 ≡ length ms =
      omega (arith, length-append ms (c ∷ [])) in
    ap (λ k. take k (ms ++ c ∷ [])) shorter ∙ take_append_length ms (c ∷ [])

pub Safe-undo_start :
    {n : ℕ} {ms : MatchState} (c : Capture) {s : ℕ} {r : Result}
    → Safe n (ms ++ c ∷ []) s r
    → Safe n ms s (r >>= undo_start)
unfolding undo_start
Safe-undo_start c (matched a b) = matched a b
Safe-undo_start {ms} c (restored e) = restored (ap drop_last e ∙ drop_last-append ms c)
Safe-undo_start c failed = failed

pub Safe-undo_end :
    {n : ℕ} {ms ms1 : MatchState} {s : ℕ} {r : Result} (l : ℕ)
    → set_len l unfinished ms1 ≡ ms
    → Safe n ms1 s r
    → Safe n ms s (r >>= undo_end l)
unfolding undo_end
Safe-undo_end l h (matched a b) = matched a b
Safe-undo_end l h (restored e) = restored (ap (set_len l unfinished) e ∙ h)
Safe-undo_end l h failed = failed

unfinished_len : (len : Len) → is_unfinished len ≡ true → unfinished ≡ len
unfolding is_unfinished
unfinished_len unfinished h = refl
unfinished_len (closed n) h = cc
unfinished_len position h = cc

-- Closing the last unfinished capture is undone by marking it unfinished.
pub reopen :
    (ms : MatchState) (l : ℕ) (len : Len)
    → last_unfinished ms ≡ some l
    → set_len l unfinished (set_len l len ms) ≡ ms
unfolding last_unfinished or_first set_len
reopen [] l len h = cc
reopen (c ∷ ms) l len h = at_first (last_unfinished ms) (reopen ms) h
  where
    at_first :
        (o : Option ℕ)
        → ((k : ℕ) (len : Len) → o ≡ some k → set_len k unfinished (set_len k len ms) ≡ ms)
        → or_first c.len o ≡ some l
        → set_len l unfinished (set_len l len (c ∷ ms)) ≡ c ∷ ms
    at_first (some k) IH e =
        let there : suc k ≡ l = cc in
        subst (λ j. set_len j unfinished (set_len j len (c ∷ ms)) ≡ c ∷ ms) there
          (ap (λ t. c ∷ t) (IH k len refl))
    at_first none IH e = elim (Bool-cases (is_unfinished c.len)) [
      | inl u ↦
          let found : some 0 ≡ some l = if_true _ _ u ∙ e in
          let first : 0 ≡ l = cc in
          subst (λ j. set_len j unfinished (set_len j len (c ∷ ms)) ≡ c ∷ ms) first
            (ap (λ t. record c { len = t } ∷ ms) (unfinished_len c.len u))
      | inr u ↦ let lost : none ≡ some l = if_false _ _ u ∙ e in cc
    ]

Moves-if :
    {n s : ℕ} {x y : Option ℕ} (b : Bool)
    → (b ≡ true → Moves n s x)
    → Moves n s y
    → Moves n s (if b then x else y)
Moves-if true u v = u refl
Moves-if false u v = v

Moves-later : {n s t : ℕ} {o : Option ℕ} → s ≤ t → Moves n t o → Moves n s o
Moves-later h (moved a b) = moved (omega arith) b
Moves-later h stuck = stuck

pub first_true : (x y : Bool) → (x && y) ≡ true → x ≡ true
first_true true y h = refl
first_true false y h = h

check_capture-ne : (ms : MatchState) (l : ℕ) → check_capture ms l ≢ out_of_fuel
unfolding check_capture usable
check_capture-ne ms l = known (ltb l 49) (get_elem? ms (l - 49))
  where
    known :
        (b : Bool) (o : Option Capture)
        → (if b then thrown PatternError.invalid_capture_index else usable o) ≢ out_of_fuel
    known true o h = cc
    known false none h = cc
    known false (some c) h = unknown (is_unfinished c.len) h
      where
        unknown :
            (b : Bool)
            → (if b then thrown PatternError.invalid_capture_index else done c) ≢ out_of_fuel
        unknown true h = cc
        unknown false h = cc

module _ (lib : Ctype) (src pat : List ℕ) where
  Moves-balance_loop :
      (fuel s b e cont : ℕ) → Moves (length src) s (balance_loop lib src pat fuel s b e cont)
  unfolding balance_loop
  Moves-balance_loop zero s b e cont = stuck
  Moves-balance_loop (suc fuel) s b e cont =
      Moves-if (ltb (s + 1) (length src))
        (λ t.
          Moves-if _
            (λ _.
              moved {e = s + 1 + 1} (omega arith) (omega (arith, ltb→lt (s + 1) (length src) t)))
            (Moves-later {t = s + 1} (omega arith) (Moves-balance_loop fuel (s + 1) b e _)))
        stuck

  pub Within-matchbalance : (s p : ℕ) → Within (length src) s (matchbalance lib src pat s p)
  unfolding matchbalance
  Within-matchbalance s p =
      Within-balance (get_or pat p 0 == 0 || get_or pat (p + 1) 0 == 0)
        (get_or src s 0 == get_or pat p 0)
    where
      Within-balance :
          (x y : Bool)
          → Within (length src) s (
              if x
              then thrown PatternError.unbalanced
              else (if y
                  then done (
                      balance_loop lib src pat
                        (length src)
                        s
                        (get_or pat p 0)
                        (get_or pat (p + 1) 0)
                        1)
                  else done none))
      Within-balance true y = bad
      Within-balance false true = moves (Moves-balance_loop (length src) s _ _ 1)
      Within-balance false false = moves stuck

  Moves-match_len :
      (s init : ℕ) (len : Len)
      → s ≤ length src
      → Moves (length src) s (match_len lib src pat s (record { init = init; len = len }))
  unfolding match_len
  Moves-match_len s init (closed n) h =
      Moves-if (leb n (length src - s) && same src init s n)
        (λ t.
          let fits : n ≤ length src - s =
            leb→le n (length src - s) (first_true _ (same src init s n) t) in
          moved {e = s + n} (omega arith) (omega arith))
        stuck
  Moves-match_len s init unfinished h = stuck
  Moves-match_len s init position h = stuck

  pub Within-match_capture :
      (ms : MatchState) (s l : ℕ)
      → s ≤ length src
      → Within (length src) s (match_capture lib src pat ms s l)
  unfolding match_capture
  Within-match_capture ms s l h = Within-len (check_capture ms l) (check_capture-ne ms l)
    where
      Within-len :
          (o : Outcome Capture)
          → o ≢ out_of_fuel
          → Within (length src) s (o >>= λ c. done (match_len lib src pat s c))
      Within-len (done c) ne = moves (Moves-match_len s c.init c.len h)
      Within-len (thrown x) ne = bad
      Within-len out_of_fuel ne = absurd (ne refl)
