-- ===== src/Patterns/Ends.antt =====
-- The body of match, over a match of the rest of the pattern that is safe.
use hack_livesuite.Common.{
  ℕ, zero, suc, ◌+◌, ◌-◌, ◌≤◌, ◌<◌, ◌≡◌, refl, sym, subst, arith, Bool, true, false, ◌&&◌, ◌==◌,
  leb, ltb, inl, inr, if◌then◌else◌, Bool-cases, ltb→lt, ==_iff, List, [], ◌∷◌, ◌++◌, length,
  get_or, Option, none, some,
}
use hack_livesuite.Patterns.{Ctype, Len, closed, unfinished, position, MatchState, done, ◌>>=◌}
use hack_livesuite.Patterns.Restores.{
  Safe, matched, restored, failed, Moves, moved, stuck, Past-classend, get_or-ne, Safe-later,
  Safe-or_else, Safe-if, Safe-undo_start, Safe-undo_end, reopen, Within-matchbalance,
  Within-match_capture, first_true, Safe-Past, Safe-Within,
}
use hack_livesuite.Patterns.Classes.{singlematch}
use hack_livesuite.Patterns.Match.{
  Result, last_unfinished, capture_to_close, set_len, init_of, undo_end, go_on, count_max, try_max,
  max_expand, min_expand, start_capture, end_capture, optional, repeated, match_item, frontier,
  escape, match_step, match, max_captures,
}

module _ (lib : Ctype) (src pat : List ℕ) (p : ℕ) (again : MatchState → ℕ → ℕ → Result)
    (safe : (ms : MatchState) (s p' : ℕ)
      → s ≤ length src
      → p < p'
      → Safe (length src) ms s (again ms s p')) where
  Safe-go_on :
      (ms : MatchState) (s p' : ℕ) (o : Option ℕ)
      → p < p'
      → Moves (length src) s o
      → Safe (length src) ms s (go_on lib src pat again ms p' o)
  unfolding go_on
  Safe-go_on ms s p' (some e) h (moved a b) = Safe-later a (safe ms e p' b h)
  Safe-go_on ms s p' none h stuck = restored refl

  count_max-le :
      (fuel s q ep : ℕ) → s ≤ length src → s + count_max lib src pat again fuel s q ep ≤ length src
  unfolding count_max
  count_max-le zero s q ep h = omega arith
  count_max-le (suc fuel) s q ep h =
      counted (ltb s (length src)) (singlematch lib pat (get_or src s 0) q ep)
        (ltb→lt s (length src)) (count_max-le fuel (s + 1) q ep)
    where
      counted :
          (x y : Bool)
          → (x ≡ true → s < length src)
          → (s + 1 ≤ length src
              → s + 1 + count_max lib src pat again fuel (s + 1) q ep ≤ length src)
          → s + (if x && y then count_max lib src pat again fuel (s + 1) q ep + 1 else 0)
            ≤ length src
      counted true true in_range IH = omega (arith, IH (omega (arith, in_range refl)))
      counted true false in_range IH = omega arith
      counted false y in_range IH = omega arith

  Safe-try_max :
      (i : ℕ) (ms : MatchState) (s ep : ℕ)
      → p < ep
      → s + i ≤ length src
      → Safe (length src) ms s (try_max lib src pat again i ms s ep)
  unfolding try_max
  Safe-try_max zero ms s ep h b = safe ms s (ep + 1) (omega arith) (omega arith)
  Safe-try_max (suc i) ms s ep h b =
      Safe-or_else _ (Safe-later (omega arith) (safe ms (s + suc i) (ep + 1) b (omega arith)))
        (Safe-try_max i ms s ep h (omega arith))

  Safe-max_expand :
      (ms : MatchState) (s q ep : ℕ)
      → p < ep
      → s ≤ length src
      → Safe (length src) ms s (max_expand lib src pat again ms s q ep)
  unfolding max_expand
  Safe-max_expand ms s q ep h b =
      Safe-try_max (count_max lib src pat again (length src) s q ep) ms s ep h
        (count_max-le (length src) s q ep b)

  Safe-min_expand :
      (fuel : ℕ) (ms : MatchState) (s q ep : ℕ)
      → p < ep
      → s ≤ length src
      → length src < s + fuel
      → Safe (length src) ms s (min_expand lib src pat again fuel ms s q ep)
  unfolding min_expand
  Safe-min_expand zero ms s q ep h b f = absurd (omega arith)
  Safe-min_expand (suc fuel) ms s q ep h b f = Safe-or_else _ (safe ms s (ep + 1) b (omega arith)) (
      Safe-if (ltb s (length src) && singlematch lib pat (get_or src s 0) q ep)
        (λ t.
          let room : s < length src = ltb→lt s (length src) (first_true _ _ t) in
          Safe-later (omega arith)
            (Safe-min_expand fuel ms (s + 1) q ep h (omega arith) (omega arith)))
        (restored refl))

  Safe-start_capture :
      (ms : MatchState) (s p' : ℕ) (what : Len)
      → p < p'
      → s ≤ length src
      → Safe (length src) ms s (start_capture lib src pat again ms s p' what)
  unfolding start_capture
  Safe-start_capture ms s p' what h b =
      Safe-if (leb max_captures (length ms)) (λ _. failed)
        (Safe-undo_start (record { init = s; len = what })
          (safe (ms ++ record { init = s; len = what } ∷ []) s p' b h))

  Safe-end_capture :
      (ms : MatchState) (s p' : ℕ)
      → p < p'
      → s ≤ length src
      → Safe (length src) ms s (end_capture lib src pat again ms s p')
  unfolding end_capture capture_to_close
  Safe-end_capture ms s p' h b = closes (last_unfinished ms) (reopen ms)
    where
      closes :
          (o : Option ℕ)
          → ((l : ℕ) (len : Len) → o ≡ some l → set_len l unfinished (set_len l len ms) ≡ ms)
          → Safe (length src) ms s (
              capture_to_close o >>= λ l.
              again (set_len l (closed (s - init_of ms l)) ms) s p' >>= undo_end l)
      closes none r = failed
      closes (some l) r = Safe-undo_end l (r l _ refl) (safe _ s p' b h)

  Safe-optional :
      (m : Bool) (ms : MatchState) (s ep : ℕ)
      → (m ≡ true → s < length src)
      → p < ep
      → s ≤ length src
      → Safe (length src) ms s (optional lib src pat again m ms s ep)
  unfolding optional
  Safe-optional m ms s ep inside h b =
      Safe-if m
        (λ t.
          Safe-or_else _
            (Safe-later (omega arith)
              (safe ms (s + 1) (ep + 1) (omega (arith, inside t)) (omega arith)))
            (safe ms s (ep + 1) b (omega arith)))
        (safe ms s (ep + 1) b (omega arith))

  Safe-repeated :
      (m : Bool) (ms : MatchState) (s q ep : ℕ)
      → (m ≡ true → s < length src)
      → p < ep
      → s ≤ length src
      → Safe (length src) ms s (repeated lib src pat again m ms s q ep)
  unfolding repeated
  Safe-repeated m ms s q ep inside h b =
      Safe-if (get_or pat ep 0 == 63) (λ _. Safe-optional m ms s ep inside h b)
        (Safe-if (get_or pat ep 0 == 42) (λ _. Safe-max_expand ms s q ep h b)
          (Safe-if (get_or pat ep 0 == 43)
            (λ _.
              Safe-if m
                (λ t.
                  Safe-later (omega arith)
                    (Safe-max_expand ms (s + 1) q ep h (omega (arith, inside t))))
                (restored refl))
            (Safe-if (get_or pat ep 0 == 45)
              (λ _. Safe-min_expand (length src + 1) ms s q ep h b (omega arith))
              (Safe-if m
                (λ t. Safe-later (omega arith) (safe ms (s + 1) ep (omega (arith, inside t)) h))
                (restored refl)))))

  Safe-match_item :
      (ms : MatchState) (s : ℕ)
      → s ≤ length src
      → Safe (length src) ms s (match_item lib src pat again ms s p)
  unfolding match_item
  Safe-match_item ms s b =
      Safe-Past _ (Past-classend pat p)
        (λ ep h. Safe-repeated _ ms s p ep (λ t. ltb→lt s (length src) (first_true _ _ t)) h b)

  Safe-frontier :
      (ms : MatchState) (s : ℕ)
      → s ≤ length src
      → Safe (length src) ms s (frontier lib src pat again ms s (p + 2))
  unfolding frontier
  Safe-frontier ms s b =
      Safe-if (get_or pat (p + 2) 0 == 91)
        (λ _.
          Safe-Past _ (Past-classend pat (p + 2))
            (λ ep h. Safe-if _ (λ _. restored refl) (safe ms s ep b (omega arith))))
        failed

  Safe-escape :
      (ms : MatchState) (s : ℕ)
      → s ≤ length src
      → Safe (length src) ms s (escape lib src pat again ms s p)
  unfolding escape
  Safe-escape ms s b =
      Safe-if (get_or pat (p + 1) 0 == 98)
        (λ _.
          Safe-Within _ (Within-matchbalance lib src pat s (p + 2))
            (λ o m. Safe-go_on ms s (p + 4) o (omega arith) m))
        (Safe-if (get_or pat (p + 1) 0 == 102) (λ _. Safe-frontier ms s b)
          (Safe-if (lib.isdigit (get_or pat (p + 1) 0))
            (λ _.
              Safe-Within _ (Within-match_capture lib src pat ms s (get_or pat (p + 1) 0) b)
                (λ o m. Safe-go_on ms s (p + 2) o (omega arith) m))
            (Safe-match_item ms s b)))

  at_end :
      (c : Bool) (ms : MatchState) (s : ℕ)
      → s ≤ length src
      → Safe (length src) ms s (done (if c then some s else none, ms))
  at_end true ms s b = matched (omega arith) b
  at_end false ms s b = restored refl

  Safe-match_step :
      (ms : MatchState) (s : ℕ)
      → s ≤ length src
      → Safe (length src) ms s (match_step lib src pat again ms s p)
  unfolding match_step
  Safe-match_step ms s b =
      Safe-if (get_or pat p 0 == 40)
        (λ _.
          Safe-if (get_or pat (p + 1) 0 == 41)
            (λ _. Safe-start_capture ms s (p + 2) position (omega arith) b)
            (Safe-start_capture ms s (p + 1) unfinished (omega arith) b))
        (Safe-if (get_or pat p 0 == 41) (λ _. Safe-end_capture ms s (p + 1) (omega arith) b)
          (Safe-if (get_or pat p 0 == 37) (λ _. Safe-escape ms s b)
            (Safe-if (get_or pat p 0 == 0) (λ _. matched (omega arith) b)
              (Safe-if (get_or pat p 0 == 36 && get_or pat (p + 1) 0 == 0)
                (λ _. at_end (s == length src) ms s b) (Safe-match_item ms s b)))))

module _ (lib : Ctype) (src pat : List ℕ) where
  match_step_end :
      (again : MatchState → ℕ → ℕ → Result) (ms : MatchState) (s p : ℕ)
      → get_or pat p 0 ≡ 0
      → match_step lib src pat again ms s p ≡ done (some s, ms)
  unfolding match_step
  match_step_end again ms s p h = rw h

  Safe-match_rec :
      (fuel : ℕ) (ms : MatchState) (s p : ℕ)
      → 1 ≤ fuel
      → length pat < p + fuel
      → s ≤ length src
      → Safe (length src) ms s (match lib src pat fuel ms s p)
  unfolding match
  Safe-match_rec zero ms s p one f b = absurd (omega arith)
  Safe-match_rec (suc fuel) ms s p one f b = elim (Bool-cases (get_or pat p 0 == 0)) [
    | inl z ↦
        subst (Safe (length src) ms s)
          (sym (match_step_end (match lib src pat fuel) ms s p ((==_iff (get_or pat p 0) 0).0 z)))
          (matched (omega arith) b)
    | inr more ↦
        let room : p < length pat = get_or-ne pat p more in
        Safe-match_step lib src pat p (match lib src pat fuel)
          (λ ms' s' p' b' h. Safe-match_rec fuel ms' s' p' (omega arith) (omega arith) b') ms s b
  ]

-- A match of the whole pattern, from a position in the subject and with any captures, ends if its
-- fuel is more than the length of the pattern. If it finds a match, this ends between that
-- position and the end of the subject; if it finds none, the captures are those it began with.
pub match-Safe :
    (lib : Ctype) (src pat : List ℕ) (fuel : ℕ) (ms : MatchState) (s : ℕ)
    → length pat < fuel
    → s ≤ length src
    → Safe (length src) ms s (match lib src pat fuel ms s 0)
match-Safe lib src pat fuel ms s f b =
    Safe-match_rec lib src pat fuel ms s 0 (omega arith) (omega arith) b
