-- ===== src/Patterns/Match.antt =====
-- match and the functions that it calls, which call it again: `again` is match on less fuel.
use hack_livesuite.Common.{
  ℕ, zero, suc, ◌+◌, ◌-◌, Bool, true, false, not, ◌&&◌, ◌||◌, ◌==◌, leb, ltb, if◌then◌else◌, List,
  [], ◌∷◌, ◌++◌, length, get_or, get_elem?, take, Option, none, some,
}
use hack_livesuite.Patterns.{
  Ctype, Len, closed, unfinished, position, Capture, MatchState, Outcome, done, thrown, out_of_fuel,
  ◌>>=◌, invalid_capture_index, invalid_pattern_capture, unbalanced, too_many_captures,
  missing_frontier,
}
use hack_livesuite.Patterns.Classes.{classend, matchbracketclass, singlematch}

-- The position after the match, or none, and the captures.
abbrev pub Result : Type 0
Result = Outcome (Option ℕ × MatchState)

-- LUA_MAXCAPTURES
abbrev pub max_captures : ℕ
max_captures = 32

unfoldable pub is_unfinished : Len → Bool
is_unfinished (closed n) = false
is_unfinished unfinished = true
is_unfinished position = false

-- check_capture: the capture for the digit `l`.
unfoldable pub usable : Option Capture → Outcome Capture
usable none = thrown invalid_capture_index
usable (some c) = if is_unfinished c.len then thrown invalid_capture_index else done c

unfoldable pub check_capture : MatchState → ℕ → Outcome Capture
check_capture ms l =
    if ltb l 49 then thrown invalid_capture_index else usable (get_elem? ms (l - 49))

-- capture_to_close: the loop finds the last capture that is unfinished.
unfoldable pub or_first : Len → Option ℕ → Option ℕ
or_first len (some l) = some (suc l)
or_first len none = if is_unfinished len then some 0 else none

unfoldable pub last_unfinished : MatchState → Option ℕ
last_unfinished [] = none
last_unfinished (c ∷ ms) = or_first c.len (last_unfinished ms)

unfoldable pub capture_to_close : Option ℕ → Outcome ℕ
capture_to_close none = thrown invalid_pattern_capture
capture_to_close (some l) = done l

-- `ms->capture[l].len = len`
unfoldable pub set_len : ℕ → Len → MatchState → MatchState
set_len l len [] = []
set_len zero len (c ∷ ms) = record c { len = len } ∷ ms
set_len (suc l) len (c ∷ ms) = c ∷ set_len l len ms

unfoldable pub init_of : MatchState → ℕ → ℕ
init_of [] l = 0
init_of (c ∷ ms) zero = c.init
init_of (c ∷ ms) (suc l) = init_of ms l

-- `ms->level--`
unfoldable pub drop_last : MatchState → MatchState
drop_last ms = take (length ms - 1) ms

unfoldable pub undo_start : Option ℕ × MatchState → Result
undo_start (none, ms) = done (none, drop_last ms)
undo_start (some e, ms) = done (some e, ms)

unfoldable pub undo_end : ℕ → Option ℕ × MatchState → Result
undo_end l (none, ms) = done (none, set_len l unfinished ms)
undo_end l (some e, ms) = done (some e, ms)

unfoldable pub or_else : (MatchState → Result) → Option ℕ × MatchState → Result
or_else k (none, ms) = k ms
or_else k (some e, ms) = done (some e, ms)

-- memcmp on the first `n` bytes, which are in the subject.
unfoldable pub same : List ℕ → ℕ → ℕ → ℕ → Bool
same src i s zero = true
same src i s (suc n) = get_or src i 0 == get_or src s 0 && same src (i + 1) (s + 1) n

module _ (lib : Ctype) (src pat : List ℕ) where
  -- The loop of matchbalance, on fuel: s grows up to the end of the subject.
  unfoldable pub balance_loop : ℕ → ℕ → ℕ → ℕ → ℕ → Option ℕ
  balance_loop zero s b e cont = none
  balance_loop (suc fuel) before b e cont =
      let s = before + 1 in
      let ends = get_or src s 0 == e in
      let opens = get_or src s 0 == b in
      let rest =
        balance_loop fuel s b e (if ends then cont - 1 else (if opens then cont + 1 else cont)) in
      if ltb s (length src) then (if ends && cont == 1 then some (s + 1) else rest) else none

  unfoldable pub matchbalance : ℕ → ℕ → Outcome (Option ℕ)
  matchbalance s p =
      if get_or pat p 0 == 0 || get_or pat (p + 1) 0 == 0
      then thrown unbalanced
      else (if get_or src s 0 == get_or pat p 0
          then done (balance_loop (length src) s (get_or pat p 0) (get_or pat (p + 1) 0) 1)
          else done none)

  -- match_capture: a length that is CAP_POSITION is too large as a size_t.
  unfoldable pub match_len : ℕ → Capture → Option ℕ
  match_len s c = of_len c.len
    where
      of_len : Len → Option ℕ
      of_len (closed n) =
          if leb n (length src - s) && same src c.init s n then some (s + n) else none
      of_len _ = none

  unfoldable pub match_capture : MatchState → ℕ → ℕ → Outcome (Option ℕ)
  match_capture ms s l = do c ← check_capture ms l; done (match_len s c)

  module _ (again : MatchState → ℕ → ℕ → Result) where
    -- Going on after a piece that gives the next position or fails.
    unfoldable pub go_on : MatchState → ℕ → Option ℕ → Result
    go_on ms p none = done (none, ms)
    go_on ms p (some s) = again ms s p

    -- The first loop of max_expand: how often the item matches.
    unfoldable pub count_max : ℕ → ℕ → ℕ → ℕ → ℕ
    count_max zero s p ep = 0
    count_max (suc fuel) s p ep =
        let rest = count_max fuel (s + 1) p ep in
        if ltb s (length src) && singlematch lib pat (get_or src s 0) p ep then rest + 1 else 0

    -- The second loop, from `i` down.
    unfoldable pub try_max : ℕ → MatchState → ℕ → ℕ → Result
    try_max zero ms s ep = again ms s (ep + 1)
    try_max (suc i) ms s ep = again ms (s + suc i) (ep + 1) >>= or_else (λ ms'. try_max i ms' s ep)

    unfoldable pub max_expand : MatchState → ℕ → ℕ → ℕ → Result
    max_expand ms s p ep = try_max (count_max (length src) s p ep) ms s ep

    -- The loop of min_expand on fuel: s grows up to the end of the subject.
    unfoldable pub min_expand : ℕ → MatchState → ℕ → ℕ → ℕ → Result
    min_expand zero ms s p ep = out_of_fuel
    min_expand (suc fuel) ms s p ep =
        again ms s (ep + 1)
        >>= or_else (λ ms'.
          if ltb s (length src) && singlematch lib pat (get_or src s 0) p ep
          then min_expand fuel ms' (s + 1) p ep
          else done (none, ms'))

    unfoldable pub start_capture : MatchState → ℕ → ℕ → Len → Result
    start_capture ms s p what =
        if leb max_captures (length ms)
        then thrown too_many_captures
        else again (ms ++ record { init = s; len = what } ∷ []) s p >>= undo_start

    unfoldable pub end_capture : MatchState → ℕ → ℕ → Result
    end_capture ms s p = do
      l ← capture_to_close (last_unfinished ms)
      again (set_len l (closed (s - init_of ms l)) ms) s p >>= undo_end l

    -- The case '?', where `m` tells whether the item matches.
    unfoldable pub optional : Bool → MatchState → ℕ → ℕ → Result
    optional m ms s ep =
        if m
        then again ms (s + 1) (ep + 1) >>= or_else (λ ms'. again ms' s (ep + 1))
        else again ms s (ep + 1)

    -- The switch on what follows an item.
    unfoldable pub repeated : Bool → MatchState → ℕ → ℕ → ℕ → Result
    repeated m ms s p ep =
        if get_or pat ep 0 == 63
        then optional m ms s ep
        else (if get_or pat ep 0 == 42
            then max_expand ms s p ep
            else (if get_or pat ep 0 == 43
                then (if m then max_expand ms (s + 1) p ep else done (none, ms))
                else (if get_or pat ep 0 == 45
                    then min_expand (length src + 1) ms s p ep
                    else (if m then again ms (s + 1) ep else done (none, ms)))))

    -- dflt
    unfoldable pub match_item : MatchState → ℕ → ℕ → Result
    match_item ms s p = do
      ep ← classend pat p
      repeated (ltb s (length src) && singlematch lib pat (get_or src s 0) p ep) ms s p ep

    -- %f
    unfoldable pub frontier : MatchState → ℕ → ℕ → Result
    frontier ms s p =
        if get_or pat p 0 == 91
        then (do
          ep ← classend pat p
          let previous = if s == 0 then 0 else get_or src (s - 1) 0
          let before = matchbracketclass lib pat previous p (ep - 1)
          let here = matchbracketclass lib pat (get_or src s 0) p (ep - 1)
          (if before || not here then done (none, ms) else again ms s ep))
        else thrown missing_frontier

    -- The case L_ESC.
    unfoldable pub escape : MatchState → ℕ → ℕ → Result
    escape ms s p =
        if get_or pat (p + 1) 0 == 98
        then (do s' ← matchbalance s (p + 2); go_on ms (p + 4) s')
        else (if get_or pat (p + 1) 0 == 102
            then frontier ms s (p + 2)
            else (if lib.isdigit (get_or pat (p + 1) 0)
                then (do s' ← match_capture ms s (get_or pat (p + 1) 0); go_on ms (p + 2) s')
                else match_item ms s p))

    -- The body of match, from `init` to the next `goto init`.
    unfoldable pub match_step : MatchState → ℕ → ℕ → Result
    match_step ms s p =
        if get_or pat p 0 == 40
        then (if get_or pat (p + 1) 0 == 41
            then start_capture ms s (p + 2) position
            else start_capture ms s (p + 1) unfinished)
        else (if get_or pat p 0 == 41
            then end_capture ms s (p + 1)
            else (if get_or pat p 0 == 37
                then escape ms s p
                else (if get_or pat p 0 == 0
                    then done (some s, ms)
                    else (if get_or pat p 0 == 36 && get_or pat (p + 1) 0 == 0
                        then done (if s == length src then some s else none, ms)
                        else match_item ms s p))))

  -- match
  unfoldable pub match : ℕ → MatchState → ℕ → ℕ → Result
  match zero ms s p = out_of_fuel
  match (suc fuel) ms s p = match_step (match fuel) ms s p
