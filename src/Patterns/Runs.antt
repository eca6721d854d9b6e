-- ===== src/Patterns/Runs.antt =====
-- Concrete matches, with the character classes of ASCII.
use hack_livesuite.Common.{
  ℕ, ◌+◌, ◌≡◌, refl, arith, Bool, ◌&&◌, ◌||◌, ◌==◌, leb, if◌then◌else◌, List, [], ◌∷◌, none, some,
}
use hack_livesuite.Patterns.{Ctype, closed, done}
use hack_livesuite.Patterns.Classes.{
  classend, set_end, class_of, in_class, match_class, bracket_loop, matchbracketclass, singlematch,
}
use hack_livesuite.Patterns.Match.{
  is_unfinished, check_capture, usable, last_unfinished, or_first, capture_to_close, set_len,
  init_of, drop_last, undo_start, undo_end, or_else, same, balance_loop, matchbalance, match_len,
  match_capture, go_on, count_max, try_max, max_expand, min_expand, start_capture, end_capture,
  optional, repeated, match_item, frontier, escape, match_step, match,
}
use hack_livesuite.Patterns.Restores.{Safe}
use hack_livesuite.Patterns.Ends.{match-Safe}

abbrev between : ℕ → ℕ → ℕ → Bool
between a b c = leb a c && leb c b

abbrev ascii : Ctype
ascii = record {
  isalpha = λ c. between 65 90 c || between 97 122 c;
  iscntrl = λ c. between 0 31 c || c == 127;
  isdigit = between 48 57;
  islower = between 97 122;
  ispunct = λ c. between 33 47 c || between 58 64 c || between 91 96 c || between 123 126 c;
  isspace = λ c. between 9 13 c || c == 32;
  isupper = between 65 90;
  isalnum = λ c. between 48 57 c || between 65 90 c || between 97 122 c;
  isxdigit = λ c. between 48 57 c || between 65 70 c || between 97 102 c;
  tolower = λ c. if between 65 90 c then c + 32 else c;
}

-- "aabb1" and "(a*)b-%d"
abbrev subject : List ℕ
subject = 97 ∷ 97 ∷ 98 ∷ 98 ∷ 49 ∷ []

abbrev pattern_test : List ℕ
pattern_test = 40 ∷ 97 ∷ 42 ∷ 41 ∷ 98 ∷ 45 ∷ 37 ∷ 100 ∷ []

match_test :
    match ascii subject pattern_test 9 [] 0 0
    ≡ done (some 5, record { init = 0; len = closed 2 } ∷ [])
unfolding classend set_end class_of in_class match_class bracket_loop matchbracketclass singlematch
    is_unfinished last_unfinished or_first capture_to_close set_len init_of drop_last undo_start
    undo_end or_else go_on count_max try_max max_expand min_expand start_capture end_capture
    optional repeated match_item escape match_step match
match_test = refl

-- "%b()": the balanced part of "(a)b"
balance_test :
    match ascii (40 ∷ 97 ∷ 41 ∷ 98 ∷ []) (37 ∷ 98 ∷ 40 ∷ 41 ∷ []) 5 [] 0 0 ≡ done (some 3, [])
unfolding balance_loop matchbalance go_on escape match_step match
balance_test = refl

-- "%f[%a]b", at a frontier and elsewhere
frontier_test :
    match ascii (49 ∷ 98 ∷ []) (37 ∷ 102 ∷ 91 ∷ 37 ∷ 97 ∷ 93 ∷ 98 ∷ []) 8 [] 1 0 ≡ done (some 2, [])
unfolding classend set_end class_of in_class match_class bracket_loop matchbracketclass singlematch
    optional repeated match_item frontier escape match_step match
frontier_test = refl

-- "(.)%1" on "aa" and on "ab"
back_test :
    match ascii (97 ∷ 97 ∷ []) (40 ∷ 46 ∷ 41 ∷ 37 ∷ 49 ∷ []) 6 [] 0 0
    ≡ done (some 2, record { init = 0; len = closed 1 } ∷ [])
unfolding classend singlematch is_unfinished check_capture usable last_unfinished or_first
    capture_to_close set_len init_of undo_start undo_end same match_len match_capture go_on
    start_capture end_capture repeated match_item escape match_step match
back_test = refl

no_match_test : match ascii (97 ∷ 98 ∷ []) (40 ∷ 46 ∷ 41 ∷ 37 ∷ 49 ∷ []) 6 [] 0 0 ≡ done (none, [])
unfolding classend singlematch is_unfinished check_capture usable last_unfinished or_first
    capture_to_close set_len drop_last init_of undo_start undo_end same match_len match_capture
    go_on start_capture end_capture repeated match_item escape match_step match
no_match_test = refl

match-Safe_example : Safe 5 [] 0 (match ascii subject pattern_test 9 [] 0 0)
match-Safe_example = match-Safe ascii subject pattern_test 9 [] 0 (omega arith) (omega arith)
