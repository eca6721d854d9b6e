-- ===== src/Patterns.antt =====
-- lua-5.1/lstrlib.c: the pattern matcher. A pointer into the subject or the pattern is an index,
-- and a char is a byte; the terminating zero is read at the end of either.
pub mod Quote
pub mod Classes
pub mod Match
pub mod Restores
pub mod Ends
mod Runs
use hack_livesuite.Common.{ℕ, Bool, List}

-- What the matcher uses of <ctype.h>.
pub record Ctype : Type 0 where
  pub isalpha : ℕ → Bool
  pub iscntrl : ℕ → Bool
  pub isdigit : ℕ → Bool
  pub islower : ℕ → Bool
  pub ispunct : ℕ → Bool
  pub isspace : ℕ → Bool
  pub isupper : ℕ → Bool
  pub isalnum : ℕ → Bool
  pub isxdigit : ℕ → Bool
  pub tolower : ℕ → ℕ

-- MatchState.capture[l].len
pub data Len : Type 0 where
  closed : ℕ → Len
  unfinished position : Len

pub record Capture : Type 0 where
  pub init : ℕ
  pub len : Len

-- MatchState.capture up to `level`, which is the length of the list.
abbrev pub MatchState : Type 0
MatchState = List Capture

-- The errors that the matcher throws.
pub data PatternError : Type 0 where
  invalid_capture_index invalid_pattern_capture ends_with_escape missing_bracket : PatternError
  unbalanced too_many_captures missing_frontier : PatternError

-- What a piece of the matcher comes to.
pub data Outcome (A : Type 0) : Type 0 where
  done : A → Outcome A
  thrown : PatternError → Outcome A
  out_of_fuel : Outcome A

infixl 5 ◌>>=◌
abbrev pub ◌>>=◌ : {A B : Type 0} → Outcome A → (A → Outcome B) → Outcome B
done a >>= k = k a
thrown e >>= k = thrown e
out_of_fuel >>= k = out_of_fuel
