-- ===== src/Patterns/Quote.antt =====
-- addquoted: the format %q of string.format.
use hack_livesuite.Common.{ℕ, ◌||◌, ◌==◌, if◌then◌else◌, List, [], ◌∷◌, ◌++◌}

-- The switch of addquoted.
unfoldable pub quoted_char : ℕ → List ℕ
quoted_char c =
    if c == b'"' || c == b'\\' || c == b'\n'
    then b'\\' ∷ c ∷ []
    else (if c == 0 then b'\\' ∷ b'0' ∷ b'0' ∷ b'0' ∷ [] else c ∷ [])

-- The loop of addquoted.
unfoldable pub quoted_chars : List ℕ → List ℕ
quoted_chars [] = []
quoted_chars (c ∷ s) = quoted_char c ++ quoted_chars s

unfoldable pub addquoted : List ℕ → List ℕ
addquoted s = b'"' ∷ (quoted_chars s ++ b'"' ∷ [])
