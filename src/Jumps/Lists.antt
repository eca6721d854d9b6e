-- ===== src/Jumps/Lists.antt =====
-- Lists of jumps as lists of positions.
use hack_livesuite.Common.{
  ℕ, zero, suc, ◌≤◌, ◌<◌, ◌≡◌, ◌≢◌, refl, subst, ◌∙◌, arith, Bool, true, false, ◌==◌, if◌then◌else◌,
  ==_iff, All, List, [], ◌∷◌, length, set, Option, none, some,
}
use hack_livesuite.Jumps.{done, getjump}
use hack_livesuite.Jumps.Fixed.{getjump-set_ne, getjump-lt}

-- The list that starts at `l` has the jumps at these positions, in this order.
abbrev pub JumpList : List ℕ → Option ℕ → List ℕ → Type 0
JumpList code l [] = l ≡ none
JumpList code l (p ∷ ps) =
    (l ≡ some p) × ((next : Option ℕ) × (getjump code p ≡ done next) × JumpList code next ps)

abbrev pub Avoids : ℕ → List ℕ → Type 0
Avoids q ps = All (λ p. q ≢ p) ps

abbrev pub Distinct : List ℕ → Type 0
Distinct [] = Unit {0}
Distinct (p ∷ ps) = Avoids p ps × Distinct ps

-- An instruction outside the list may change.
pub JumpList-set :
    (code : List ℕ) (q v : ℕ) (l : Option ℕ) (ps : List ℕ)
    → Avoids q ps
    → JumpList code l ps
    → JumpList (set code q v) l ps
JumpList-set code q v l [] a j = j
JumpList-set code q v l (p ∷ ps) (differ, a) (e, (next, f, j)) =
    (e, (next, getjump-set_ne code q p v differ ∙ f, JumpList-set code q v next ps a j))

-- Distinct positions of the code are no more than it has.
abbrev remove : ℕ → List ℕ → List ℕ
remove n [] = []
remove n (p ∷ ps) = if p == n then ps else p ∷ remove n ps

length-remove : (n : ℕ) (ps : List ℕ) → length ps ≤ suc (length (remove n ps))
length-remove n [] = omega arith
length-remove n (p ∷ ps) = at (p == n) (length-remove n ps)
  where
    at :
        (b : Bool)
        → length ps ≤ suc (length (remove n ps))
        → suc (length ps) ≤ suc (length (if b then ps else p ∷ remove n ps))
    at true h = omega arith
    at false h = omega (arith, h)

Avoids-remove : (q n : ℕ) (ps : List ℕ) → Avoids q ps → Avoids q (remove n ps)
Avoids-remove q n [] a = tt
Avoids-remove q n (p ∷ ps) (h, a) = at (p == n) (Avoids-remove q n ps a)
  where
    at : (b : Bool) → Avoids q (remove n ps) → Avoids q (if b then ps else p ∷ remove n ps)
    at true r = a
    at false r = (h, r)

Distinct-remove : (n : ℕ) (ps : List ℕ) → Distinct ps → Distinct (remove n ps)
Distinct-remove n [] d = tt
Distinct-remove n (p ∷ ps) (a, d) = at (p == n) (Distinct-remove n ps d)
  where
    at : (b : Bool) → Distinct (remove n ps) → Distinct (if b then ps else p ∷ remove n ps)
    at true r = d
    at false r = (Avoids-remove p n ps a, r)

abbrev Below : ℕ → List ℕ → Type 0
Below n ps = All (λ p. p < n) ps

Below-of_avoided : (n : ℕ) (ps : List ℕ) → Avoids n ps → Below (suc n) ps → Below n ps
Below-of_avoided n [] a b = tt
Below-of_avoided n (p ∷ ps) (h, a) (lt, b) = (ground (arith, h), Below-of_avoided n ps a b)

Below-remove : (n : ℕ) (ps : List ℕ) → Distinct ps → Below (suc n) ps → Below n (remove n ps)
Below-remove n [] d b = tt
Below-remove n (p ∷ ps) (a, d) (lt, b) = at (p == n) refl (Below-remove n ps d b)
  where
    at :
        (t : Bool)
        → (p == n) ≡ t
        → Below n (remove n ps)
        → Below n (if t then ps else p ∷ remove n ps)
    at true e r = Below-of_avoided n ps (subst (λ q. Avoids q ps) ((==_iff p n).0 e) a) b
    at false e r = (ground arith, r)

length-le : (n : ℕ) (ps : List ℕ) → Distinct ps → Below n ps → length ps ≤ n
length-le zero [] d b = omega arith
length-le zero (p ∷ ps) d (lt, b) = absurd (omega arith)
length-le (suc n) ps d b = omega (
  arith,
  length-remove n ps,
  length-le n (remove n ps) (Distinct-remove n ps d) (Below-remove n ps d b),
)

JumpList-Below :
    (code : List ℕ) (l : Option ℕ) (ps : List ℕ) → JumpList code l ps → Below (length code) ps
JumpList-Below code l [] j = tt
JumpList-Below code l (p ∷ ps) (e, (next, f, j)) =
    (getjump-lt code p f, JumpList-Below code next ps j)

-- A list of jumps has no more of them than the code has instructions.
pub JumpList-length :
    (code : List ℕ) (l : Option ℕ) (ps : List ℕ)
    → JumpList code l ps
    → Distinct ps
    → length ps ≤ length code
JumpList-length code l ps j d = length-le (length code) ps d (JumpList-Below code l ps j)
