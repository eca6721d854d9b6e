-- ===== src/Upvalues/Runs.antt =====
-- Runs of luaF_findupval and luaF_close.
use hack_livesuite.Common.{
  ℕ, Bool, true, ap, sym, ◌==◌, ==_iff, if◌then◌else◌, get_elem?, some, ◌≤◌, ◌+◌, ◌≡◌, refl, arith,
  false, [], ◌∷◌,
}
use hack_livesuite.Upvalues.{
  opened, closed, freed, UpvalState, findupval, upval_found, search_open, chain, close, close_list,
  close_next, close_one,
}
use hack_livesuite.Upvalues.Open.{IsValid}
use hack_livesuite.Upvalues.Find.{Finds, findupval-Finds}
use hack_livesuite.Upvalues.Close.{Closed, close-Closed}

-- Three open upvalues of a thread, at the levels 9, 7 and 2, of which the first is dead, and one of
-- another thread.
abbrev three_open : UpvalState
three_open = record {
  stack = λ l. (3, l + 10);
  heap = opened 2 ∷ opened 7 ∷ opened 40 ∷ opened 9 ∷ [];
  dead = λ id. id == 3;
  openupval = 3 ∷ 1 ∷ 0 ∷ [];
  other_threads = 2 ∷ [];
  uvhead = 3 ∷ 2 ∷ 1 ∷ 0 ∷ [];
  rootgc = [];
}

three_open-IsValid : IsValid three_open
three_open-IsValid = record {
  top = 10;
  falling = (9, refl, omega arith, (7, refl, omega arith, (2, refl, omega arith, tt)));
  linked = λ x. omega arith;
  apart = λ x h. ground arith;
  abroad = λ x h. at x (2 == x) refl h;
}
  where
    at :
        (x : ℕ) (t : Bool)
        → (2 == x) ≡ t
        → 1 ≤ (if t then 1 else 0) + 0
        → (l : ℕ) × (get_elem? three_open.heap x ≡ some (opened l))
    at x true e h = (40, ap (get_elem? three_open.heap) (sym ((==_iff 2 x).0 e)))
    at x false e h = absurd (omega arith)

finds_shared : (findupval 2 three_open).0 ≡ 0
unfolding findupval upval_found search_open chain
finds_shared = refl

chains_between : (findupval 5 three_open).1.openupval ≡ 3 ∷ 1 ∷ 4 ∷ 0 ∷ []
unfolding findupval upval_found search_open chain
chains_between = refl

-- The dead one is found alive again.
revives : (findupval 9 three_open).1.dead 3 ≡ false
unfolding findupval upval_found search_open chain
revives = refl

closes_upper : (close 5 three_open).heap ≡ opened 2 ∷ closed (3, 17) ∷ opened 40 ∷ freed ∷ []
unfolding close close_list close_next close_one
closes_upper = refl

findupval-Finds_example : Finds 5 three_open (findupval 5 three_open).0 (findupval 5 three_open).1
findupval-Finds_example = findupval-Finds 5 three_open three_open-IsValid

close-Closed_example : Closed 5 three_open (close 5 three_open)
close-Closed_example = close-Closed 5 three_open three_open-IsValid
