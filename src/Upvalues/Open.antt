-- ===== src/Upvalues/Open.antt =====
-- The lists of open upvalues: by falling level, the same upvalues in both.
use hack_livesuite.Common.{
  ℕ, zero, suc, ◌+◌, ◌≤◌, ◌<◌, ◌≡◌, refl, sym, subst, ◌∙◌, arith, Bool, true, false, ◌==◌,
  if◌then◌else◌, ==_iff, List, [], ◌∷◌, ◌++◌, length, get_elem?, some,
}
use hack_livesuite.Upvalues.{Place, opened, UpvalState, unlink}

-- Open upvalues at levels below `bound`, each lower than the one before.
abbrev pub OpenBelow : List Place → ℕ → List ℕ → Type 0
OpenBelow heap bound [] = Unit {0}
OpenBelow heap bound (id ∷ ids) =
    (l : ℕ) × (get_elem? heap id ≡ some (opened l)) × (l < bound) × OpenBelow heap l ids

abbrev pub count : ℕ → List ℕ → ℕ
count x [] = 0
count x (y ∷ ys) = (if y == x then 1 else 0) + count x ys

-- The list of the thread falls and is apart from those of the others, the list of the state has the
-- upvalues of both, and those of the others are open too.
pub record IsValid (st : UpvalState) : Type 0 where
  pub top : ℕ
  pub falling : OpenBelow st.heap top st.openupval
  pub linked : (x : ℕ) → count x st.uvhead ≡ count x st.openupval + count x st.other_threads
  pub apart : (x : ℕ) → 1 ≤ count x st.openupval → count x st.other_threads ≡ 0
  pub abroad :
      (x : ℕ) → 1 ≤ count x st.other_threads → (l : ℕ) × (get_elem? st.heap x ≡ some (opened l))

pub count-unlink :
    (id x : ℕ) (ids : List ℕ)
    → 1 ≤ count id ids
    → count x (unlink id ids) + (if id == x then 1 else 0) ≡ count x ids
unfolding unlink
count-unlink id x [] h = absurd (omega arith)
count-unlink id x (j ∷ ids) h = ground (arith, count-unlink id x ids)

module _ {A : Type 0} where
  pub get_elem?-append :
      (xs ys : List A) (i : ℕ) {x : A} → get_elem? xs i ≡ some x → get_elem? (xs ++ ys) i ≡ some x
  get_elem?-append [] ys i h = cc
  get_elem?-append (x ∷ xs) ys zero h = h
  get_elem?-append (x ∷ xs) ys (suc i) h = get_elem?-append xs ys i h

  pub get_elem?-append_end : (xs : List A) (y : A) → get_elem? (xs ++ y ∷ []) (length xs) ≡ some y
  get_elem?-append_end [] y = refl
  get_elem?-append_end (x ∷ xs) y = get_elem?-append_end xs y

pub OpenBelow-le :
    (heap : List Place) (a b : ℕ) (ids : List ℕ)
    → a ≤ b
    → OpenBelow heap a ids
    → OpenBelow heap b ids
OpenBelow-le heap a b [] h o = tt
OpenBelow-le heap a b (id ∷ ids) h (l, e, lt, o) = (l, e, omega arith, o)

pub OpenBelow-append :
    (heap : List Place) (p : Place) (b : ℕ) (ids : List ℕ)
    → OpenBelow heap b ids
    → OpenBelow (heap ++ p ∷ []) b ids
OpenBelow-append heap p b [] o = tt
OpenBelow-append heap p b (id ∷ ids) (l, e, lt, o) =
    (l, get_elem?-append heap (p ∷ []) id e, lt, OpenBelow-append heap p l ids o)

-- An upvalue that is open at some level does not stand among those below it.
pub count-OpenBelow :
    (heap : List Place) (id l b : ℕ) (ids : List ℕ)
    → get_elem? heap id ≡ some (opened l)
    → b ≤ l
    → OpenBelow heap b ids
    → count id ids ≡ 0
count-OpenBelow heap id l b [] e h o = refl
count-OpenBelow heap id l b (j ∷ ids) e h (k, f, lt, o) =
    rest (j == id) refl (count-OpenBelow heap id l k ids e (omega arith) o)
  where
    rest : (t : Bool) → (j == id) ≡ t → count id ids ≡ 0 → (if t then 1 else 0) + count id ids ≡ 0
    rest true t c =
        let same : get_elem? heap id ≡ some (opened k) =
          subst (λ i. get_elem? heap i ≡ some (opened k)) ((==_iff j id).0 t) f in
        let level : some (opened l) ≡ some (opened k) = sym e ∙ same in
        let levels : l ≡ k = cc in absurd (omega arith)
    rest false t c = omega arith
