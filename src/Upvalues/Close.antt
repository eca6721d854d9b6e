-- ===== src/Upvalues/Close.antt =====
-- luaF_close: no upvalue stays open at the level or above.
use hack_livesuite.Common.{
  get_elem?-lt, ℕ, zero, suc, ◌+◌, ◌≤◌, ◌<◌, ◌≡◌, ◌≢◌, refl, sym, ap, subst, ◌∙◌, arith, Bool, true,
  false, ◌==◌, leb, if◌then◌else◌, not_leb, leb→le, Bool-cases, inl, inr, ==_iff, ==-refl, ◌⊎◌,
  List, [], ◌∷◌, get_elem?, set, get_elem?-set_self, get_elem?-set_ne, some,
}
use hack_livesuite.Upvalues.{
  Place, opened, closed, freed, UpvalState, level_in, unlink, close_one, close_next, close_list,
  close,
}
use hack_livesuite.Upvalues.Open.{OpenBelow, count, IsValid, count-OpenBelow, count-unlink}

-- Where the upvalue at the level l is when it is closed.
abbrev pub place : ℕ → ℕ → UpvalState → Place
place id l st = if st.dead id then freed else closed (st.stack l)

-- What the loop does of an upvalue in `ids` and of the others.
record Closes (level : ℕ) (ids : List ℕ) (st st' : UpvalState) : Type 0 where
  below : OpenBelow st'.heap level st'.openupval
  foreign : st'.other_threads ≡ st.other_threads
  linked : (x : ℕ) → count x st'.uvhead ≡ count x st'.openupval + count x st.other_threads
  fewer : (x : ℕ) → count x st'.openupval ≤ count x ids
  closes :
      (id l : ℕ)
      → 1 ≤ count id ids
      → get_elem? st.heap id ≡ some (opened l)
      → level ≤ l
      → get_elem? st'.heap id ≡ some (place id l st)
  lower :
      (id l : ℕ)
      → get_elem? st.heap id ≡ some (opened l)
      → l < level
      → get_elem? st'.heap id ≡ some (opened l)
  others : (id : ℕ) → count id ids ≡ 0 → get_elem? st'.heap id ≡ get_elem? st.heap id

-- The fields after one step.
module _ (id l : ℕ) (st : UpvalState) where
  close_one-heap : (close_one id l st).heap ≡ set st.heap id (place id l st)
  unfolding close_one
  close_one-heap = ground arith

  close_one-uvhead : (close_one id l st).uvhead ≡ unlink id st.uvhead
  unfolding close_one
  close_one-uvhead = ground arith

  close_one-dead : (close_one id l st).dead ≡ st.dead
  unfolding close_one
  close_one-dead = ground arith

  close_one-stack : (close_one id l st).stack ≡ st.stack
  unfolding close_one
  close_one-stack = ground arith

  close_one-other : (close_one id l st).other_threads ≡ st.other_threads
  unfolding close_one
  close_one-other = ground arith

-- An upvalue that does not stand in a list is not its first.
differ_lem : (id j n : ℕ) → (if j == id then 1 else 0) + n ≡ 0 → id ≢ j
differ_lem id j n h e = absurd (ground (arith, ==-refl id))

after : (id j n : ℕ) → (id == j) ≡ false → 1 ≤ (if id == j then 1 else 0) + n → 1 ≤ n
after id j n t h = ground arith

OpenBelow-set :
    (heap : List Place) (id b : ℕ) (p : Place) (ids : List ℕ)
    → count id ids ≡ 0
    → OpenBelow heap b ids
    → OpenBelow (set heap id p) b ids
OpenBelow-set heap id b p [] n o = tt
OpenBelow-set heap id b p (j ∷ ids) n (l, e, lt, o) =
    (l, get_elem?-set_ne heap p differ ∙ e, lt, OpenBelow-set heap id l p ids (omega arith) o)
  where
    differ : id ≢ j
    differ h = differ_lem id j (count id ids) n h

-- One step that closes the upvalue `id` at the level l, and then the rest of the list.
module _ (level l id : ℕ) (ids : List ℕ) (st : UpvalState) (high : level ≤ l)
    (at : get_elem? st.heap id ≡ some (opened l)) (low : OpenBelow st.heap l ids) where
  place_same : (i k : ℕ) → place i k (close_one id l st) ≡ place i k st
  place_same i k = rw (close_one-dead id l st, close_one-stack id l st)

  here : get_elem? (close_one id l st).heap id ≡ some (place id l st)
  here =
      ap (λ h. get_elem? h id) (close_one-heap id l st)
      ∙ get_elem?-set_self st.heap id (place id l st) (get_elem?-lt st.heap id at)

  elsewhere : (j : ℕ) → id ≢ j → get_elem? (close_one id l st).heap j ≡ get_elem? st.heap j
  elsewhere j ne =
      ap (λ h. get_elem? h j) (close_one-heap id l st) ∙ get_elem?-set_ne st.heap (place id l st) ne

  same_level : (k : ℕ) → get_elem? st.heap id ≡ some (opened k) → l ≡ k
  same_level k e = let both : some (opened l) ≡ some (opened k) = sym at ∙ e in cc

  unlisted : count id ids ≡ 0
  unlisted = count-OpenBelow st.heap id l l ids at (omega arith) low

  Closes-step :
      (st' : UpvalState) → Closes level ids (close_one id l st) st' → Closes level (id ∷ ids) st st'
  Closes-step st' c = record {
    below = c.below;
    foreign = c.foreign ∙ close_one-other id l st;
    linked = λ x. omega (arith, c.linked x, ap (count x) (close_one-other id l st));
    fewer = λ x. omega (arith, c.fewer x);
    closes = λ j k n e h. listed j k (Bool-cases (id == j)) n e h;
    lower = λ j k e h. c.lower j k (elsewhere j (λ same. lower_ne j k e h same) ∙ e) h;
    others = λ j n.
        c.others j (omega arith) ∙ elsewhere j (λ same. differ_lem j id (count j ids) n (sym same));
  }
    where
      lower_ne : (j k : ℕ) → get_elem? st.heap j ≡ some (opened k) → k < level → id ≢ j
      lower_ne j k e h same =
          let levels : l ≡ k = same_level k (ap (get_elem? st.heap) same ∙ e) in
          absurd (omega arith)

      differs : (j : ℕ) → (id == j) ≡ false → id ≢ j
      differs j t same = let eq = (==_iff id j).1 same in cc

      listed :
          (j k : ℕ)
          → ((id == j) ≡ true) ⊎ ((id == j) ≡ false)
          → 1 ≤ count j (id ∷ ids)
          → get_elem? st.heap j ≡ some (opened k)
          → level ≤ k
          → get_elem? st'.heap j ≡ some (place j k st)
      listed j k (inl t) n e h =
          let same : id ≡ j = (==_iff id j).0 t in
          let levels : l ≡ k = same_level k (ap (get_elem? st.heap) same ∙ e) in
          subst (λ i. get_elem? st'.heap i ≡ some (place i k st)) same
            (c.others id unlisted ∙ here ∙ ap (λ i. some (place id i st)) levels)
      listed j k (inr t) n e h =
          let differ : id ≢ j = differs j t in
          c.closes j k (after id j (count j ids) t n) (elsewhere j differ ∙ e) h
          ∙ ap some (place_same j k)

Closes-close_list :
    (level : ℕ) (ids : List ℕ) (b : ℕ) (st : UpvalState)
    → OpenBelow st.heap b ids
    → ((x : ℕ) → count x st.uvhead ≡ count x ids + count x st.other_threads)
    → Closes level ids st (close_list level ids st)
unfolding close_list close_next
Closes-close_list level [] b st o n = record {
  below = tt;
  foreign = refl;
  linked = n;
  fewer = λ x. omega arith;
  closes = λ id l h. absurd (omega arith);
  lower = λ id l e h. e;
  others = λ id h. refl;
}
Closes-close_list level (id ∷ ids) b st (l, e, lt, o) n =
    subst
      (λ p.
        Closes level (id ∷ ids) st (close_next level (level_in p) id ids (close_list level ids) st))
      (sym e)
      (stops (leb level l) refl (Closes-close_list level ids l (close_one id l st) low linked))
  where
    low : OpenBelow (close_one id l st).heap l ids
    low =
        subst (λ h. OpenBelow h l ids) (sym (close_one-heap id l st))
          (OpenBelow-set st.heap id l (place id l st) ids
            (count-OpenBelow st.heap id l l ids e (omega arith) o) o)

    linked :
        (x : ℕ)
        → count x (close_one id l st).uvhead
          ≡ count x ids + count x (close_one id l st).other_threads
    linked x =
        ap (count x) (close_one-uvhead id l st)
        ∙ omega (
          arith,
          count-unlink id x st.uvhead (ground (arith, n id, ==-refl id)),
          n x,
          ap (count x) (close_one-other id l st),
        )

    stops :
        (t : Bool)
        → leb level l ≡ t
        → Closes level ids (close_one id l st) (close_list level ids (close_one id l st))
        → Closes level (id ∷ ids) st (
            if t
            then close_list level ids (close_one id l st)
            else record st { openupval = id ∷ ids })
    stops true t ih = Closes-step level l id ids st (leb→le level l t) e o _ ih
    stops false t ih = record {
      below = (l, e, not_leb level l t, o);
      foreign = refl;
      linked = n;
      fewer = λ x. omega arith;
      closes = λ j k m f h. absurd (
          omega
            (arith, count-OpenBelow st.heap j k level (id ∷ ids) f h (l, e, not_leb level l t, o)));
      lower = λ j k f h. f;
      others = λ j h. refl;
    }

-- After luaF_close of a level, from a valid state: the state is valid and the open upvalues of the
-- thread are below the level. Each one of the thread at the level or above is closed with the value
-- that the stack has there, or freed if it was dead. The open ones below the level, and all that the
-- thread did not list, those of other threads too, are as before.
pub record Closed (level : ℕ) (st st' : UpvalState) : Type 0 where
  pub valid : IsValid st'
  pub below : OpenBelow st'.heap level st'.openupval
  pub foreign : st'.other_threads ≡ st.other_threads
  pub closes :
      (id l : ℕ)
      → 1 ≤ count id st.openupval
      → get_elem? st.heap id ≡ some (opened l)
      → level ≤ l
      → get_elem? st'.heap id ≡ some (place id l st)
  pub lower :
      (id l : ℕ)
      → get_elem? st.heap id ≡ some (opened l)
      → l < level
      → get_elem? st'.heap id ≡ some (opened l)
  pub others : (id : ℕ) → count id st.openupval ≡ 0 → get_elem? st'.heap id ≡ get_elem? st.heap id

-- luaF_close brings a valid state to one that `Closed` describes.
pub close-Closed : (level : ℕ) (st : UpvalState) → IsValid st → Closed level st (close level st)
unfolding close
close-Closed level st valid =
    let c = Closes-close_list level st.openupval valid.top st valid.falling valid.linked in
    record {
      valid = record {
        top = level;
        falling = c.below;
        linked = λ x. omega (arith, c.linked x, ap (count x) c.foreign);
        apart = λ x n. ap (count x) c.foreign ∙ valid.apart x (omega (arith, c.fewer x));
        abroad = λ x n. still_open x (omega (arith, ap (count x) c.foreign));
      };
      below = c.below;
      foreign = c.foreign;
      closes = c.closes;
      lower = c.lower;
      others = c.others;
    }
  where
    still_open :
        (x : ℕ)
        → 1 ≤ count x st.other_threads
        → (l : ℕ) × (get_elem? (close_list level st.openupval st).heap x ≡ some (opened l))
    still_open x n =
        let (l, e) = valid.abroad x n in
        let c = Closes-close_list level st.openupval valid.top st valid.falling valid.linked in
        (l, c.others x (unlisted_at (count x st.openupval) refl) ∙ e)
      where
        unlisted_at : (k : ℕ) → count x st.openupval ≡ k → count x st.openupval ≡ 0
        unlisted_at zero h = h
        unlisted_at (suc k) h = absurd (omega (arith, valid.apart x (omega arith)))
