-- ===== src/Upvalues/Find.antt =====
-- luaF_findupval: one upvalue for each level of the stack.
use hack_livesuite.Common.{
  get_elem?-lt, zero, ℕ, suc, ◌+◌, ◌≤◌, ◌<◌, ◌≡◌, ◌≢◌, refl, sym, ap, subst, ◌∙◌, arith, Bool, true,
  false, ◌==◌, leb, if◌then◌else◌, if_true, not_leb, leb→le, ==_iff, ==-refl, List, [], ◌∷◌, ◌++◌,
  length, get_elem?, Option, none, some,
}
use native.Mathlib.Decide.{dec_lt}
use hack_livesuite.Upvalues.{
  Place, opened, UpvalState, level_in, chain, search_open, upval_found, findupval,
}
use hack_livesuite.Upvalues.Open.{
  OpenBelow, count, IsValid, get_elem?-append, get_elem?-append_end, OpenBelow-le, OpenBelow-append,
  count-OpenBelow,
}

-- What the search comes to: an upvalue that is open at the level, or the list with a new one in it.
data Searched (heap : List Place) (level : ℕ) (ids : List ℕ) : Option ℕ × List ℕ → Type 0 where
  hit :
      {id : ℕ} {ids' : List ℕ}
      → get_elem? heap id ≡ some (opened level)
      → 1 ≤ count id ids
      → ids' ≡ ids
      → Searched heap level ids (some id, ids')
  miss :
      {ids' : List ℕ}
      → ((c : ℕ) → level < c → OpenBelow heap c ids → OpenBelow (heap ++ opened level ∷ []) c ids')
      → ((x : ℕ) → count x ids' ≡ (if length heap == x then 1 else 0) + count x ids)
      → Searched heap level ids (none, ids')

module _ (heap : List Place) (level : ℕ) where
  chained :
      {c : ℕ} (ids : List ℕ)
      → level < c
      → OpenBelow heap level ids
      → OpenBelow (heap ++ opened level ∷ []) c (length heap ∷ ids)
  chained ids h o = (
    level,
    get_elem?-append_end heap (opened level),
    h,
    OpenBelow-append heap (opened level) level ids o,
  )

  later :
      (id k : ℕ) (ids : List ℕ) (r : Option ℕ × List ℕ)
      → get_elem? heap id ≡ some (opened k)
      → level < k
      → Searched heap level ids r
      → Searched heap level (id ∷ ids) (r.0, id ∷ r.1)
  later id k ids r e h (hit g n same) = hit g (omega arith) (ap (λ t. id ∷ t) same)
  later id k ids r e h (miss {ids'} o n) =
      miss
        (λ c lt (j, f, jc, oj).
          (k, get_elem?-append heap (opened level ∷ []) id e, below j f jc, o k h (at j f oj)))
        (λ x. omega (arith, n x))
    where
      at :
          (j : ℕ)
          → get_elem? heap id ≡ some (opened j)
          → OpenBelow heap j ids
          → OpenBelow heap k ids
      at j f oj =
          let both : some (opened k) ≡ some (opened j) = sym e ∙ f in
          let same : j ≡ k = cc in subst (λ i. OpenBelow heap i ids) same oj

      below : (j : ℕ) {c : ℕ} → get_elem? heap id ≡ some (opened j) → j < c → k < c
      below j f lt =
          let both : some (opened k) ≡ some (opened j) = sym e ∙ f in
          let same : k ≡ j = cc in omega arith

  Searched-search_open :
      (b : ℕ) (ids : List ℕ)
      → OpenBelow heap b ids
      → Searched heap level ids (search_open heap level (length heap) ids)
  unfolding search_open chain
  Searched-search_open b [] o = miss (λ c h _. chained [] h tt) (λ x. refl)
  Searched-search_open b (id ∷ ids) (k, e, lt, o) =
      subst
        (λ p. Searched heap level (id ∷ ids) (
          chain level (length heap) (level_in p) id ids (search_open heap level (length heap) ids)))
        (sym e)
        (stops (leb level k) (k == level) (search_open heap level (length heap) ids)
          (Searched-search_open k ids o) refl refl)
    where
      stops :
          (s t : Bool) (r : Option ℕ × List ℕ)
          → Searched heap level ids r
          → leb level k ≡ s
          → (k == level) ≡ t
          → Searched heap level (id ∷ ids) (
              if s
              then (if t then (some id, id ∷ ids) else (r.0, id ∷ r.1))
              else (none, length heap ∷ id ∷ ids))
      stops true true r ih s t =
          hit (subst (λ j. get_elem? heap id ≡ some (opened j)) ((==_iff k level).0 t) e)
            (ground (arith, ==-refl id)) refl
      stops true false r ih s t = later id k ids r e (ground (arith, leb→le level k s)) ih
      stops false t r ih s _ =
          miss (λ c h _. chained (id ∷ ids) h (k, e, not_leb level k s, o)) (λ x. refl)

module _ (level new id : ℕ) (ids : List ℕ) (r : Option ℕ × List ℕ) where
  chain-same : (k : ℕ) → k ≡ level → (chain level new (some k) id ids r).0 ≡ some id
  unfolding chain
  chain-same k h = ground (arith, ==-refl k)

  chain-above : (k : ℕ) → level < k → (chain level new (some k) id ids r).0 ≡ r.0
  unfolding chain
  chain-above k h = ground arith

-- Of an upvalue that is open at the level, the search finds the one in the list.
search_open-hit :
    (heap : List Place) (level new b : ℕ) (ids : List ℕ) (id : ℕ)
    → OpenBelow heap b ids
    → 1 ≤ count id ids
    → get_elem? heap id ≡ some (opened level)
    → (search_open heap level new ids).0 ≡ some id
unfolding search_open
search_open-hit heap level new b [] id o n e = absurd (omega arith)
search_open-hit heap level new b (j ∷ ids) id (k, f, lt, o) n e =
    subst (λ p. (chain level new (level_in p) j ids (search_open heap level new ids)).0 ≡ some id)
      (sym f) (at (j == id) refl n (search_open-hit heap level new k ids id o))
  where
    levels : some (opened k) ≡ some (opened level) → k ≡ level
    levels p = cc

    at :
        (t : Bool)
        → (j == id) ≡ t
        → 1 ≤ (if t then 1 else 0) + count id ids
        → (1 ≤ count id ids
            → get_elem? heap id ≡ some (opened level)
            → (search_open heap level new ids).0 ≡ some id)
        → (chain level new (some k) j ids (search_open heap level new ids)).0 ≡ some id
    at true t n ih =
        let same : j ≡ id = (==_iff j id).0 t in
        let level_at : some (opened k) ≡ some (opened level) =
          sym f ∙ ap (get_elem? heap) same ∙ e in
        chain-same level new j ids (search_open heap level new ids) k (levels level_at)
        ∙ (ap some same)
    at false t n ih = elim (dec_lt level k) [
      | yes lt ↦
          chain-above level new j ids (search_open heap level new ids) k lt ∙ (ih (omega arith) e)
      | no ge ↦ absurd (omega (arith, count-OpenBelow heap id level k ids e (omega arith) o))
    ]

-- Whatever luaF_findupval gives is a live upvalue that is open at the level. The lists stay valid,
-- each upvalue that was there keeps its place, and one that was open at the level is the one given.
pub record Finds (level : ℕ) (st : UpvalState) (id : ℕ) (st' : UpvalState) : Type 0 where
  pub valid : IsValid st'
  pub open_at : get_elem? st'.heap id ≡ some (opened level)
  pub listed : 1 ≤ count id st'.openupval
  pub alive : st'.dead id ≡ false
  pub kept : (j : ℕ) (p : Place) → get_elem? st.heap j ≡ some p → get_elem? st'.heap j ≡ some p
  pub shared :
      (j : ℕ) → 1 ≤ count j st.openupval → get_elem? st.heap j ≡ some (opened level) → id ≡ j

-- The search result and the state that luaF_findupval makes of it.
module _ (level : ℕ) (st : UpvalState) (valid : IsValid st) where
  upval_found-old :
      (id : ℕ) (ids : List ℕ)
      → get_elem? st.heap id ≡ some (opened level)
      → 1 ≤ count id st.openupval
      → ((j : ℕ) → 1 ≤ count j st.openupval → get_elem? st.heap j ≡ some (opened level) → id ≡ j)
      → Finds level st
          (upval_found level (some id, ids) st).0
          (upval_found level (some id, ids) st).1
  unfolding upval_found
  upval_found-old id ids e n one = record {
    valid = record {
      top = valid.top;
      falling = valid.falling;
      linked = valid.linked;
      apart = valid.apart;
      abroad = valid.abroad;
    };
    open_at = e;
    listed = n;
    alive = sym (if_true false (st.dead id) (==-refl id));
    kept = λ j p h. h;
    shared = one;
  }

  upval_found-new :
      (ids : List ℕ)
      → OpenBelow (st.heap ++ opened level ∷ []) (suc level + valid.top) ids
      → ((x : ℕ) → count x ids ≡ (if length st.heap == x then 1 else 0) + count x st.openupval)
      → ((j : ℕ)
          → 1 ≤ count j st.openupval
          → get_elem? st.heap j ≡ some (opened level)
          → length st.heap ≡ j)
      → Finds level st (upval_found level (none, ids) st).0 (upval_found level (none, ids) st).1
  unfolding upval_found
  upval_found-new ids o n one = record {
    valid = record {
      top = suc level + valid.top;
      falling = o;
      linked = λ x. ground (arith, n x, valid.linked x);
      apart = λ x h. apart_new x (length st.heap == x) refl (subst (λ k. 1 ≤ k) (n x) h);
      abroad = λ x h.
          let (l, e) = valid.abroad x h in (l, get_elem?-append st.heap (opened level ∷ []) x e);
    };
    open_at = get_elem?-append_end st.heap (opened level);
    listed = ground (arith, n (length st.heap), ==-refl (length st.heap));
    alive = sym (if_true false (st.dead (length st.heap)) (==-refl (length st.heap)));
    kept = λ j p h. get_elem?-append st.heap (opened level ∷ []) j h;
    shared = one;
  }
    where
      -- The new upvalue is in no list of another thread, since those are in the heap.
      apart_new :
          (x : ℕ) (t : Bool)
          → (length st.heap == x) ≡ t
          → 1 ≤ (if t then 1 else 0) + count x st.openupval
          → count x st.other_threads ≡ 0
      apart_new x true e h = none_at (count x st.other_threads) refl
        where
          none_at : (k : ℕ) → count x st.other_threads ≡ k → count x st.other_threads ≡ 0
          none_at zero c = c
          none_at (suc k) c =
              let (l, g) = valid.abroad x (omega arith) in
              absurd (omega (arith, get_elem?-lt st.heap x g, (==_iff (length st.heap) x).0 e))
      apart_new x false e h = valid.apart x (omega arith)

  upval_found-Finds :
      (r : Option ℕ × List ℕ)
      → Searched st.heap level st.openupval r
      → ((j : ℕ)
          → 1 ≤ count j st.openupval
          → get_elem? st.heap j ≡ some (opened level)
          → r.0 ≡ some j)
      → Finds level st (upval_found level r st).0 (upval_found level r st).1
  upval_found-Finds (some id, ids) (hit e n same) one =
      upval_found-old id ids e n (λ j a b. some_eq (one j a b))
    where
      some_eq : {j : ℕ} → some id ≡ some j → id ≡ j
      some_eq h = cc
  upval_found-Finds (none, ids) (miss o n) one =
      upval_found-new ids
        (o _ (omega arith) (
          OpenBelow-le st.heap valid.top (suc level + valid.top) st.openupval (omega arith)
            valid.falling))
        n (λ j a b. absurd (none_ne (one j a b)))
    where
      none_ne : {j : ℕ} → none ≢ some j
      none_ne h = cc

-- From a valid state, luaF_findupval gives a live upvalue that is open at the level and listed, and
-- a valid state in which each upvalue is where it was; it is the one upvalue of the thread at the
-- level if there was one.
pub findupval-Finds :
    (level : ℕ) (st : UpvalState)
    → IsValid st
    → Finds level st (findupval level st).0 (findupval level st).1
unfolding findupval
findupval-Finds level st valid =
    upval_found-Finds level st valid (search_open st.heap level (length st.heap) st.openupval)
      (Searched-search_open st.heap level valid.top st.openupval valid.falling)
      (λ j n e.
        search_open-hit st.heap level (length st.heap) valid.top st.openupval j valid.falling n e)
