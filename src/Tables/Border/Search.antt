-- ===== src/Tables/Border/Search.antt =====
-- The searches of luaH_getn end, at a boundary.
use hack_livesuite.Common.{
  ℕ, zero, suc, ◌+◌, ◌-◌, ◌*◌, ◌/◌, ◌≤◌, ◌<◌, ◌≡◌, ◌≢◌, ◌⊎◌, inl, inr, refl, sym, ap, subst, ◌∙◌,
  arith, Bool, true, false, ltb, ltb→lt, lt→ltb, not_ltb, not_lt, if◌then◌else◌, if_true, if_false,
  ◌&&◌, length, get_or, Option, none, some,
}
use hack_livesuite.Limits.{max_int}
use hack_livesuite.Tables.Border.{
  Parts, ttisnil, in_hash, getnum, array_at, bisect, linear, double, unbound_search, getn_hash,
  getn,
}

-- An index that is 0 or has a value.
abbrev pub Present : (ℕ → Option ℕ) → ℕ → Type 0
Present value i = (i ≡ 0) ⊎ (ttisnil (value i) ≡ false)

-- A boundary: nil is behind it.
pub record IsBorder (value : ℕ → Option ℕ) (r : ℕ) : Type 0 where
  pub present : Present value r
  pub behind : ttisnil (value (r + 1)) ≡ true

-- A search that ended below `bound`.
pub data Finds (value : ℕ → Option ℕ) (bound : ℕ) : Option ℕ → Type 0 where
  finds : {r : ℕ} → r < bound → IsBorder value r → Finds value bound (some r)

Finds-le :
    (value : ℕ → Option ℕ) (a b : ℕ) (o : Option ℕ) → a ≤ b → Finds value a o → Finds value b o
Finds-le value a b (some r) h (finds lt border) = finds (omega arith) border
Finds-le value a b none h f = elim f [ ]

module _ (value : ℕ → Option ℕ) where
  bisect-Finds :
      (fuel i j : ℕ)
      → i < j
      → j - i ≤ fuel
      → Present value i
      → ttisnil (value j) ≡ true
      → Finds value j (bisect value fuel i j)
  unfolding bisect
  bisect-Finds zero i j lt h p q = absurd (omega arith)
  bisect-Finds (suc fuel) i j lt h p q =
      at (ltb 1 (j - i)) (ttisnil (value m)) refl refl
        (λ wide nil. bisect-Finds fuel i m (omega arith) (omega arith) p nil)
        (λ wide some_at. bisect-Finds fuel m j (omega arith) (omega arith) (inr some_at) q)
    where
      m : ℕ
      m = (i + j) / 2

      at :
          (wide nil : Bool)
          → ltb 1 (j - i) ≡ wide
          → ttisnil (value m) ≡ nil
          → (1 < j - i → ttisnil (value m) ≡ true → Finds value m (bisect value fuel i m))
          → (1 < j - i → ttisnil (value m) ≡ false → Finds value j (bisect value fuel m j))
          → Finds value j (
              if wide
              then (if nil then bisect value fuel i m else bisect value fuel m j)
              else some i)
      at true true w n lower upper =
          Finds-le value m j _ (omega (arith, ltb→lt _ _ w)) (lower (ltb→lt _ _ w) n)
      at true false w n lower upper = upper (ltb→lt _ _ w) n
      at false nil w n lower upper =
          let next : j ≡ i + 1 = omega (arith, not_ltb _ _ w) in
          finds lt (record { present = p; behind = subst (λ k. ttisnil (value k) ≡ true) next q })

  -- The linear search ends at the first nil, which is not behind the absent key m.
  linear-Finds :
      (m : ℕ)
      → ttisnil (value m) ≡ true
      → (fuel i : ℕ) → 1 ≤ i
      → i ≤ m
      → m - i < fuel
      → Present value (i - 1)
      → Finds value m (linear value fuel i)
  unfolding linear
  linear-Finds m nil zero i one le h p = absurd (omega arith)
  linear-Finds m nil (suc fuel) i one le h p = at (ttisnil (value i)) refl (λ lt some_at.
      linear-Finds m nil fuel (i + 1) (omega arith) (omega arith) (omega arith)
        (inr (subst (λ k. ttisnil (value k) ≡ false) (omega arith) some_at)))
    where
      at :
          (b : Bool)
          → ttisnil (value i) ≡ b
          → (i < m → ttisnil (value i) ≡ false → Finds value m (linear value fuel (i + 1)))
          → Finds value m (if b then some (i - 1) else linear value fuel (i + 1))
      at true e rest =
          finds (omega arith)
            (record { present = p; behind = subst (λ k. ttisnil (value k) ≡ true) (omega arith) e })
      at false e rest = rest (ground (arith, differ)) e
        where
          differ : i ≢ m
          differ same =
              let n : ttisnil (value i) ≡ true = ap (λ k. ttisnil (value k)) same ∙ nil in absurd cc

  double-Finds :
      (m : ℕ)
      → 1 ≤ m
      → m ≤ max_int
      → ttisnil (value m) ≡ true
      → (fuel i j : ℕ) → i < j
      → j ≤ max_int
      → suc max_int - j ≤ fuel
      → Present value i
      → Finds value max_int (double value fuel i j)
  unfolding double
  double-Finds m one le nil zero i j lt small h p = absurd (omega arith)
  double-Finds m one le nil (suc fuel) i j lt small h p =
      at (ttisnil (value j)) (ltb max_int (j * 2)) refl refl (λ short some_at.
        double-Finds m one le nil fuel j (j * 2) (omega arith) short (omega arith) (inr some_at))
    where
      at :
          (b c : Bool)
          → ttisnil (value j) ≡ b
          → ltb max_int (j * 2) ≡ c
          → (j * 2 ≤ max_int
              → ttisnil (value j) ≡ false
              → Finds value max_int (double value fuel j (j * 2)))
          → Finds value max_int (
              if b
              then bisect value j i j
              else (if c then linear value (suc max_int) 1 else double value fuel j (j * 2)))
      at true c e f rest =
          Finds-le value j max_int _ small (bisect-Finds j i j lt (omega arith) p e)
      at false true e f rest =
          Finds-le value m max_int _ le
            (linear-Finds m nil (suc max_int) 1 (omega arith) one (omega arith) (inl refl))
      at false false e f rest = rest (not_ltb _ _ f) e

module _ (t : Parts) where
  getnum-array : (k : ℕ) → 1 ≤ k → k ≤ length t.array → getnum t k ≡ array_at t k
  unfolding getnum
  getnum-array zero one le = absurd (omega arith)
  getnum-array (suc k) one le =
      sym (
        if_true (get_or t.array k none) (in_hash t.node (suc k))
          (lt→ltb k (length t.array) (omega arith)))
      ∙ ap (λ i. get_or t.array i none) (omega arith)

  getnum-behind : getnum t (suc (length t.array)) ≡ in_hash t.node (suc (length t.array))
  unfolding getnum
  getnum-behind = sym (
      if_false (get_or t.array (length t.array) none) (in_hash t.node (suc (length t.array)))
        (not_lt (length t.array) (length t.array) (omega arith)))

  getnum-hash : getnum t (length t.array + 1) ≡ in_hash t.node (length t.array + 1)
  getnum-hash =
      let next : length t.array + 1 ≡ suc (length t.array) = omega arith in
      ap (getnum t) next ∙ getnum-behind ∙ ap (in_hash t.node) (sym next)

  -- A boundary of the array that is not its end is one of the table.
  IsBorder-array : (r : ℕ) → r < length t.array → IsBorder (array_at t) r → IsBorder (getnum t) r
  IsBorder-array r lt border = record {
    present = at r lt border.present;
    behind = ap ttisnil (getnum-array (r + 1) (omega arith) (omega arith)) ∙ border.behind;
  }
    where
      at : (r : ℕ) → r < length t.array → Present (array_at t) r → Present (getnum t) r
      at r lt (inl zero_at) = inl zero_at
      at zero lt (inr some_at) = inl refl
      at (suc k) lt (inr some_at) =
          inr (ap ttisnil (getnum-array (suc k) (omega arith) (omega arith)) ∙ some_at)

  -- Where the array does not end in nil, its length has a value or is 0.
  Present-end :
      (ltb 0 (length t.array) && ttisnil (array_at t (length t.array))) ≡ false
      → Present (getnum t) (length t.array)
  Present-end e = at (length t.array) refl e
    where
      at :
          (j : ℕ)
          → length t.array ≡ j
          → (ltb 0 j && ttisnil (array_at t j)) ≡ false
          → Present (getnum t) j
      at zero l e = inl refl
      at (suc k) l e =
          inr (ap ttisnil (getnum-array (suc k) (omega arith) (omega arith)) ∙ some_at e)
        where
          some_at :
              (ltb 0 (suc k) && ttisnil (array_at t (suc k))) ≡ false
              → ttisnil (array_at t (suc k)) ≡ false
          some_at e = ground (arith, lt→ltb 0 (suc k))

  -- luaH_getn ends, and gives a boundary of the table, where the array has less than MAX_INT values
  -- and some integer key m up to MAX_INT is absent.
  pub getn-Finds :
      (m : ℕ)
      → 1 ≤ m
      → m ≤ max_int
      → ttisnil (getnum t m) ≡ true
      → length t.array < max_int
      → Finds (getnum t) max_int (getn t)
  unfolding getn getn_hash unbound_search
  getn-Finds m one le nil small =
      at (ltb 0 (length t.array)) (ttisnil (array_at t (length t.array))) t.node refl refl refl
    where
      inside : (o : Option ℕ) → Finds (array_at t) (length t.array) o → Finds (getnum t) max_int o
      inside (some r) (finds lt border) = finds (omega arith) (IsBorder-array r lt border)
      inside none f = elim f [ ]

      at_end :
          (n : Option (ℕ → Option ℕ))
          → t.node ≡ n
          → Present (getnum t) (length t.array)
          → Finds (getnum t) max_int (getn_hash t (length t.array) n)
      at_end none g p = finds small (record {
        present = p;
        behind = ap ttisnil (getnum-hash ∙ ap (λ h. in_hash h (length t.array + 1)) g);
      })
      at_end (some find) g p =
          double-Finds (getnum t) m one le nil (suc max_int) (length t.array) (length t.array + 1)
            (omega arith) (omega arith) (omega arith) p

      at :
          (a b : Bool) (n : Option (ℕ → Option ℕ))
          → ltb 0 (length t.array) ≡ a
          → ttisnil (array_at t (length t.array)) ≡ b
          → t.node ≡ n
          → Finds (getnum t) max_int (
              if a && b
              then bisect (array_at t) (length t.array) 0 (length t.array)
              else getn_hash t (length t.array) n)
      at true true n e f g = inside _ (
          bisect-Finds (array_at t) (length t.array) 0 (length t.array) (ltb→lt _ _ e) (omega arith)
            (inl refl) f)
      at true false n e f g =
          at_end n g
            (Present-end (ap (λ x. ltb 0 (length t.array) && x) f ∙ ap (λ x. x && false) e))
      at false b n e f g =
          at_end n g (Present-end (ap (λ x. x && ttisnil (array_at t (length t.array))) e))
