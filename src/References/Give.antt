-- ===== src/References/Give.antt =====
-- luaL_ref: a reference that is not in use.
use hack_livesuite.Common.{
  ◌<◌, ◌^◌, ◌%◌, ℕ, zero, suc, ◌+◌, ◌≤◌, ◌≡◌, ◌≢◌, ◌⊎◌, inl, inr, refl, sym, subst, ◌∙◌, arith,
  true, false, ◌==◌, ==_iff, Bool-cases, List, [], ◌∷◌, Option, none, some,
}
use native.Mathlib.Decide.{dec_lt}
use hack_livesuite.Jumps.Lists.{Avoids}
use hack_livesuite.References.{Api, rawseti, first_free, next_ref, ref_at, ref}
use hack_livesuite.References.Valid.{
  ReadsBack, IsLength, FreeList, FreeList-same, IsValid, Live, rawseti_self, rawseti_other,
  rawseti_both, rawseti_first, rawseti_all, Avoids-zero,
}

-- What luaL_ref gives for a value: a reference that was not in use, at which the table holds the
-- value. The references in use stay so and keep their values.
pub data Gives {V : Type 0} (api : Api V) (n : ℕ) (free : List ℕ) (t : ℕ → Option V) (v : V)
    : ℕ × (ℕ → Option V) → Type 0 where
  gives :
      {r : ℕ} {t' : ℕ → Option V} (n' : ℕ) (free' : List ℕ)
      → (Live n free r → ⊥)
      → t' r ≡ some v
      → IsValid api n' free' t'
      → Live n' free' r
      → ((k : ℕ) → Live n free k → Live n' free' k × (t' k ≡ t k))
      → Gives api n free t v (r, t')

module _ {V : Type 0} (api : Api V) (back : ReadsBack api) (n : ℕ) (t : ℕ → Option V) (v : V) where
  -- The reference is the first of the free ones.
  Gives-free :
      (k : ℕ) (free : List ℕ)
      → IsValid api n (suc k ∷ free) t
      → Gives api n (suc k ∷ free) t v (ref_at api v (suc k) t)
  unfolding ref_at
  Gives-free k free valid =
      let (head, free_list) = valid.free_list in
      let (away, distinct) = valid.distinct in
      let ((one, le), inside) = valid.inside in
      let r = suc k in
      let zero_away : 0 ≢ r = λ e. absurd (omega arith) in
      let same = rawseti_all t 0 r (t r) (some v) free (Avoids-zero n free inside) away in
      gives n free (λ (_, _, (differ, _)). differ refl)
        (rawseti_self (rawseti t 0 (t r)) (some v) r)
        (record {
          small = valid.small;
          free_list =
              subst (λ o. FreeList api (rawseti (rawseti t 0 (t r)) r (some v)) o free)
                (sym (rawseti_first t 0 r (t r) (some v) zero_away))
                (FreeList-same api t (rawseti (rawseti t 0 (t r)) r (some v)) (t r) free same
                  free_list);
          distinct = distinct;
          inside = inside;
          held = λ j j_one j_le j_away. holds j j_one j_le j_away (Bool-cases (suc k == j));
          fresh = λ j above.
              rawseti_both t 0 r (t r) (some v) j (λ e. absurd (omega arith))
                (λ e. absurd (omega arith))
              ∙ valid.fresh j above;
        })
        (one, le, away)
        (λ j (j_one, j_le, (differ, j_away)). (
          (j_one, j_le, j_away),
          rawseti_both t 0 r (t r) (some v) j (λ e. absurd (omega arith)) (λ e. differ (sym e)),
        ))
    where
      holds :
          (j : ℕ)
          → 1 ≤ j
          → j ≤ n
          → Avoids j free
          → ((suc k == j) ≡ true) ⊎ ((suc k == j) ≡ false)
          → rawseti (rawseti t 0 (t (suc k))) (suc k) (some v) j ≢ none
      holds j one le away (inl e) is_nil =
          let same : suc k ≡ j = (==_iff (suc k) j).0 e in
          some_ne (
            sym (
              subst (λ i. rawseti (rawseti t 0 (t (suc k))) (suc k) (some v) i ≡ some v) same
                (rawseti_self (rawseti t 0 (t (suc k))) (some v) (suc k)))
            ∙ is_nil)
        where
          some_ne : some v ≢ none
          some_ne h = cc
      holds j one le away (inr e) is_nil =
          valid.held j one le (differs, away)
            (sym (
                rawseti_both t 0 (suc k) (t (suc k)) (some v) j (λ z. absurd (omega arith))
                  (λ z. differs (sym z)))
              ∙ is_nil)
        where
          differs : j ≢ suc k
          differs same = let eq = (==_iff (suc k) j).1 (sym same) in cc

  length-IsValid : IsValid api n [] t → (len : ℕ) → IsLength t len → len ≡ n
  length-IsValid valid len border = omega (arith, at_most, at_least)
    where
      ended : (len ≡ 0) ⊎ (t len ≢ none) → len ≤ n
      ended (inl z) = omega arith
      ended (inr held) = elim (dec_lt n len) [
        | yes above ↦ absurd (held (valid.fresh len above))
        | no below ↦ omega arith
      ]

      at_most : len ≤ n
      at_most = ended border.end_held

      at_least : n ≤ len
      at_least = elim (dec_lt len n) [
        | yes below ↦ absurd (valid.held (len + 1) (omega arith) (omega arith) tt border.nil_behind)
        | no above ↦ omega arith
      ]

  -- Where no reference is free, the next number is given.
  Gives-new :
      (len : ℕ)
      → suc n < 2 ^ 31
      → len ≡ n
      → IsValid api n [] t
      → Gives api n [] t v (len + 1, rawseti t (len + 1) (some v))
  Gives-new len room e valid =
      gives (suc n) [] (λ (_, le, _). absurd (omega arith)) (rawseti_self t (some v) (len + 1))
        (record {
          small = room;
          free_list =
              rawseti_other t (some v) (len + 1) 0 (λ z. absurd (omega arith)) ∙ valid.free_list;
          distinct = tt;
          inside = tt;
          held = λ j one le _. holds j one le (Bool-cases (len + 1 == j));
          fresh = λ j above.
              rawseti_other t (some v) (len + 1) j (λ z. absurd (omega arith))
              ∙ valid.fresh j (omega arith);
        })
        (omega arith, omega arith, tt)
        (λ j (one, le, _). (
          (one, omega arith, tt),
          rawseti_other t (some v) (len + 1) j (λ z. absurd (omega arith)),
        ))
    where
      holds :
          (j : ℕ)
          → 1 ≤ j
          → j ≤ suc n
          → ((len + 1 == j) ≡ true) ⊎ ((len + 1 == j) ≡ false)
          → rawseti t (len + 1) (some v) j ≢ none
      holds j one le (inl f) is_nil =
          let same : len + 1 ≡ j = (==_iff (len + 1) j).0 f in
          some_ne (
            sym (
              subst (λ i. rawseti t (len + 1) (some v) i ≡ some v) same
                (rawseti_self t (some v) (len + 1)))
            ∙ is_nil)
        where
          some_ne : some v ≢ none
          some_ne h = cc
      holds j one le (inr f) is_nil =
          valid.held j one (ground (arith, e, differs)) tt
            (sym (rawseti_other t (some v) (len + 1) j (λ z. differs (sym z))) ∙ is_nil)
        where
          differs : j ≢ len + 1
          differs same = let eq = (==_iff (len + 1) j).1 (sym same) in cc

  -- luaL_ref of a value that is not nil does what `Gives` says, on a valid table that has room for
  -- one more int as a reference and whose length lua_objlen gives as a boundary, where
  -- lua_tointeger reads back the ints.
  pub ref-Gives :
      (free : List ℕ)
      → IsValid api n free t
      → suc n < 2 ^ 31
      → IsLength t (api.objlen t)
      → Gives api n free t v (ref api (some v) t)
  unfolding ref ref_at
  ref-Gives [] valid room border =
      let len : api.objlen t ≡ n = length-IsValid valid (api.objlen t) border in
      let next : api.objlen t + 1 ≡ next_ref api t = omega (arith, len) in
      subst (λ o. Gives api n [] t v (ref_at api v (first_free api o) t)) (sym valid.free_list)
        (subst (λ r. Gives api n [] t v (r, rawseti t r (some v))) next
          (Gives-new (api.objlen t) room len valid))
  ref-Gives (zero ∷ free) valid room border = absurd (omega (arith, valid.inside.0.0))
  ref-Gives (suc k ∷ free) valid room border =
      let int : suc k < 2 ^ 31 = omega (arith, valid.inside.0.1, valid.small) in
      let read : suc k ≡ api.tointeger (api.pushinteger (suc k)) % 2 ^ 32 =
        omega (arith, back (suc k) int) in
      subst (λ o. Gives api n (suc k ∷ free) t v (ref_at api v (first_free api o) t))
        (sym valid.free_list.0)
        (subst (λ i. Gives api n (suc k ∷ free) t v (ref_at api v i t)) read
          (Gives-free k free valid))
