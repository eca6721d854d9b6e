-- ===== src/References/Free.antt =====
-- luaL_unref: a reference becomes free.
use hack_livesuite.Common.{
  ◌<◌, ◌^◌, ◌%◌, if_true, lt→ltb, ℕ, zero, suc, ◌≤◌, ◌≡◌, ◌≢◌, sym, subst, ◌∙◌, arith, List, ◌∷◌,
  Option, some,
}
use hack_livesuite.References.{Api, rawseti, ref_at, ref, unref}
use hack_livesuite.References.Valid.{
  ReadsBack, FreeList, FreeList-same, IsValid, Live, rawseti_self, rawseti_both, rawseti_first,
  rawseti_all, Avoids-zero,
}

ref_at-positive :
    {V : Type 0} (api : Api V) (v : V) (t : ℕ → Option V) (k r : ℕ)
    → k ≡ r
    → 1 ≤ r
    → (ref_at api v k t).0 ≡ r
unfolding ref_at
ref_at-positive api v t zero r e h = absurd (omega arith)
ref_at-positive api v t (suc k) r e h = e

module _ {V : Type 0} (api : Api V) (n r : ℕ) (free : List ℕ) (t : ℕ → Option V)
    (valid : IsValid api n free t) (live : Live n free r) where
  abbrev freed : ℕ → Option V
  freed = rawseti (rawseti t r (t 0)) 0 (some (api.pushinteger r))

  unref-eq : freed ≡ unref api r t
  unfolding unref
  unref-eq = if_true freed t (lt→ltb r (2 ^ 31) (omega (arith, live.1, valid.small)))

  freed-IsValid : IsValid api n (r ∷ free) freed
  freed-IsValid =
      let (one, le, away) = live in
      let zero_away : r ≢ 0 = λ e. absurd (omega arith) in
      let here = rawseti_first t r 0 (t 0) (some (api.pushinteger r)) zero_away in
      let same =
        rawseti_all t r 0 (t 0) (some (api.pushinteger r)) free away
          (Avoids-zero n free valid.inside) in
      record {
        small = valid.small;
        free_list = (
          rawseti_self (rawseti t r (t 0)) (some (api.pushinteger r)) 0,
          subst (λ o. FreeList api freed o free) (sym here)
              (FreeList-same api t freed (t 0) free same valid.free_list),
        );
        distinct = (away, valid.distinct);
        inside = ((one, le), valid.inside);
        held = λ k k_one k_le (differ, k_away) is_nil. valid.held k k_one k_le k_away (
            sym (
              rawseti_both t r 0 (t 0) (some (api.pushinteger r)) k (λ e. differ (sym e))
                (λ e. absurd (omega arith)))
            ∙ is_nil);
        fresh = λ k above.
            rawseti_both t r 0 (t 0) (some (api.pushinteger r)) k (λ e. absurd (omega arith))
              (λ e. absurd (omega arith))
            ∙ valid.fresh k above;
      }

  -- A reference in use is the first free one when luaL_unref has freed it, in a valid table.
  pub unref-IsValid : IsValid api n (r ∷ free) (unref api r t)
  unref-IsValid = subst (IsValid api n (r ∷ free)) unref-eq freed-IsValid

  ref-freed : ReadsBack api → (v : V) → (ref api (some v) freed).0 ≡ r
  unfolding ref
  ref-freed back v =
      let int : r < 2 ^ 31 = omega (arith, live.1, valid.small) in
      ref_at-positive api v freed (api.tointeger (api.pushinteger r) % 2 ^ 32) r
        (omega (arith, back r int)) live.0

  -- On a valid table, after luaL_unref of a reference in use, the next luaL_ref of a value that is
  -- not nil gives that reference, where lua_tointeger reads back the ints.
  pub ref-unref : ReadsBack api → (v : V) → (ref api (some v) (unref api r t)).0 ≡ r
  ref-unref back v = subst (λ u. (ref api (some v) u).0 ≡ r) unref-eq (ref-freed back v)
