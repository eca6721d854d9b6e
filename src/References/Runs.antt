-- ===== src/References/Runs.antt =====
-- Runs of luaL_ref and luaL_unref.
use hack_livesuite.Common.{
  ℕ, ◌*◌, ◌^◌, zero, suc, ◌≤◌, ◌≡◌, ◌≢◌, inr, refl, arith, [], ◌∷◌, Option, none, some,
}
use hack_livesuite.Objects.Log2.{bits_of, log2_loop}
use hack_livesuite.References.{rawseti, ref_at, ref, unref}
use hack_livesuite.References.Valid.{IsValid, rawseti_both}
use hack_livesuite.References.Doubles.{doubles, doubles-ReadsBack}
use hack_livesuite.References.Free.{unref-IsValid, ref-unref}
use hack_livesuite.References.Give.{Gives, ref-Gives}

abbrev two_values : ℕ → Option ℕ
two_values = rawseti (rawseti (λ _. none) 1 (some 11)) 2 (some 12)

two_values-IsValid : IsValid doubles 2 [] two_values
two_values-IsValid = record {
  small = omega arith;
  free_list = refl;
  distinct = tt;
  inside = tt;
  held = λ k one le _. at k one le;
  fresh = λ k above.
      rawseti_both (λ _. none) 1 2 (some 11) (some 12) k (λ e. absurd (omega arith))
        (λ e. absurd (omega arith));
}
  where
    at : (k : ℕ) → 1 ≤ k → k ≤ 2 → two_values k ≢ none
    at zero one le e = absurd (omega arith)
    at (suc zero) one le e = cc
    at (suc (suc zero)) one le e = cc
    at (suc (suc (suc k))) one le e = absurd (omega arith)

gives_third : (ref doubles (some 13) two_values).0 ≡ 3
unfolding ref ref_at
gives_third = refl

-- The reference 1 as a double.
freed_slot : unref doubles 1 two_values 0 ≡ some (1023 * 2 ^ 52)
unfolding unref bits_of log2_loop
freed_slot = refl

ref-Gives_example : Gives doubles 2 [] two_values 13 (ref doubles (some 13) two_values)
ref-Gives_example =
    ref-Gives doubles doubles-ReadsBack 2 two_values 13 [] two_values-IsValid (omega arith)
      (record { end_held = inr (λ e. cc); nil_behind = refl })

unref-IsValid_example : IsValid doubles 2 (1 ∷ []) (unref doubles 1 two_values)
unref-IsValid_example =
    unref-IsValid doubles 2 1 [] two_values two_values-IsValid (omega arith, omega arith, tt)

ref-unref_example : (ref doubles (some 13) (unref doubles 1 two_values)).0 ≡ 1
ref-unref_example =
    ref-unref doubles 2 1 [] two_values two_values-IsValid (omega arith, omega arith, tt)
      doubles-ReadsBack 13
