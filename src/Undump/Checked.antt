-- ===== src/Undump/Checked.antt =====
-- What luaU_undump has made sure of when it returns a function.
use hack_livesuite.Common.{
  ℕ, zero, suc, ◌≡◌, refl, sym, ◌∙◌, subst, List, Option, take, Bool-cases, inl, inr,
}
use hack_livesuite.Zio.{Zio}
use hack_livesuite.Zio.Stream.{stream}
use hack_livesuite.Proto.{
  Verdict, accepted, rejected, crashed, Proto, Protos, proto, no_protos, more, same_bytes,
  same_bytes→eq,
}
use hack_livesuite.Dump.{header}
use hack_livesuite.Undump.{
  Load, ok, err, pure, ◌>>=◌, bad_header, load_block, load_vector, load_constants, load_int,
  load_debug, load_protos, load_prefix, load_unchecked, load_body, judge, checked, load_function,
  load_header, undump,
}
use hack_livesuite.Undump.Regular.{bind-eq-ok, load_block-eq-ok}

-- `P` holds of what the loader returns.
record Ensures {A : Type 0} (load : Load A) (P : A → Type 0) : Type 0 where
  apply : (z z' : Zio) (a : A) → load z ≡ ok a z' → P a

Ensures-bind :
    {A B : Type 0} {load : Load A} {P : A → Type 0} {Q : B → Type 0} (next : A → Load B)
    → Ensures load P
    → ((a : A) → P a → Ensures (next a) Q)
    → Ensures (load >>= next) Q
Ensures-bind {load} next p q = record {
  apply = λ z z' b e.
      let (a, z1, e1, e2) = bind-eq-ok (load z) next e in
      (q a (p.apply z z1 a e1)).apply z1 z' b e2;
}

abbrev Anything : {A : Type 0} → A → Type 0
Anything a = Unit {0}

Ensures-Anything : {A : Type 0} (load : Load A) → Ensures load Anything
Ensures-Anything load = record { apply = λ z z' a e. tt }

Ensures-pure : {A : Type 0} (P : A → Type 0) (a : A) → P a → Ensures (pure a) P
Ensures-pure P a h = record { apply = λ z z' b e. let same : a ≡ b = cc in subst P same h }

module _ (code_ok : Proto → Verdict) where
  -- The verifier has accepted the function and every function inside it.
  unfoldable mutual
    pub IsChecked : Proto → Type 0
    IsChecked (proto f ps) = (code_ok (proto f ps) ≡ accepted) × AreChecked ps

    pub AreChecked : Protos → Type 0
    AreChecked no_protos = Unit {0}
    AreChecked (more f ps) = IsChecked f × AreChecked ps

  -- The verifier has accepted the functions inside a function.
  abbrev InnerChecked : Proto → Type 0
  InnerChecked (proto f ps) = AreChecked ps

  Ensures-checked : (f : Proto) → InnerChecked f → Ensures (checked code_ok f) IsChecked
  unfolding checked IsChecked
  Ensures-checked (proto f ps) h = record {
    apply = λ z z' g e. at z z' g (code_ok (proto f ps)) refl e;
  }
    where
      at :
          (z z' : Zio) (g : Proto) (v : Verdict)
          → code_ok (proto f ps) ≡ v
          → judge code_ok v (proto f ps) z ≡ ok g z'
          → IsChecked g
      at z z' g accepted good e = let same : proto f ps ≡ g = cc in subst IsChecked same (good, h)
      at z z' g rejected bad e = cc
      at z z' g crashed bad e = cc

  Ensures-protos :
      (load : Load Proto)
      → Ensures load IsChecked
      → (n : ℕ) → Ensures (load_protos load n) AreChecked
  unfolding load_protos IsChecked
  Ensures-protos load h zero = Ensures-pure AreChecked no_protos tt
  Ensures-protos load h (suc n) =
      Ensures-bind _ h (λ f c.
        Ensures-bind _ (Ensures-protos load h n) (λ fs cs. Ensures-pure AreChecked _ (c, cs)))

  Ensures-function :
      (fuel : ℕ) (p : Option (List ℕ)) → Ensures (load_function code_ok fuel p) IsChecked
  unfolding load_function load_body load_unchecked
  Ensures-function zero p = record { apply = λ z z' a e. cc }
  Ensures-function (suc fuel) p =
      Ensures-bind _
        (Ensures-bind _ (Ensures-Anything (load_prefix p)) (λ f _.
          Ensures-bind _ (Ensures-Anything load_vector) (λ code _.
            Ensures-bind _ (Ensures-Anything load_constants) (λ k _.
              Ensures-bind _ (Ensures-Anything load_int) (λ n _.
                Ensures-bind _ (Ensures-protos _ (Ensures-function fuel f.source) n) (λ ps cs.
                  Ensures-bind _ (Ensures-Anything load_debug)
                    (λ d _. Ensures-pure InnerChecked _ cs)))))))
        Ensures-checked

  -- A function that luaU_undump returns has passed the verifier, with every function inside it.
  pub undump-IsChecked :
      (fuel : ℕ) (z z' : Zio) (f : Proto) → undump code_ok fuel z ≡ ok f z' → IsChecked f
  unfolding undump
  undump-IsChecked fuel =
      (Ensures-bind _ (Ensures-Anything load_header) (λ _ _. Ensures-function fuel _)).apply

  -- A chunk that is accepted begins with the header.
  pub undump-header :
      (fuel : ℕ) (z z' : Zio) (f : Proto)
      → undump code_ok fuel z ≡ ok f z'
      → take 12 (stream z) ≡ header
  unfolding undump load_header
  undump-header fuel z z' f e =
      let (u, z1, e1, e2) = bind-eq-ok (load_header z) _ e in
      let (h, z2, e3, e4) = bind-eq-ok (load_block 12 z) _ e1 in
      let (long, b, d) = load_block-eq-ok 12 z z2 h e3 in
      elim (Bool-cases (same_bytes header h)) [
        | inl same ↦ sym b ∙ sym (same_bytes→eq header h same)
        | inr differ ↦ let thrown : err bad_header ≡ ok u z1 = rw differ at e4 in cc
      ]
