-- ===== src/Dump/Write.antt =====
-- luaU_dump hands the writer the blocks of the chunk in order, and stops at the first failure.
use hack_livesuite.Common.{
  ℕ, ◌≡◌, refl, sym, ◌∙◌, ap, ◌==◌, if◌then◌else◌, arith, Bool, true, false, List, [], ◌∷◌, ◌++◌,
  Option, none, some, Bool-cases, inl, inr, ==_iff, if_true, if_false,
}
use hack_livesuite.Proto.{TString, Constant, LocVar, Fields, Proto, Protos, proto, no_protos, more}
use hack_livesuite.Proto.{nil, boolean, number, string, other}
use hack_livesuite.Dump.{
  DumpState, Dumper, ◌⟫◌, dump_block, dump_char, dump_int, dump_size, dump_number, dump_vector,
  dump_string, dump_code, dump_constant, dump_each, dump_locvar, dump_debug, dump_constants,
  dump_prefix, dump_prefix_if, dump_debug_if, dump_list, dump_function, dump_protos, dump_header,
  dump,
}
use hack_livesuite.Dump.Blocks.{
  Blocks, char_blocks, int_blocks, long_blocks, vector_blocks, string_blocks, constant_blocks,
  each_blocks, locvar_blocks, list_blocks, debug_blocks, prefix_blocks, function_blocks,
  protos_blocks, chunk_blocks,
}

module _ {W : Type 0} (writer : W → List ℕ → W × ℕ) where
  -- A client's view of the protocol: each block in turn, until a call fails.
  unfoldable pub feed : W → Blocks → W × ℕ
  feed w [] = (w, 0)
  feed w (b ∷ bs) = let r = writer w b in let rest = feed r.0 bs in if r.1 == 0 then rest else r

  write_all : Blocks → Dumper writer
  write_all [] D = D
  write_all (b ∷ bs) D = write_all bs (dump_block writer b D)

  write_all-append :
      (bs cs : Blocks) (D : DumpState W) → write_all (bs ++ cs) D ≡ write_all cs (write_all bs D)
  unfolding write_all
  write_all-append [] cs D = refl
  write_all-append (b ∷ bs) cs D = write_all-append bs cs (dump_block writer b D)

  write_all-strip : (bs : Blocks) (D : DumpState W) → (write_all bs D).strip ≡ D.strip
  unfolding write_all
  write_all-strip [] D = refl
  write_all-strip (b ∷ bs) D =
      write_all-strip bs (dump_block writer b D) ∙ unfold dump_block in ground arith

  -- `f` writes just these blocks, in any state whose `strip` is the one given.
  record Emits (strip : Bool) (f : Dumper writer) (bs : Blocks) : Type 0 where
    apply : (D : DumpState W) → D.strip ≡ strip → f D ≡ write_all bs D

  module _ (strip : Bool) where
    Emits-block : (b : List ℕ) → Emits strip (dump_block writer b) (b ∷ [])
    unfolding write_all
    Emits-block b = record { apply = λ D h. refl }

    Emits-nothing : Emits strip (λ D. D) []
    unfolding write_all
    Emits-nothing = record { apply = λ D h. refl }

    Emits-⟫ :
        {f g : Dumper writer} {bs cs : Blocks}
        → Emits strip f bs
        → Emits strip g cs
        → Emits strip (◌⟫◌ writer f g) (bs ++ cs)
    Emits-⟫ {f} {g} {bs} {cs} hf hg = record {
      apply = λ D h.
          ap g (hf.apply D h)
          ∙ hg.apply (write_all bs D) (write_all-strip bs D ∙ h)
          ∙ sym (write_all-append bs cs D);
    }

    Emits-char : (x : ℕ) → Emits strip (dump_char writer x) (char_blocks x)
    unfolding dump_char
    Emits-char x = Emits-block _

    Emits-int : (x : ℕ) → Emits strip (dump_int writer x) (int_blocks x)
    unfolding dump_int
    Emits-int x = Emits-block _

    Emits-number : (x : ℕ) → Emits strip (dump_number writer x) (long_blocks x)
    unfolding dump_number
    Emits-number x = Emits-block _

    Emits-vector : (ws : List ℕ) → Emits strip (dump_vector writer ws) (vector_blocks ws)
    unfolding dump_vector
    Emits-vector ws = Emits-⟫ (Emits-int _) (Emits-block _)

    Emits-string : (s : Option TString) → Emits strip (dump_string writer s) (string_blocks s)
    unfolding dump_string dump_size
    Emits-string none = Emits-block _
    Emits-string (some s) = Emits-⟫ (Emits-block _) (Emits-block _)

    Emits-constant : (c : Constant) → Emits strip (dump_constant writer c) (constant_blocks c)
    unfolding dump_constant
    Emits-constant nil = Emits-char 0
    Emits-constant (boolean b) = Emits-⟫ (Emits-char 1) (Emits-char b)
    Emits-constant (number x) = Emits-⟫ (Emits-char 3) (Emits-number x)
    Emits-constant (string s) = Emits-⟫ (Emits-char 4) (Emits-string s)
    Emits-constant (other t) = Emits-char t

    Emits-each :
        {A : Type 0} (f : A → Dumper writer) (blocks : A → Blocks)
        → ((x : A) → Emits strip (f x) (blocks x))
        → (xs : List A) → Emits strip (dump_each writer f xs) (each_blocks blocks xs)
    unfolding dump_each
    Emits-each f blocks h [] = Emits-nothing
    Emits-each f blocks h (x ∷ xs) = Emits-⟫ (h x) (Emits-each f blocks h xs)

    Emits-list :
        {A : Type 0} (f : A → Dumper writer) (blocks : A → Blocks)
        → ((x : A) → Emits strip (f x) (blocks x))
        → (xs : List A) → Emits strip (dump_list writer f xs) (list_blocks blocks xs)
    unfolding dump_list
    Emits-list f blocks h xs = Emits-⟫ (Emits-int _) (Emits-each f blocks h xs)

    Emits-locvar : (v : LocVar) → Emits strip (dump_locvar writer v) (locvar_blocks v)
    unfolding dump_locvar
    Emits-locvar v =
        Emits-⟫ (Emits-string v.varname) (Emits-⟫ (Emits-int v.startpc) (Emits-int v.endpc))

    Emits-debug_if :
        (f : Fields) → Emits strip (dump_debug_if writer strip f) (debug_blocks strip f)
    unfolding dump_debug_if
    Emits-debug_if f =
        Emits-⟫ (Emits-vector _)
          (Emits-⟫ (Emits-list _ _ Emits-locvar _) (Emits-list _ _ Emits-string _))

    Emits-debug : (f : Fields) → Emits strip (dump_debug writer f) (debug_blocks strip f)
    unfolding dump_debug
    Emits-debug f = record {
      apply = λ D h. ap (λ s. dump_debug_if writer s f D) h ∙ (Emits-debug_if f).apply D h;
    }

    Emits-prefix_if :
        (f : Fields) (p : Option TString)
        → Emits strip (dump_prefix_if writer strip f p) (prefix_blocks strip f p)
    unfolding dump_prefix_if
    Emits-prefix_if f p = Emits-⟫ (Emits-string _) (
        Emits-⟫ (Emits-int _) (
          Emits-⟫ (Emits-int _) (
            Emits-⟫ (Emits-char _)
              (Emits-⟫ (Emits-char _) (Emits-⟫ (Emits-char _) (Emits-char _))))))

    Emits-prefix :
        (f : Fields) (p : Option TString)
        → Emits strip (dump_prefix writer f p) (prefix_blocks strip f p)
    unfolding dump_prefix
    Emits-prefix f p = record {
      apply = λ D h. ap (λ s. dump_prefix_if writer s f p D) h ∙ (Emits-prefix_if f p).apply D h;
    }

    Emits-constants :
        (f : Fields) → Emits strip (dump_constants writer f) (list_blocks constant_blocks f.k)
    unfolding dump_constants
    Emits-constants f = Emits-list _ _ Emits-constant f.k

    Emits-code : (f : Fields) → Emits strip (dump_code writer f) (vector_blocks f.code)
    unfolding dump_code
    Emits-code f = Emits-vector f.code

    mutual
      unfolding dump_function function_blocks

      Emits-function_rec :
          (f : Proto) (p : Option TString)
          → Emits strip (dump_function writer f p) (function_blocks strip f p)
      Emits-function_rec (proto f ps) p = Emits-⟫ (Emits-prefix f p) (
          Emits-⟫ (Emits-code f) (
            Emits-⟫ (Emits-constants f)
              (Emits-⟫ (Emits-int _) (Emits-⟫ (Emits-protos_rec ps f.source) (Emits-debug f)))))

      Emits-protos_rec :
          (ps : Protos) (p : Option TString)
          → Emits strip (dump_protos writer ps p) (protos_blocks strip ps p)
      Emits-protos_rec no_protos p = Emits-nothing
      Emits-protos_rec (more f ps) p = Emits-⟫ (Emits-function_rec f p) (Emits-protos_rec ps p)

  dump_block_failed :
      (b : List ℕ) (D : DumpState W) → (D.status == 0) ≡ false → dump_block writer b D ≡ D
  unfolding dump_block
  dump_block_failed b D h = rw h

  dump_block_called :
      (b : List ℕ) (D : DumpState W)
      → (D.status == 0) ≡ true
      → let r = writer D.user_data b in
        dump_block writer b D ≡ record D { user_data = r.0; status = r.1 }
  unfolding dump_block
  dump_block_called b D h = rw h

  -- After a failure nothing more is written.
  write_all-failed : (bs : Blocks) (D : DumpState W) → (D.status == 0) ≡ false → write_all bs D ≡ D
  unfolding write_all
  write_all-failed [] D h = refl
  write_all-failed (b ∷ bs) D h = rw (dump_block_failed b D h) (write_all-failed bs D h)

  abbrev outcome : DumpState W → W × ℕ
  outcome D = (D.user_data, D.status)

  write_all-feed :
      (bs : Blocks) (D : DumpState W)
      → (D.status == 0) ≡ true
      → outcome (write_all bs D) ≡ feed D.user_data bs
  unfolding write_all feed
  write_all-feed [] D h = rw ((==_iff D.status 0).0 h)
  write_all-feed (b ∷ bs) D h =
      let r = writer D.user_data b in
      let D1 : DumpState W = record D { user_data = r.0; status = r.1 } in
      ap (λ D'. outcome (write_all bs D')) (dump_block_called b D h)
      ∙ elim (Bool-cases (r.1 == 0)) [
        | inl ok ↦ write_all-feed bs D1 ok ∙ if_true (feed r.0 bs) r ok
        | inr failed ↦ ap outcome (write_all-failed bs D1 failed) ∙ if_false (feed r.0 bs) r failed
      ]

  Emits-dump :
      (strip : Bool) (f : Proto)
      → Emits strip
          (◌⟫◌ writer (dump_header writer) (dump_function writer f none))
          (chunk_blocks strip f)
  unfolding dump_header chunk_blocks
  Emits-dump strip f = Emits-⟫ strip (Emits-block strip _) (Emits-function_rec strip f none)

  -- luaU_dump is the client's loop over the blocks of the chunk: the writer is called with them in
  -- order until a call fails, and the caller gets the data and the status of the last call made.
  pub dump-feed :
      (f : Proto) (user_data : W) (strip : Bool)
      → dump writer f user_data strip ≡ feed user_data (chunk_blocks strip f)
  unfolding dump
  dump-feed f w strip =
      let D : DumpState W = record { user_data = w; strip = strip; status = 0 } in
      ap outcome ((Emits-dump strip f).apply D refl) ∙ write_all-feed (chunk_blocks strip f) D refl
