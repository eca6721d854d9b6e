-- ===== src/Undump/RoundTrip.antt =====
-- luaU_undump reads back what luaU_dump wrote.
use hack_livesuite.Common.{
  ℕ, zero, suc, ◌≤◌, ◌≡◌, refl, ap, arith, if◌then◌else◌, Bool, true, false, ◌||◌, [], ◌∷◌, Option,
  none, some, ◌⊎◌, inl, inr, Bool-cases,
}
use hack_livesuite.Proto.{
  Verdict, accepted, TString, Constant, LocVar, Fields, Proto, Protos, count_protos, same_string,
  same_bytes, same_string→eq, proto, no_protos, more,
}
use hack_livesuite.Proto.{nil, boolean, number, string, other}
use hack_livesuite.Dump.{header}
use hack_livesuite.Dump.Blocks.{
  constant_blocks, locvar_blocks, debug_blocks, prefix_blocks, function_blocks, protos_blocks,
  chunk_blocks,
}
use hack_livesuite.Undump.{
  or_parent, load_constant, load_constant_of, load_constants, load_locvar, load_debug, load_protos,
  load_prefix, checked, load_unchecked, load_body, load_function, load_header, undump,
  unknown_source,
}
use hack_livesuite.Undump.View.{
  ConstantFits, LocVarFits, FieldsFit, debug_view, source_view, view, view_protos, depth,
  depth_protos, Fits, ProtosFit,
}
use hack_livesuite.Undump.Reads.{
  Reads, Reads-pure, Reads-bind, Reads-map, Reads-char, Reads-byte, Reads-int, Reads-number,
  Reads-string, Reads-vector, Reads-list, Reads-block, StringFits,
}

pub Reads-constant : (c : Constant) → ConstantFits c → Reads load_constant (constant_blocks c) c
unfolding load_constant load_constant_of
Reads-constant nil h = Reads-map _ (Reads-char 0 (omega arith)) (Reads-pure nil)
Reads-constant (boolean b) h =
    Reads-bind _ (Reads-char 1 (omega arith)) (Reads-map _ (Reads-char b h) (Reads-pure _))
Reads-constant (number x) h =
    Reads-bind _ (Reads-char 3 (omega arith)) (Reads-map _ (Reads-number x h) (Reads-pure _))
Reads-constant (string s) h =
    Reads-bind _ (Reads-char 4 (omega arith)) (Reads-map _ (Reads-string s h) (Reads-pure _))
Reads-constant (other t) h = absurd h

pub Reads-locvar : (v : LocVar) → LocVarFits v → Reads load_locvar (locvar_blocks v) v
unfolding load_locvar
Reads-locvar v h =
    Reads-bind _ (Reads-string v.varname h.0)
      (Reads-bind _ (Reads-int v.startpc h.1) (Reads-map _ (Reads-int v.endpc h.2) (Reads-pure v)))

Reads-debug :
    (strip : Bool) (f : Fields)
    → FieldsFit f
    → Reads load_debug (debug_blocks strip f) (debug_view strip f)
unfolding load_debug
Reads-debug true f h = Reads-bind _ (Reads-vector [] (omega arith) tt) (
    Reads-bind _ (Reads-list _ _ _ Reads-locvar [] (omega arith) tt)
      (Reads-map _ (Reads-list _ _ _ Reads-string [] (omega arith) tt) (Reads-pure _)))
Reads-debug false f h = Reads-bind _ (Reads-vector f.lineinfo h.lineinfo.0 h.lineinfo.1) (
    Reads-bind _ (Reads-list _ _ _ Reads-locvar f.locvars h.locvars.0 h.locvars.1) (
      Reads-map _ (Reads-list _ _ _ Reads-string f.upvalues h.upvalues.0 h.upvalues.1)
        (Reads-pure _)))

-- The source that the dumper compares with, and the one that the loader falls back on.
abbrev Linked : Bool → Option TString → Option TString → Type 0
Linked strip p p' = (strip ≡ true) ⊎ (p ≡ none) ⊎ (p ≡ p')

parent_source : (s p p' : Option TString) → s ≡ p → Linked false p p' → p' ≡ or_parent s p'
parent_source s p p' e (inl h) = cc
parent_source none p p' e (inr h) = refl
parent_source (some s) p p' e (inr (inl h)) = cc
parent_source (some s) p p' e (inr (inr h)) = rw (← h, ← e)

source_back :
    (strip : Bool) (s p p' : Option TString)
    → Linked strip p p'
    → or_parent (if same_string s p || strip then none else s) p' ≡ source_view strip s p'
source_back true s p p' h =
    ap (λ b. or_parent (if b then none else s) p') (or_true (same_string s p))
  where
    or_true : (b : Bool) → (b || true) ≡ true
    or_true true = refl
    or_true false = refl
source_back false s p p' h = elim (Bool-cases (same_string s p)) [
  | inl same ↦ rw same (parent_source s p p' (same_string→eq s p same) h)
  | inr differ ↦ rw differ
]

Linked-source_view : (strip : Bool) (s p : Option TString) → Linked strip s (source_view strip s p)
Linked-source_view true s p = inl refl
Linked-source_view false none p = inr (inl refl)
Linked-source_view false (some s) p = inr (inr refl)

StringFits-if : (b : Bool) (s : Option TString) → StringFits s → StringFits (if b then none else s)
StringFits-if true s h = tt
StringFits-if false s h = h

Reads-prefix :
    (strip : Bool) (f : Fields) (p p' : Option TString)
    → FieldsFit f
    → Linked strip p p'
    → Reads (load_prefix p') (prefix_blocks strip f p) (record f {
      k = [];
      code = [];
      lineinfo = [];
      locvars = [];
      upvalues = [];
      source = source_view strip f.source p';
    })
unfolding load_prefix
Reads-prefix strip f p p' h l =
    let s = if same_string f.source p || strip then none else f.source in
    Reads-bind _
      (Reads-string s (StringFits-if (same_string f.source p || strip) f.source h.source))
      (Reads-bind _ (Reads-int f.linedefined h.linedefined) (
        Reads-bind _ (Reads-int f.lastlinedefined h.lastlinedefined) (
          Reads-bind _ (Reads-byte f.nups h.nups) (
            Reads-bind _ (Reads-byte f.numparams h.numparams) (
              Reads-bind _ (Reads-byte f.is_vararg h.is_vararg) (
                Reads-map _ (Reads-byte f.maxstacksize h.maxstacksize)
                  (rw (source_back strip f.source p p' l) (Reads-pure _))))))))

module _ (code_ok : Proto → Verdict) (strip : Bool) where
  Reads-checked : (f : Proto) → code_ok f ≡ accepted → Reads (checked code_ok f) [] f
  unfolding checked
  Reads-checked f h = rw h (Reads-pure f)

  mutual
    unfolding function_blocks view depth Fits load_function load_protos load_body load_unchecked
        load_constants

    Reads-function_rec :
        (f : Proto) (fuel : ℕ) (p p' : Option TString)
        → depth f ≤ fuel
        → Linked strip p p'
        → Fits code_ok strip f p'
        → Reads (load_function code_ok fuel p') (function_blocks strip f p) (view strip f p')
    Reads-function_rec (proto f ps) zero p p' d l h = absurd (omega arith)
    Reads-function_rec (proto f ps) (suc fuel) p p' d l (fit, n, good, inner) =
        let s = source_view strip f.source p' in
        Reads-map _
          (Reads-bind _ (Reads-prefix strip f p p' fit l) (
            Reads-bind _ (Reads-vector f.code fit.code.0 fit.code.1) (
              Reads-bind _ (Reads-list _ _ _ Reads-constant f.k fit.k.0 fit.k.1) (
                Reads-bind _ (Reads-int (count_protos ps) n) (
                  Reads-bind _
                    (Reads-protos_rec ps fuel f.source s (omega arith)
                      (Linked-source_view strip f.source p') inner)
                    (Reads-map _ (Reads-debug strip f fit) (Reads-pure _)))))))
          (Reads-checked _ good)

    Reads-protos_rec :
        (ps : Protos) (fuel : ℕ) (p p' : Option TString)
        → depth_protos ps ≤ fuel
        → Linked strip p p'
        → ProtosFit code_ok strip ps p'
        → Reads
            (load_protos (load_function code_ok fuel p') (count_protos ps))
            (protos_blocks strip ps p)
            (view_protos strip ps p')
    Reads-protos_rec no_protos fuel p p' d l h = Reads-pure no_protos
    Reads-protos_rec (more f ps) fuel p p' d l (hf, hps) =
        Reads-bind _ (Reads-function_rec f fuel p p' (omega arith) l hf)
          (Reads-map _ (Reads-protos_rec ps fuel p p' (omega arith) l hps) (Reads-pure _))

  Reads-header : Reads (load_header) (header ∷ []) tt
  unfolding load_header same_bytes
  Reads-header = Reads-map _ (Reads-block 12 header refl) (Reads-pure tt)

  pub Reads-chunk :
      (f : Proto) (fuel : ℕ)
      → depth f ≤ fuel
      → Fits code_ok strip f (some unknown_source)
      → Reads (undump code_ok fuel) (chunk_blocks strip f) (view strip f (some unknown_source))
  unfolding undump chunk_blocks
  Reads-chunk f fuel d h =
      Reads-bind _ Reads-header (Reads-function_rec f fuel none _ d (inr (inl refl)) h)
