-- ===== src/Undump/Total.antt =====
-- luaU_undump on any input: how it ends, whatever the bytes, and that it refuses a chunk that is cut
-- short.
use hack_livesuite.Common.{
  ℕ, zero, suc, ◌-◌, ◌≤◌, ◌<◌, ◌≡◌, ◌⊎◌, inl, inr, refl, sym, ◌∙◌, ap, arith, Bool, List, [], ◌∷◌,
  ◌++◌, Option, some, length, concat, append-nil, length-append,
}
use hack_livesuite.Zio.{Zio}
use hack_livesuite.Zio.Stream.{stream, stream_buffered}
use hack_livesuite.Proto.{Verdict, accepted, rejected, crashed, TString, Proto}
use hack_livesuite.Dump.Blocks.{chunk_blocks}
use hack_livesuite.Undump.{
  Load, Loaded, ok, err, stack_overflow, LoadError, bad_header, load_constant, load_constants,
  checked, judge, load_unchecked, load_body, bind_loaded, crash, load_function, load_header, undump,
  unknown_source,
}
use hack_livesuite.Undump.View.{view, depth, Fits}
use hack_livesuite.Undump.RoundTrip.{Reads-chunk}
use hack_livesuite.Undump.Regular.{
  Regular, Regular-pure, Regular-block, Regular-bind, Regular-then, Regular-weaken, Ended, finished,
  thrown, blamed, bind-eq-ok, bind-eq-crash,
}
use hack_livesuite.Undump.Pieces.{
  Regular-error_if, Regular-vector, Regular-list, Regular-constant, Regular-debug, Regular-protos,
  Regular-prefix, Regular-int,
}

-- The place in the input is the start of a function that is read and then crashes the verifier.
pub record CrashesAt (code_ok : Proto → Verdict) (back : List ℕ) : Type 0 where
  pub fuel : ℕ
  pub parent : Option TString
  pub start : Zio
  pub rest : Zio
  pub function : Proto
  pub input : stream start ≡ back
  pub reads : load_unchecked (load_function code_ok fuel) parent start ≡ ok function rest
  pub verdict : code_ok function ≡ crashed

module _ (code_ok : Proto → Verdict) where
  abbrev Bad : List ℕ → Type 0
  Bad = CrashesAt code_ok

  judge-extends :
      (v : Verdict) (f g : Proto) (z y z' : Zio) (more : List ℕ)
      → stream y ≡ stream z ++ more
      → judge code_ok v f z ≡ ok g z'
      → (y' : Zio) × (judge code_ok v f y ≡ ok g y') × (stream y' ≡ stream z' ++ more)
  judge-extends accepted f g z y z' more s e =
      let same : z ≡ z' = cc in (y, cc, s ∙ ap (λ w. stream w ++ more) same)
  judge-extends rejected f g z y z' more s e = cc
  judge-extends crashed f g z y z' more s e = cc

  judge-crash :
      (v : Verdict) (f : Proto) (z y : Zio)
      → judge code_ok v f z ≡ crash
      → judge code_ok v f y ≡ crash
  judge-crash accepted f z y e = cc
  judge-crash rejected f z y e = cc
  judge-crash crashed f z y e = refl

  Regular-unchecked :
      (limit : ℕ) (load : Option TString → Load Proto) (p : Option TString)
      → (8 ≤ limit → (s : Option TString) → Regular Bad (limit - 8) 0 (load s))
      → Regular Bad limit 8 (load_unchecked load p)
  unfolding load_unchecked load_constants
  Regular-unchecked limit load p h =
      let left : ℕ = limit - 8 in
      Regular-bind _ (Regular-prefix limit p) (λ g f. Regular-then _ (Regular-vector left) (λ code.
        Regular-then _ (Regular-list left load_constant (Regular-constant left)) (λ k.
          Regular-then _ (Regular-int left) (λ n.
            Regular-then _ (Regular-protos left (load f.source) (h g f.source) n)
              (λ ps. Regular-then _ (Regular-debug left) (λ d. Regular-pure left _))))))

  module _ (fuel : ℕ) (p : Option TString) (limit : ℕ)
      (r : Regular Bad limit 8 (load_unchecked (load_function code_ok fuel) p)) where
    -- A crash after a function was read is one that the start of the function is to blame for.
    Ended-body :
        (z : Zio) (m : Loaded Proto)
        → load_unchecked (load_function code_ok fuel) p z ≡ m
        → Ended Bad (stream z) 8 m
        → Ended Bad (stream z) 8 (bind_loaded m (checked code_ok))
    unfolding checked
    Ended-body z (ok f z1) e (finished front s h) = at (code_ok f) refl
      where
        at : (v : Verdict) → code_ok f ≡ v → Ended Bad (stream z) 8 (judge code_ok v f z1)
        at accepted v = finished front s h
        at rejected v = thrown
        at crashed v = blamed [] (stream z) refl (record {
          fuel = fuel;
          parent = p;
          start = z;
          rest = z1;
          function = f;
          input = refl;
          reads = e;
          verdict = v;
        })
    Ended-body z (err x) e thrown = thrown
    Ended-body z crash e (blamed front back s bad) = blamed front back s bad
    Ended-body z stack_overflow e h = elim h [ ]

    Regular-body : Regular Bad limit 8 (load_body code_ok (load_function code_ok fuel) p)
    unfolding load_body checked
    Regular-body = record {
      ends = λ z h. Ended-body z _ refl (r.ends z h);
      extends = λ z y z' more b h s e.
          let (f, z1, e1, e2) =
            bind-eq-ok (load_unchecked (load_function code_ok fuel) p z) (checked code_ok) e in
          let (y1, f1, s1) = r.extends z y z1 more f h s e1 in
          let (y2, f2, s2) = judge-extends (code_ok f) f b z1 y1 z' more s1 e2 in
          (y2, ap (λ m. bind_loaded m (checked code_ok)) f1 ∙ f2, s2);
      crashes = λ z y more h s e.
          later z y more h s
            (bind-eq-crash (load_unchecked (load_function code_ok fuel) p z) (checked code_ok) e);
    }
      where
        later :
            (z y : Zio) (more : List ℕ)
            → length (stream z) ≤ limit
            → stream y ≡ stream z ++ more
            → (load_unchecked (load_function code_ok fuel) p z ≡ crash)
              ⊎ ((f : Proto) × (z1 : Zio) × (load_unchecked (load_function code_ok fuel) p z
                    ≡ ok f z1)
                  × (judge code_ok (code_ok f) f z1 ≡ crash))
            → bind_loaded (load_unchecked (load_function code_ok fuel) p y) (checked code_ok)
              ≡ crash
        later z y more h s (inl e) =
            ap (λ m. bind_loaded m (checked code_ok)) (r.crashes z y more h s e)
        later z y more h s (inr (f, z1, e1, e2)) =
            let (y1, f1, s1) = r.extends z y z1 more f h s e1 in
            ap (λ m. bind_loaded m (checked code_ok)) f1 ∙ judge-crash (code_ok f) f z1 y1 e2

  -- A C stack for more calls than there are bytes is enough.
  Regular-function :
      (fuel limit : ℕ) (p : Option TString)
      → limit < fuel
      → Regular Bad limit 8 (load_function code_ok fuel p)
  unfolding load_function
  Regular-function zero limit p h = absurd (omega arith)
  Regular-function (suc fuel) limit p h = Regular-body fuel p limit (
      Regular-unchecked limit (load_function code_ok fuel) p
        (λ g s. Regular-weaken (Regular-function fuel (limit - 8) s (omega arith))))

  Regular-undump : (fuel limit : ℕ) → limit < fuel → Regular Bad limit 12 (undump code_ok fuel)
  unfolding undump load_header
  Regular-undump fuel limit h =
      Regular-bind _
        (Regular-bind _ (Regular-block limit 12)
          (λ _ b. Regular-error_if (limit - 12) _ bad_header))
        (λ g _.
          Regular-weaken (Regular-function fuel (limit - 12) (some unknown_source) (omega arith)))

  -- With a C stack for more nested calls of LoadFunction than the stream has bytes, the loader ends
  -- on every input: it returns a function, throws an error, or crashes in the verifier on a
  -- function that it has read from the input.
  pub undump-Ended :
      (fuel : ℕ) (z : Zio)
      → length (stream z) < fuel
      → Ended (CrashesAt code_ok) (stream z) 12 (undump code_ok fuel z)
  undump-Ended fuel z h = (Regular-undump fuel (length (stream z)) h).ends z (omega arith)

  -- A chunk that is cut short is refused with an error, wherever the cut falls.
  pub undump_truncated :
      (strip : Bool) (f : Proto) (fuel : ℕ) (z : Zio) (x : ℕ) (back : List ℕ)
      → depth f ≤ fuel
      → length (stream z) < fuel
      → Fits code_ok strip f (some unknown_source)
      → concat (chunk_blocks strip f) ≡ stream z ++ (x ∷ back)
      → (e : LoadError) × (undump code_ok fuel z ≡ err e)
  undump_truncated strip f fuel z x back d h fit whole =
      refused (undump code_ok fuel z) refl (regular.ends z (omega arith))
    where
      regular : Regular Bad (length (stream z)) 12 (undump code_ok fuel)
      regular = Regular-undump fuel (length (stream z)) h

      y : Zio
      y = record { blocks = []; buffered = concat (chunk_blocks strip f) }

      refused :
          (r : Loaded Proto)
          → undump code_ok fuel z ≡ r
          → Ended Bad (stream z) 12 r
          → (e : LoadError) × (r ≡ err e)
      refused (err e) q k = (e, refl)
      refused stack_overflow q k = elim k [ ]
      refused crash q k =
          let whole_y = stream_buffered (concat (chunk_blocks strip f)) in
          let (y2, e2, s2) =
            (Reads-chunk code_ok strip f fuel d fit).apply y [] (whole_y ∙ sym (append-nil _)) in
          let e1 = regular.crashes z y (x ∷ back) (omega arith) (whole_y ∙ whole) q in
          absurd (let both : crash ≡ ok (view strip f (some unknown_source)) y2 = sym e1 ∙ e2 in cc)
      refused (ok g z') q k =
          let whole_y = stream_buffered (concat (chunk_blocks strip f)) in
          let (y1, e1, s1) =
            regular.extends z y z' (x ∷ back) g (omega arith) (whole_y ∙ whole) q in
          let (y2, e2, s2) =
            (Reads-chunk code_ok strip f fuel d fit).apply y [] (whole_y ∙ sym (append-nil _)) in
          let same : y1 ≡ y2 = cc (e1, e2) in
          absurd (
            omega (
              arith,
              ap length s1,
              ap length s2,
              ap (λ w. length (stream w)) same,
              length-append (stream z') (x ∷ back),
            ))
