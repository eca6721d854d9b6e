-- ===== src/Undump/Regular.antt =====
-- How loaders treat any input, well formed or not: they end, they take a number of bytes at least,
-- and bytes that are added behind the input change nothing.
use hack_livesuite.Common.{
  ◌≢◌, ◌⊎◌, [], append_assoc, length-take, take-append-drop, ℕ, ◌+◌, ◌-◌, ◌≤◌, ◌≡◌, refl, sym, ◌∙◌,
  ap, subst, arith, ◌==◌, if◌then◌else◌, Bool, true, false, List, ◌++◌, length, take, drop,
  length-append, take-append_le, drop-append_le, Bool-cases, ==_iff, ◌<◌, inl, inr,
}
use hack_livesuite.Zio.{Zio, read}
use hack_livesuite.Zio.Stream.{stream, read-IsRead}
use native.Mathlib.Decide.{dec_le}
use native.Mathlib.Nat.{sub-zero}
use hack_livesuite.Undump.{
  unexpected_end, bind_loaded, Load, Loaded, ok, err, crash, stack_overflow, pure, fail, ◌>>=◌,
  LoadError, load_block,
}

-- How a run on the stream `s` ended: with a value and `taken` bytes at least gone from the front of
-- the stream, with an error, or with a crash, for which a place in the stream is to blame.
pub data Ended {A : Type 0} (Bad : List ℕ → Type 0) (s : List ℕ) (taken : ℕ)
    : Loaded A → Type 0 where
  finished :
      {a : A} {z : Zio} (front : List ℕ)
      → s ≡ front ++ stream z
      → taken ≤ length front
      → Ended Bad s taken (ok a z)
  thrown : {e : LoadError} → Ended Bad s taken (err e)
  blamed : (front back : List ℕ) → s ≡ front ++ back → Bad back → Ended Bad s taken crash

-- On streams of up to `limit` bytes `load` ends; and what it finds on a stream it finds on every
-- longer one, with the bytes behind still there.
pub record Regular {A : Type 0} (Bad : List ℕ → Type 0) (limit taken : ℕ) (load : Load A)
    : Type 0 where
  pub ends : (z : Zio) → length (stream z) ≤ limit → Ended Bad (stream z) taken (load z)
  pub extends :
      (z y z' : Zio) (more : List ℕ) (a : A)
      → length (stream z) ≤ limit
      → stream y ≡ stream z ++ more
      → load z ≡ ok a z'
      → (y' : Zio) × (load y ≡ ok a y') × (stream y' ≡ stream z' ++ more)
  pub crashes :
      (z y : Zio) (more : List ℕ)
      → length (stream z) ≤ limit
      → stream y ≡ stream z ++ more
      → load z ≡ crash
      → load y ≡ crash

module _ {Bad : List ℕ → Type 0} where
  pub Regular-pure : {A : Type 0} (limit : ℕ) (a : A) → Regular Bad limit 0 (pure a)
  Regular-pure limit a = record {
    ends = λ z h. finished [] refl (omega arith);
    extends = λ z y z' more b h s e.
        let same : z ≡ z' = cc in (y, cc, s ∙ ap (λ w. stream w ++ more) same);
    crashes = λ z y more h s e. cc;
  }

  pub Regular-fail : {A : Type 0} (limit : ℕ) (e : LoadError) → Regular {A = A} Bad limit 0 (fail e)
  Regular-fail limit e = record {
    ends = λ z h. thrown;
    extends = λ z y z' more b h s q. cc;
    crashes = λ z y more h s q. cc;
  }

  pub Regular-if :
      {A : Type 0} {limit taken : ℕ} {x y : Load A} (b : Bool)
      → Regular Bad limit taken x
      → Regular Bad limit taken y
      → Regular Bad limit taken (if b then x else y)
  Regular-if true p q = p
  Regular-if false p q = q

pub load_block-eq-ok :
    (n : ℕ) (z z' : Zio) (a : List ℕ)
    → load_block n z ≡ ok a z'
    → (n ≤ length (stream z)) × (a ≡ take n (stream z)) × (stream z' ≡ drop n (stream z))
unfolding load_block
load_block-eq-ok n z z' a e = elim (Bool-cases ((read z n).missing == 0)) [
  | inl all ↦
      let r = read-IsRead z n in
      let long : n ≤ length (stream z) = omega (arith, r.missing, (==_iff _ 0).0 all) in
      let done : ok (read z n).bytes (read z n).zio ≡ ok a z' = rw all at e in
      let same_bytes : (read z n).bytes ≡ a = cc in
      let same_zio : (read z n).zio ≡ z' = cc in
      (long, sym same_bytes ∙ r.bytes, ap stream (sym same_zio) ∙ r.rest long)
  | inr short ↦ absurd (let none_left : err unexpected_end ≡ ok a z' = rw short at e in cc)
]

load_block-enough :
    (n : ℕ) (z : Zio)
    → n ≤ length (stream z)
    → (z' : Zio) × (load_block n z ≡ ok (take n (stream z)) z') × (stream z' ≡ drop n (stream z))
unfolding load_block
load_block-enough n z h =
    let r = read-IsRead z n in
    let all : (read z n).missing ≡ 0 = omega (arith, r.missing) in
    ((read z n).zio, rw (all, r.bytes), r.rest h)

load_block-short : (n : ℕ) (z : Zio) → length (stream z) < n → load_block n z ≡ err unexpected_end
unfolding load_block
load_block-short n z h =
    let r = read-IsRead z n in
    let some_missing : ((read z n).missing == 0) ≡ false = ground (arith, r.missing) in
    rw some_missing

load_block-ne-crash : (n : ℕ) (z : Zio) → load_block n z ≢ crash
load_block-ne-crash n z e = elim (dec_le n (length (stream z))) [
  | yes enough ↦
      let (z', f, s) = load_block-enough n z enough in
      let both : crash ≡ ok (take n (stream z)) z' = sym e ∙ f in cc
  | no short ↦
      let both : crash ≡ err unexpected_end = sym e ∙ load_block-short n z (omega arith) in cc
]

pub Regular-block : {Bad : List ℕ → Type 0} (limit n : ℕ) → Regular Bad limit n (load_block n)
Regular-block limit n = record {
  ends = λ z h. elim (dec_le n (length (stream z))) [
    | yes enough ↦
        let (z', e, s) = load_block-enough n z enough in
        rw e (
          finished (take n (stream z))
            (sym (take-append-drop n (stream z)) ∙ ap (λ w. take n (stream z) ++ w) (sym s))
            (omega (arith, length-take n (stream z))))
    | no short ↦ rw (load_block-short n z (omega arith)) thrown
  ];
  extends = λ z y z' more a h s e.
      let (long, b, d) = load_block-eq-ok n z z' a e in
      let longer = ap length s ∙ length-append (stream z) more in
      let (y', q, r) = load_block-enough n y (omega (arith, longer)) in
      (
        y',
        q ∙ ap (λ x. ok x y') (ap (take n) s ∙ take-append_le n (stream z) more long ∙ sym b),
        r ∙ ap (drop n) s ∙ drop-append_le n (stream z) more long ∙ ap (λ x. x ++ more) (sym d),
      );
  crashes = λ z y more h s e. absurd (load_block-ne-crash n z e);
}

-- What a run on the rest of a stream ended with, as one on the whole.
Ended-behind :
    {A : Type 0} {Bad : List ℕ → Type 0} (s front rest : List ℕ) (i : ℕ) (r : Loaded A)
    → s ≡ front ++ rest
    → i ≤ length front
    → Ended Bad rest 0 r
    → Ended Bad s i r
Ended-behind s front rest i (ok b z') e h (finished g f _) =
    finished (front ++ g) (e ∙ ap (λ w. front ++ w) f ∙ sym (append_assoc front g (stream z')))
      (omega (arith, length-append front g))
Ended-behind s front rest i (err x) e h thrown = thrown
Ended-behind s front rest i crash e h (blamed g back f bad) =
    blamed (front ++ g) back (e ∙ ap (λ w. front ++ w) f ∙ sym (append_assoc front g back)) bad
Ended-behind s front rest i stack_overflow e h x = elim x [ ]

-- The first loader takes bytes, and the next one is asked only about what is left.
Ended-bind :
    {A B : Type 0} {Bad : List ℕ → Type 0} (s : List ℕ) (i : ℕ) (m : Loaded A) (next : A → Load B)
    → Ended Bad s i m
    → ((a : A) (z : Zio) → length (stream z) + i ≤ length s → Ended Bad (stream z) 0 (next a z))
    → Ended Bad s i (bind_loaded m next)
Ended-bind s i (ok a z) next (finished front e h) k =
    Ended-behind s front (stream z) i (next a z) e h
      (k a z (omega (arith, ap length e, length-append front (stream z))))
Ended-bind s i (err e) next thrown k = thrown
Ended-bind s i crash next (blamed front back e bad) k = blamed front back e bad
Ended-bind s i stack_overflow next h k = elim h [ ]

pub bind-eq-ok :
    {A B : Type 0} (m : Loaded A) (next : A → Load B) {b : B} {z' : Zio}
    → bind_loaded m next ≡ ok b z'
    → (a : A) × (z : Zio) × (m ≡ ok a z) × (next a z ≡ ok b z')
bind-eq-ok (ok a z) next h = (a, z, refl, h)
bind-eq-ok (err e) next h = cc
bind-eq-ok crash next h = cc
bind-eq-ok stack_overflow next h = cc

pub bind-eq-crash :
    {A B : Type 0} (m : Loaded A) (next : A → Load B)
    → bind_loaded m next ≡ crash
    → (m ≡ crash) ⊎ ((a : A) × (z : Zio) × (m ≡ ok a z) × (next a z ≡ crash))
bind-eq-crash (ok a z) next h = inr (a, z, refl, h)
bind-eq-crash (err e) next h = cc
bind-eq-crash crash next h = inl refl
bind-eq-crash stack_overflow next h = cc

pub Ended-eq-ok :
    {A : Type 0} {Bad : List ℕ → Type 0} {s : List ℕ} {taken : ℕ} (r : Loaded A) {a : A} {z : Zio}
    → Ended Bad s taken r
    → r ≡ ok a z
    → length (stream z) + taken ≤ length s
Ended-eq-ok {s = s} {taken = taken} (ok b w) {a} {z} (finished front f h) e =
    let same : w ≡ z = cc in
    subst (λ x. length (stream x) + taken ≤ length s) same
      (omega (arith, h, ap length f, length-append front (stream w)))
Ended-eq-ok (err x) thrown e = cc
Ended-eq-ok crash h e = cc
Ended-eq-ok stack_overflow h e = elim h [ ]

pub Regular-bind :
    {A B : Type 0} {Bad : List ℕ → Type 0} {limit taken : ℕ} {load : Load A} (next : A → Load B)
    → Regular Bad limit taken load
    → (taken ≤ limit → (a : A) → Regular Bad (limit - taken) 0 (next a))
    → Regular Bad limit taken (load >>= next)
Regular-bind {A = A} {limit = limit} {taken = taken} {load = load} next p q = record {
  ends = λ z h.
      Ended-bind _ taken (load z) next (p.ends z h)
        (λ a z1 g. (q (omega arith) a).ends z1 (omega arith));
  extends = λ z y z' more b h s e.
      let (a, z1, e1, e2) = bind-eq-ok (load z) next e in
      let g = Ended-eq-ok (load z) (p.ends z h) e1 in
      let (y1, f1, s1) = p.extends z y z1 more a h s e1 in
      let (y2, f2, s2) = (q (omega arith) a).extends z1 y1 z' more b (omega arith) s1 e2 in
      (y2, rw f1 f2, s2);
  crashes = λ z y more h s e. later z y more h s (bind-eq-crash (load z) next e);
}
  where
    later :
        (z y : Zio) (more : List ℕ)
        → length (stream z) ≤ limit
        → stream y ≡ stream z ++ more
        → (load z ≡ crash) ⊎ ((a : A) × (z1 : Zio) × (load z ≡ ok a z1) × (next a z1 ≡ crash))
        → bind_loaded (load y) next ≡ crash
    later z y more h s (inl e) = ap (λ r. bind_loaded r next) (p.crashes z y more h s e)
    later z y more h s (inr (a, z1, e1, e2)) =
        let g = Ended-eq-ok (load z) (p.ends z h) e1 in
        let (y1, f1, s1) = p.extends z y z1 more a h s e1 in
        ap (λ r. bind_loaded r next) f1 ∙ (q (omega arith) a).crashes z1 y1 more (omega arith) s1 e2

-- A loader that takes nothing for certain.
pub Regular-weaken :
    {A : Type 0} {Bad : List ℕ → Type 0} {limit taken : ℕ} {load : Load A}
    → Regular Bad limit taken load
    → Regular Bad limit 0 load
Regular-weaken {A} {Bad} {taken = taken} {load = load} p = record {
  ends = λ z h. weaken (load z) (p.ends z h);
  extends = p.extends;
  crashes = p.crashes;
}
  where
    weaken : {s : List ℕ} (r : Loaded A) → Ended Bad s taken r → Ended Bad s 0 r
    weaken (ok a z) (finished front e h) = finished front e (omega arith)
    weaken (err e) thrown = thrown
    weaken crash (blamed front back e bad) = blamed front back e bad
    weaken stack_overflow h = elim h [ ]

-- The same for a chain in which no step is known to take a byte.
pub Regular-then :
    {A B : Type 0} {Bad : List ℕ → Type 0} {limit taken : ℕ} {load : Load A} (next : A → Load B)
    → Regular Bad limit taken load
    → ((a : A) → Regular Bad limit 0 (next a))
    → Regular Bad limit 0 (load >>= next)
Regular-then next p next_regular =
    Regular-bind next (Regular-weaken p) (λ _ a. rw sub-zero (next_regular a))
