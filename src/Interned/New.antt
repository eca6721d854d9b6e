-- ===== src/Interned/New.antt =====
-- newlstr: a new string in the table, and the growth of the table.
use hack_livesuite.Common.{
  ℕ, suc, ◌*◌, ◌/◌, ◌<◌, ◌≡◌, ◌≢◌, refl, sym, ap, subst, ◌∙◌, arith, ◌⊎◌, inl, inr, Bool, true,
  false, ◌&&◌, leb, ltb, if◌then◌else◌, if_true, ==-refl, length,
}
use hack_livesuite.Limits.{max_int}
use hack_livesuite.Interned.{StringObject, StringState, lmod, put, resize, grow, chain_new, hash_of}
use hack_livesuite.Interned.Chains.{lmod-lt, InChain, length-put, from_put, to_put, put_new}
use hack_livesuite.Interned.Valid.{Holds, IsValid, Keeps, Keeps-refl, resize-Keeps}

pub Keeps-trans : {a b c : StringState} → Keeps a b → Keeps b c → Keeps a c
Keeps-trans k l = record { valid = l.valid; kept = λ x m. l.kept x (k.kept x m) }

pub grow-Keeps : (st : StringState) → IsValid st → Keeps st (grow st)
unfolding grow
grow-Keeps st valid = at (ltb st.size st.nuse && leb st.size (max_int / 2))
  where
    at : (b : Bool) → Keeps st (if b then resize (st.size * 2) st else st)
    at true = resize-Keeps (st.size * 2) st (omega (arith, valid.wide)) valid
    at false = Keeps-refl st valid

resize-dead : (newsize : ℕ) (st : StringState) → (resize newsize st).dead ≡ st.dead
unfolding resize
resize-dead newsize st = ground arith

pub grow-dead : (st : StringState) → (grow st).dead ≡ st.dead
unfolding grow
grow-dead st = at (ltb st.size st.nuse && leb st.size (max_int / 2))
  where
    at : (b : Bool) → (if b then resize (st.size * 2) st else st).dead ≡ st.dead
    at true = resize-dead (st.size * 2) st
    at false = refl

-- A new string, with the next address, that no string of the table equals.
module _ (ts : StringObject) (st : StringState) (valid : IsValid st) (next : ts.address ≡ st.fresh)
    (hashed : ts.hash ≡ hash_of ts.bytes)
    (absent : (x : StringObject) → Holds st x → x.bytes ≢ ts.bytes) where
  below : lmod ts.hash st.size < length st.hash
  below = omega (arith, lmod-lt ts.hash st.size valid.wide, valid.buckets)

  came :
      (x : StringObject) (i : ℕ)
      → InChain x (put (lmod ts.hash st.size) ts st.hash) i
      → ((x ≡ ts) × (lmod ts.hash st.size ≡ i)) ⊎ InChain x st.hash i
  came x i = from_put (lmod ts.hash st.size) ts st.hash below x i

  pub Keeps-chain_new : Keeps st (chain_new ts st)
  unfolding chain_new
  Keeps-chain_new = record {
    valid = record {
      wide = valid.wide;
      buckets = length-put (lmod ts.hash st.size) ts st.hash ∙ valid.buckets;
      placed = λ x i m. place x i (came x i m);
      hashed = λ x m. hash_at x (came x _ m);
      older = λ x m. old x (came x _ m);
      same_bytes_one = λ x y m n. one x y (came x _ m) (came y _ n);
      same_address_one = λ x y m n. address_one x y (came x _ m) (came y _ n);
    };
    kept = λ x m. to_put (lmod ts.hash st.size) ts st.hash below x _ m;
  }
    where
      Came : StringObject → ℕ → Type 0
      Came x i = ((x ≡ ts) × (lmod ts.hash st.size ≡ i)) ⊎ InChain x st.hash i

      place : (x : StringObject) (i : ℕ) → Came x i → lmod x.hash st.size ≡ i
      place x i (inl (e, k)) = ap (λ t. lmod t.hash st.size) e ∙ k
      place x i (inr m) = valid.placed x i m

      hash_at : (x : StringObject) → Came x (lmod x.hash st.size) → x.hash ≡ hash_of x.bytes
      hash_at x (inl (e, k)) = subst (λ t. t.hash ≡ hash_of t.bytes) (sym e) hashed
      hash_at x (inr m) = valid.hashed x m

      old : (x : StringObject) → Came x (lmod x.hash st.size) → x.address < suc st.fresh
      old x (inl (e, k)) = omega (arith, ap (λ t. t.address) e, next)
      old x (inr m) = omega (arith, valid.older x m)

      one :
          (x y : StringObject)
          → Came x (lmod x.hash st.size)
          → Came y (lmod y.hash st.size)
          → x.bytes ≡ y.bytes
          → x ≡ y
      one x y (inl (e, _)) (inl (f, _)) h = e ∙ sym f
      one x y (inl (e, _)) (inr n) h = absurd (absent y n (sym h ∙ ap (λ t. t.bytes) e))
      one x y (inr m) (inl (f, _)) h = absurd (absent x m (h ∙ ap (λ t. t.bytes) f))
      one x y (inr m) (inr n) h = valid.same_bytes_one x y m n h

      address_one :
          (x y : StringObject)
          → Came x (lmod x.hash st.size)
          → Came y (lmod y.hash st.size)
          → x.address ≡ y.address
          → x ≡ y
      address_one x y (inl (e, _)) (inl (f, _)) h = e ∙ sym f
      address_one x y (inl (e, _)) (inr n) h =
          absurd (omega (arith, ap (λ t. t.address) e, next, valid.older y n))
      address_one x y (inr m) (inl (f, _)) h =
          absurd (omega (arith, ap (λ t. t.address) f, next, valid.older x m))
      address_one x y (inr m) (inr n) h = valid.same_address_one x y m n h

  pub chain_new-Holds : Holds (chain_new ts st) ts
  unfolding chain_new
  chain_new-Holds = put_new (lmod ts.hash st.size) ts st.hash below

  pub chain_new-dead : (chain_new ts st).dead ts.address ≡ false
  unfolding chain_new
  chain_new-dead = sym (if_true false (st.dead ts.address) (==-refl ts.address))
