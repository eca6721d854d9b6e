-- ===== src/Interned/Chains.antt =====
-- The chains of the table of strings: what put and the loops of luaS_resize do to each of them, and what
-- the search over one finds.
use mathlib.Core.List.{Memᴰ}
use hack_livesuite.Common.{
  ℕ, zero, suc, ◌-◌, ◌≤◌, ◌<◌, ◌≡◌, ◌≢◌, refl, sym, ap, subst, ◌∙◌, arith, ◌⊎◌, inl, inr, Bool,
  true, false, ◌==◌, ◌&&◌, if◌then◌else◌, if_true, List, [], ◌∷◌, length, get_or, set, length-set,
  replicate, some, ==_iff, ==-refl, Bool-cases,
}
use hack_livesuite.Common.Bits.{bit_and-le}
use hack_livesuite.Proto.{same_bytes, same_bytes→eq}
use hack_livesuite.Interned.{StringObject, lmod, bucket, put, find_string}

pub lmod-lt : (s size : ℕ) → 1 ≤ size → lmod s size < size
lmod-lt s size h = omega (arith, bit_and-le s (size - 1))

module _ {ℓ} {A : Type ℓ} where
  get_or-set_self : (xs : List A) (i : ℕ) (v d : A) → i < length xs → get_or (set xs i v) i d ≡ v
  get_or-set_self [] i v d h = absurd (omega arith)
  get_or-set_self (x ∷ xs) zero v d h = refl
  get_or-set_self (x ∷ xs) (suc i) v d h = get_or-set_self xs i v d (omega arith)

  get_or-set_ne :
      (xs : List A) (i j : ℕ) (v d : A) → i ≢ j → get_or (set xs i v) j d ≡ get_or xs j d
  get_or-set_ne [] i j v d h = refl
  get_or-set_ne (x ∷ xs) zero zero v d h = absurd (h refl)
  get_or-set_ne (x ∷ xs) zero (suc j) v d h = refl
  get_or-set_ne (x ∷ xs) (suc i) zero v d h = refl
  get_or-set_ne (x ∷ xs) (suc i) (suc j) v d h = get_or-set_ne xs i j v d (λ e. h (ap suc e))

pub bucket-replicate : (n i : ℕ) → bucket (replicate n []) i ≡ []
bucket-replicate zero i = refl
bucket-replicate (suc n) zero = refl
bucket-replicate (suc n) (suc i) = bucket-replicate n i

-- An object stands in a chain of the table.
abbrev pub InChain : StringObject → List (List StringObject) → ℕ → Type 0
InChain x hash i = Memᴰ x (bucket hash i)

module _ (k : ℕ) (p : StringObject) (new : List (List StringObject)) where
  pub length-put : length (put k p new) ≡ length new
  unfolding put
  length-put = length-set new k _

  pub put_self : k < length new → bucket (put k p new) k ≡ p ∷ bucket new k
  unfolding put
  put_self h = get_or-set_self new k _ [] h

  pub put_other : (i : ℕ) → k ≢ i → bucket (put k p new) i ≡ bucket new i
  unfolding put
  put_other i h = get_or-set_ne new k i _ [] h

-- A put into the table: what is in a chain afterwards is the new object or was there.
module _ (k : ℕ) (p : StringObject) (new : List (List StringObject)) (h : k < length new)
    (x : StringObject) (i : ℕ) where
  split_same : ((k == i) ≡ true) ⊎ ((k == i) ≡ false) → (k ≡ i) ⊎ (k ≢ i)
  split_same (inl t) = inl ((==_iff k i).0 t)
  split_same (inr t) = inr (λ e. let u = (==_iff k i).1 e in cc)

  pub from_put : InChain x (put k p new) i → ((x ≡ p) × (k ≡ i)) ⊎ InChain x new i
  from_put m = at (split_same (Bool-cases (k == i)))
    where
      first : k ≡ i → Memᴰ x (p ∷ bucket new k) → ((x ≡ p) × (k ≡ i)) ⊎ InChain x new i
      first e (Memᴰ.head s) = inl (s, e)
      first e (Memᴰ.tail t) = inr (subst (InChain x new) e t)

      at : (k ≡ i) ⊎ (k ≢ i) → ((x ≡ p) × (k ≡ i)) ⊎ InChain x new i
      at (inl e) =
          first e (subst (Memᴰ x) (ap (bucket (put k p new)) (sym e) ∙ put_self k p new h) m)
      at (inr ne) = inr (subst (Memᴰ x) (put_other k p new i ne) m)

  pub to_put : InChain x new i → InChain x (put k p new) i
  to_put m = at (split_same (Bool-cases (k == i)))
    where
      at : (k ≡ i) ⊎ (k ≢ i) → InChain x (put k p new) i
      at (inl e) =
          subst (InChain x (put k p new)) e (
            subst (Memᴰ x) (sym (put_self k p new h)) (Memᴰ.tail (subst (InChain x new) (sym e) m)))
      at (inr ne) = subst (Memᴰ x) (sym (put_other k p new i ne)) m

pub put_new :
    (k : ℕ) (p : StringObject) (new : List (List StringObject))
    → k < length new
    → InChain p (put k p new) k
put_new k p new h = subst (Memᴰ p) (sym (put_self k p new h)) (Memᴰ.head refl)

-- What the search finds stands in the chain and has the bytes; where it finds nothing, nothing has.
pub find_string-some :
    (str : List ℕ) (chain : List StringObject) {ts : StringObject}
    → find_string str chain ≡ some ts
    → Memᴰ ts chain × (ts.bytes ≡ str)
unfolding find_string
find_string-some str [] h = absurd cc
find_string-some str (p ∷ next) {ts} h =
    at (length p.bytes == length str) (same_bytes str p.bytes) refl refl h
      (find_string-some str next)
  where
    at :
        (l s : Bool)
        → (length p.bytes == length str) ≡ l
        → same_bytes str p.bytes ≡ s
        → (if l && s then some p else find_string str next) ≡ some ts
        → (find_string str next ≡ some ts → Memᴰ ts next × (ts.bytes ≡ str))
        → Memᴰ ts (p ∷ next) × (ts.bytes ≡ str)
    at true true l s h ih =
        let same : p ≡ ts = cc in
        (Memᴰ.head (sym same), ap (λ t. t.bytes) (sym same) ∙ sym (same_bytes→eq str p.bytes s))
    at true false l s h ih = (Memᴰ.tail (ih h).0, (ih h).1)
    at false s _ _ h ih = (Memᴰ.tail (ih h).0, (ih h).1)

same_bytes_refl : (s : List ℕ) → same_bytes s s ≡ true
unfolding same_bytes
same_bytes_refl [] = refl
same_bytes_refl (a ∷ s) = ground (arith, ==-refl a, same_bytes_refl s)

pub find_string-finds :
    (chain : List StringObject) (x : StringObject)
    → Memᴰ x chain
    → (y : StringObject) × (find_string x.bytes chain ≡ some y)
unfolding find_string
find_string-finds [] x m = elim m [ ]
find_string-finds (p ∷ next) x (Memᴰ.head e) = (
  p,
  sym (
      if_true _ _ (
        ap (λ t. (length t.bytes == length x.bytes) && same_bytes x.bytes t.bytes) (sym e) ∙ both)),
)
  where
    both : ((length x.bytes == length x.bytes) && same_bytes x.bytes x.bytes) ≡ true
    both = ground (arith, ==-refl (length x.bytes), same_bytes_refl x.bytes)
find_string-finds (p ∷ next) x (Memᴰ.tail m) =
    at ((length p.bytes == length x.bytes) && same_bytes x.bytes p.bytes)
      (find_string-finds next x m)
  where
    at :
        (t : Bool)
        → (y : StringObject) × (find_string x.bytes next ≡ some y)
        → (y : StringObject) × ((if t then some p else find_string x.bytes next) ≡ some y)
    at true ih = (p, refl)
    at false ih = ih
