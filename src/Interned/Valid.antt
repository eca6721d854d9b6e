-- ===== src/Interned/Valid.antt =====
-- What holds of the table of strings, and that every operation keeps it.
use mathlib.Core.List.{Memᴰ}
use hack_livesuite.Common.{
  ℕ, ◌≤◌, ◌<◌, ◌≡◌, refl, sym, subst, ◌∙◌, ◌⊎◌, inl, inr, Bool, true, false, if◌then◌else◌, [],
  length, length-replicate, replicate,
}
use hack_livesuite.Interned.{StringObject, StringState, lmod, rehash, resize, hash_of}
use hack_livesuite.Interned.Chains.{InChain, bucket-replicate}
use hack_livesuite.Interned.Rehash.{length-rehash, into_rehash, from_rehash}

-- An object is in the table, in the chain of its hash.
abbrev pub Holds : StringState → StringObject → Type 0
Holds st x = InChain x st.hash (lmod x.hash st.size)

-- Each object stands in the chain of its hash, which is that of its bytes; two with the same
-- bytes, or with the same address, are one.
pub record IsValid (st : StringState) : Type 0 where
  pub wide : 1 ≤ st.size
  pub buckets : length st.hash ≡ st.size
  pub placed : (x : StringObject) (i : ℕ) → InChain x st.hash i → lmod x.hash st.size ≡ i
  pub hashed : (x : StringObject) → Holds st x → x.hash ≡ hash_of x.bytes
  pub older : (x : StringObject) → Holds st x → x.address < st.fresh
  pub same_bytes_one : (x y : StringObject) → Holds st x → Holds st y → x.bytes ≡ y.bytes → x ≡ y
  pub same_address_one :
      (x y : StringObject) → Holds st x → Holds st y → x.address ≡ y.address → x ≡ y

-- A state that is valid, and still holds what the first one held.
pub record Keeps (st st' : StringState) : Type 0 where
  pub valid : IsValid st'
  pub kept : (x : StringObject) → Holds st x → Holds st' x

module _ (st : StringState) (valid : IsValid st) (newsize : ℕ) (wide : 1 ≤ newsize) where
  abbrev resized : StringState
  resized = record st { hash = rehash newsize st.hash (replicate newsize []); size = newsize }

  came :
      (x : StringObject) (i : ℕ) → InChain x resized.hash i → Holds st x × (lmod x.hash newsize ≡ i)
  came x i m =
      at (
        from_rehash newsize wide x i st.hash (replicate newsize []) (length-replicate newsize []) m)
    where
      at :
          ((j : ℕ) × InChain x st.hash j × (lmod x.hash newsize ≡ i))
            ⊎ InChain x (replicate newsize []) i
          → Holds st x × (lmod x.hash newsize ≡ i)
      at (inl (j, m, k)) = (subst (InChain x st.hash) (sym (valid.placed x j m)) m, k)
      at (inr m) = let no : Memᴰ x [] = subst (Memᴰ x) (bucket-replicate newsize i) m in elim no [ ]

  held : (x : StringObject) → Holds resized x → Holds st x
  held x m = (came x _ m).0

  Keeps-resized : Keeps st resized
  Keeps-resized = record {
    valid = record {
      wide = wide;
      buckets =
          length-rehash newsize wide st.hash (replicate newsize []) ∙ length-replicate newsize [];
      placed = λ x i m. (came x i m).1;
      hashed = λ x m. valid.hashed x (held x m);
      older = λ x m. valid.older x (held x m);
      same_bytes_one = λ x y m n. valid.same_bytes_one x y (held x m) (held y n);
      same_address_one = λ x y m n. valid.same_address_one x y (held x m) (held y n);
    };
    kept = λ x m.
        into_rehash newsize wide x (lmod x.hash newsize) st.hash (replicate newsize []) _
          (length-replicate newsize []) m refl;
  }

pub Keeps-refl : (st : StringState) → IsValid st → Keeps st st
Keeps-refl st valid = record { valid = valid; kept = λ x m. m }

-- luaS_resize keeps a valid table valid, with the same strings.
pub resize-Keeps :
    (newsize : ℕ) (st : StringState) → 1 ≤ newsize → IsValid st → Keeps st (resize newsize st)
unfolding resize
resize-Keeps newsize st wide valid = at st.sweeping
  where
    at : (b : Bool) → Keeps st (if b then st else resized st valid newsize wide)
    at true = Keeps-refl st valid
    at false = Keeps-resized st valid newsize wide
