-- ===== src/Interned/Rehash.antt =====
-- The loops of luaS_resize: the new table holds the objects of the old one, in the chains of their
-- hashes.
use mathlib.Core.List.{Memᴰ}
use hack_livesuite.Common.{
  ℕ, zero, suc, ◌≤◌, ◌<◌, ◌≡◌, refl, sym, ap, subst, ◌∙◌, arith, ◌⊎◌, inl, inr, List, [], ◌∷◌,
  length,
}
use hack_livesuite.Interned.{StringObject, lmod, put, rehash_chain, rehash}
use hack_livesuite.Interned.Chains.{lmod-lt, InChain, length-put, from_put, to_put, put_new}

-- The loops of luaS_resize put each object into the chain of its hash, and keep what is there.
module _ (size : ℕ) (wide : 1 ≤ size) where
  length-rehash_chain :
      (chain : List StringObject) (new : List (List StringObject))
      → length (rehash_chain size chain new) ≡ length new
  unfolding rehash_chain
  length-rehash_chain [] new = refl
  length-rehash_chain (p ∷ next) new =
      length-rehash_chain next _ ∙ length-put (lmod p.hash size) p new

  pub length-rehash :
      (hash new : List (List StringObject)) → length (rehash size hash new) ≡ length new
  unfolding rehash
  length-rehash [] new = refl
  length-rehash (chain ∷ hash) new = length-rehash hash _ ∙ length-rehash_chain chain new

  module _ (x : StringObject) (i : ℕ) where
    from_rehash_chain :
        (chain : List StringObject) (new : List (List StringObject))
        → length new ≡ size
        → InChain x (rehash_chain size chain new) i
        → (Memᴰ x chain × (lmod x.hash size ≡ i)) ⊎ InChain x new i
    unfolding rehash_chain
    from_rehash_chain [] new l m = inr m
    from_rehash_chain (p ∷ next) new l m = at (
        from_rehash_chain next (put (lmod p.hash size) p new)
          (length-put (lmod p.hash size) p new ∙ l) m)
      where
        below : lmod p.hash size < length new
        below = omega (arith, lmod-lt p.hash size wide)

        last :
            ((x ≡ p) × (lmod p.hash size ≡ i)) ⊎ InChain x new i
            → (Memᴰ x (p ∷ next) × (lmod x.hash size ≡ i)) ⊎ InChain x new i
        last (inl (e, k)) = inl (Memᴰ.head e, ap (λ t. lmod t.hash size) e ∙ k)
        last (inr t) = inr t

        at :
            (Memᴰ x next × (lmod x.hash size ≡ i)) ⊎ InChain x (put (lmod p.hash size) p new) i
            → (Memᴰ x (p ∷ next) × (lmod x.hash size ≡ i)) ⊎ InChain x new i
        at (inl (m, k)) = inl (Memᴰ.tail m, k)
        at (inr t) = last (from_put (lmod p.hash size) p new below x i t)

    kept_rehash_chain :
        (chain : List StringObject) (new : List (List StringObject))
        → length new ≡ size
        → InChain x new i
        → InChain x (rehash_chain size chain new) i
    unfolding rehash_chain
    kept_rehash_chain [] new l m = m
    kept_rehash_chain (p ∷ next) new l m =
        kept_rehash_chain next (put (lmod p.hash size) p new)
          (length-put (lmod p.hash size) p new ∙ l)
          (to_put (lmod p.hash size) p new (omega (arith, lmod-lt p.hash size wide)) x i m)

    into_rehash_chain :
        (chain : List StringObject) (new : List (List StringObject))
        → length new ≡ size
        → Memᴰ x chain
        → lmod x.hash size ≡ i
        → InChain x (rehash_chain size chain new) i
    unfolding rehash_chain
    into_rehash_chain [] new l m k = elim m [ ]
    into_rehash_chain (p ∷ next) new l (Memᴰ.head e) k =
        kept_rehash_chain next (put (lmod p.hash size) p new)
          (length-put (lmod p.hash size) p new ∙ l)
          (subst (λ t. InChain t (put (lmod p.hash size) p new) i) (sym e)
            (subst (InChain p (put (lmod p.hash size) p new))
              (ap (λ t. lmod t.hash size) (sym e) ∙ k)
              (put_new (lmod p.hash size) p new (omega (arith, lmod-lt p.hash size wide)))))
    into_rehash_chain (p ∷ next) new l (Memᴰ.tail m) k =
        into_rehash_chain next (put (lmod p.hash size) p new)
          (length-put (lmod p.hash size) p new ∙ l) m k

    kept_rehash :
        (hash new : List (List StringObject))
        → length new ≡ size
        → InChain x new i
        → InChain x (rehash size hash new) i
    unfolding rehash
    kept_rehash [] new l m = m
    kept_rehash (chain ∷ hash) new l m =
        kept_rehash hash (rehash_chain size chain new) (length-rehash_chain chain new ∙ l)
          (kept_rehash_chain chain new l m)

    pub into_rehash :
        (hash new : List (List StringObject)) (j : ℕ)
        → length new ≡ size
        → InChain x hash j
        → lmod x.hash size ≡ i
        → InChain x (rehash size hash new) i
    unfolding rehash
    into_rehash [] new j l m k = elim m [ ]
    into_rehash (chain ∷ hash) new zero l m k =
        kept_rehash hash (rehash_chain size chain new) (length-rehash_chain chain new ∙ l)
          (into_rehash_chain chain new l m k)
    into_rehash (chain ∷ hash) new (suc j) l m k =
        into_rehash hash (rehash_chain size chain new) j (length-rehash_chain chain new ∙ l) m k

    pub from_rehash :
        (hash new : List (List StringObject))
        → length new ≡ size
        → InChain x (rehash size hash new) i
        → ((j : ℕ) × InChain x hash j × (lmod x.hash size ≡ i)) ⊎ InChain x new i
    unfolding rehash
    from_rehash [] new l m = inr m
    from_rehash (chain ∷ hash) new l m =
        at (from_rehash hash (rehash_chain size chain new) (length-rehash_chain chain new ∙ l) m)
      where
        last :
            (Memᴰ x chain × (lmod x.hash size ≡ i)) ⊎ InChain x new i
            → ((j : ℕ) × InChain x (chain ∷ hash) j × (lmod x.hash size ≡ i)) ⊎ InChain x new i
        last (inl (m, k)) = inl (0, m, k)
        last (inr m) = inr m

        at :
            ((j : ℕ) × InChain x hash j × (lmod x.hash size ≡ i))
              ⊎ InChain x (rehash_chain size chain new) i
            → ((j : ℕ) × InChain x (chain ∷ hash) j × (lmod x.hash size ≡ i)) ⊎ InChain x new i
        at (inl (j, m, k)) = inl (suc j, m, k)
        at (inr m) = last (from_rehash_chain chain new l m)
