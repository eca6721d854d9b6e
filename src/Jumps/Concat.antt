-- ===== src/Jumps/Concat.antt =====
-- luaK_concat: two lists of jumps become one.
use hack_livesuite.Common.{
  ℕ, zero, suc, ◌+◌, ◌^◌, ◌≤◌, ◌<◌, ◌≡◌, ◌≢◌, ◌⊎◌, inl, inr, refl, sym, ap, subst, ◌∙◌, arith, All,
  List, [], ◌∷◌, ◌++◌, length, get_elem?, set, get_elem?-set_ne, append-nil, Option, none, some,
}
use hack_livesuite.Opcodes.{max_sbx}
use hack_livesuite.Jumps.{
  Jumped, done, too_long, fault, out_of_fuel, ◌>>=◌, FuncState, pc, getjump, getjump_in, fixjump,
  last_or, last_jump, concat_jumps, getlabel, patchtohere,
}
use hack_livesuite.Jumps.Fixed.{
  Fixes, fixes, out_of_reach, beyond_reach, fixjump-Fixes, getjump-set_ne,
}
use hack_livesuite.Jumps.Lists.{JumpList, Avoids, Distinct, JumpList-set, JumpList-length}

abbrev last : ℕ → List ℕ → ℕ
last p [] = p
last p (q ∷ ps) = last q ps

last_jump-last :
    (fuel : ℕ) (code : List ℕ) (l : Option ℕ) (p : ℕ) (ps : List ℕ)
    → JumpList code l (p ∷ ps)
    → suc (length ps) ≤ fuel
    → last_jump fuel code p ≡ done (last p ps)
unfolding last_jump last_or
last_jump-last zero code l p ps j h = absurd (omega arith)
last_jump-last (suc fuel) code l p [] (e, (next, f, j)) h =
    ap (λ r. r >>= (λ n. last_or p (last_jump fuel code) n)) (f ∙ ap done j)
last_jump-last (suc fuel) code l p (q ∷ ps) (e, (next, f, (g, j))) h =
    ap (λ r. r >>= (λ n. last_or p (last_jump fuel code) n)) (f ∙ ap done g)
    ∙ last_jump-last fuel code next q ps (g, j) (omega arith)

Avoids-last : (x p : ℕ) (ps : List ℕ) → Avoids x (p ∷ ps) → x ≢ last p ps
Avoids-last x p [] (h, a) = h
Avoids-last x p (q ∷ ps) (h, a) = Avoids-last x q ps a

All-last : (P : ℕ → Type 0) (p : ℕ) (ps : List ℕ) → All P (p ∷ ps) → P (last p ps)
All-last P p [] (h, a) = h
All-last P p (q ∷ ps) (h, a) = All-last P q ps a

-- The last jump of a list can be read.
getjump-last :
    (code : List ℕ) (l : Option ℕ) (p : ℕ) (ps : List ℕ)
    → JumpList code l (p ∷ ps)
    → getjump code (last p ps) ≡ done none
getjump-last code l p [] (e, (next, f, j)) = f ∙ ap done j
getjump-last code l p (q ∷ ps) (e, (next, f, j)) = getjump-last code next q ps j

getjump-some :
    (code : List ℕ) (p : ℕ) {next : Option ℕ}
    → getjump code p ≡ done next
    → (i : ℕ) × (get_elem? code p ≡ some i)
unfolding getjump getjump_in
getjump-some code p {next} e = at (get_elem? code p) e
  where
    at : (o : Option ℕ) → getjump_in p o ≡ done next → (i : ℕ) × (o ≡ some i)
    at none f = absurd cc
    at (some i) f = (i, refl)

-- The last jump of one list is set to the start of the other.
JumpList-append :
    (code : List ℕ) (v : ℕ) (l l2 : Option ℕ) (p : ℕ) (ps qs : List ℕ)
    → JumpList code l (p ∷ ps)
    → Distinct (p ∷ ps)
    → JumpList code l2 qs
    → Avoids (last p ps) qs
    → getjump (set code (last p ps) v) (last p ps) ≡ done l2
    → JumpList (set code (last p ps) v) l ((p ∷ ps) ++ qs)
JumpList-append code v l l2 p [] qs (e, _) d k a f = (e, (l2, f, JumpList-set code p v l2 qs a k))
JumpList-append code v l l2 p (q ∷ ps) qs (e, (next, g, j)) (away, d) k a f = (
  e,
  (
    next,
    getjump-set_ne code (last q ps) p v (λ same. Avoids-last p q ps away (sym same)) ∙ g,
    JumpList-append code v next l2 q ps qs j d k a f,
  ),
)

All-get_elem? :
    (P : ℕ → Type 0) (xs : List ℕ) (i : ℕ) {x : ℕ} → All P xs → get_elem? xs i ≡ some x → P x
All-get_elem? P [] i a e = absurd cc
All-get_elem? P (y ∷ xs) zero {x = x} (h, a) e = let same : y ≡ x = cc in subst P same h
All-get_elem? P (y ∷ xs) (suc i) (h, a) e = All-get_elem? P xs i a e

-- What luaK_concat may come to: one list with the jumps of both, in their order, where no instruction
-- outside the first list has changed; or the error for a jump that is too long.
pub data Joins (code : List ℕ) (ps qs : List ℕ) : Jumped (Option ℕ × List ℕ) → Type 0 where
  joins :
      {l : Option ℕ} {code' : List ℕ}
      → JumpList code' l (ps ++ qs)
      → ((j : ℕ) → Avoids j ps → get_elem? code' j ≡ get_elem? code j)
      → Joins code ps qs (done (l, code'))
  too_far :
      (p q : ℕ)
      → (Avoids p ps → ⊥)
      → JumpList code (some q) qs
      → (q + max_sbx < p + 1) ⊎ (p + 1 + max_sbx < q)
      → Joins code ps qs too_long

module _ (code : List ℕ) (small : All (λ w. w < 2 ^ 32) code) where
  Joins-fixjump :
      (p q : ℕ) (ps qs : List ℕ)
      → JumpList code (some p) (p ∷ ps)
      → JumpList code (some q) (q ∷ qs)
      → Distinct (p ∷ ps)
      → Avoids (last p ps) (q ∷ qs)
      → (r : Jumped (List ℕ)) → Fixes (last p ps) q code r
      → Joins code (p ∷ ps) (q ∷ qs) (r >>= (λ code'. done (some p, code')))
  Joins-fixjump p q ps qs j k d (differ, a) (done code') (fixes v f) =
      joins
        (JumpList-append code v (some p) (some q) p ps (q ∷ qs) j d k (differ, a)
          (f (λ same. differ (sym same))))
        (λ i away. get_elem?-set_ne code v (λ same. Avoids-last i p ps away (sym same)))
  Joins-fixjump p q ps qs j k d _ too_long (out_of_reach h) =
      too_far (last p ps) q (λ away. Avoids-last (last p ps) p ps away refl) k (inl h)
  Joins-fixjump p q ps qs j k d _ too_long (beyond_reach h) =
      too_far (last p ps) q (λ away. Avoids-last (last p ps) p ps away refl) k (inr h)
  Joins-fixjump p q ps qs j k d a fault x = elim x [ ]
  Joins-fixjump p q ps qs j k d a out_of_fuel x = elim x [ ]

  concat_jumps-none : (l : Option ℕ) → concat_jumps l none code ≡ done (l, code)
  unfolding concat_jumps
  concat_jumps-none none = refl
  concat_jumps-none (some p) = refl

  Joins-second :
      (q : ℕ) (qs : List ℕ)
      → JumpList code (some q) (q ∷ qs)
      → Joins code [] (q ∷ qs) (concat_jumps none (some q) code)
  unfolding concat_jumps
  Joins-second q qs k = joins k (λ i away. refl)

  Joins-both :
      (p q : ℕ) (ps qs : List ℕ)
      → JumpList code (some p) (p ∷ ps)
      → JumpList code (some q) (q ∷ qs)
      → Distinct (p ∷ ps)
      → Avoids (last p ps) (q ∷ qs)
      → Joins code (p ∷ ps) (q ∷ qs) (concat_jumps (some p) (some q) code)
  unfolding concat_jumps
  Joins-both p q ps qs j k d a =
      let (i, read) = getjump-some code (last p ps) (getjump-last code (some p) p ps j) in
      let walked =
        last_jump-last (length code) code (some p) p ps j
          (JumpList-length code (some p) (p ∷ ps) j d) in
      subst
        (λ r.
          Joins code (p ∷ ps) (q ∷ qs)
            (r >>= (λ list. fixjump list q code >>= (λ code'. done (some p, code')))))
        (sym walked)
        (Joins-fixjump p q ps qs j k d a (fixjump (last p ps) q code) (
          fixjump-Fixes (last p ps) q i code read
            (All-get_elem? (λ w. w < 2 ^ 32) code (last p ps) small read)))

  -- Of two lists without a common jump, the first without a repeated one, in code of 32-bit words,
  -- luaK_concat makes what `Joins` says: it ends, inside the code.
  pub concat_jumps-Joins :
      (l1 l2 : Option ℕ) (ps qs : List ℕ)
      → JumpList code l1 ps
      → JumpList code l2 qs
      → Distinct ps
      → All (λ p. Avoids p qs) ps
      → Joins code ps qs (concat_jumps l1 l2 code)
  concat_jumps-Joins l1 l2 ps [] j k d apart =
      subst (λ l. Joins code ps [] (concat_jumps l1 l code)) (sym k)
        (subst (λ r. Joins code ps [] r) (sym (concat_jumps-none l1))
          (joins (subst (JumpList code l1) (sym (append-nil ps)) j) (λ i away. refl)))
  concat_jumps-Joins l1 l2 [] (q ∷ qs) j (e, k) d apart =
      subst (λ l. Joins code [] (q ∷ qs) (concat_jumps l l2 code)) (sym j)
        (subst (λ l. Joins code [] (q ∷ qs) (concat_jumps none l code)) (sym e)
          (Joins-second q qs (refl, k)))
  concat_jumps-Joins l1 l2 (p ∷ ps) (q ∷ qs) (e, j) (f, k) d apart =
      subst (λ l. Joins code (p ∷ ps) (q ∷ qs) (concat_jumps l l2 code)) (sym e)
        (subst (λ l. Joins code (p ∷ ps) (q ∷ qs) (concat_jumps (some p) l code)) (sym f)
          (Joins-both p q ps qs (refl, j) (refl, k) d
            (All-last (λ x. Avoids x (q ∷ qs)) p ps apart)))

-- luaK_patchtohere puts the jumps of the list behind those that wait for the next instruction,
-- and marks its position as a target.
pub data Waits (fs : FuncState) (ps qs : List ℕ) : Jumped FuncState → Type 0 where
  waits :
      {fs' : FuncState}
      → JumpList fs'.code fs'.jpc (ps ++ qs)
      → fs'.lasttarget ≡ some (pc fs)
      → ((j : ℕ) → Avoids j ps → get_elem? fs'.code j ≡ get_elem? fs.code j)
      → Waits fs ps qs (done fs')
  refused : Joins fs.code ps qs too_long → Waits fs ps qs too_long

pub patchtohere-Waits :
    (fs : FuncState) (list : Option ℕ) (ps qs : List ℕ)
    → All (λ w. w < 2 ^ 32) fs.code
    → JumpList fs.code fs.jpc ps
    → JumpList fs.code list qs
    → Distinct ps
    → All (λ p. Avoids p qs) ps
    → Waits fs ps qs (patchtohere list fs)
unfolding patchtohere getlabel
patchtohere-Waits fs list ps qs small j k d apart =
    at (concat_jumps fs.jpc list fs.code)
      (concat_jumps-Joins fs.code small fs.jpc list ps qs j k d apart)
  where
    at :
        (r : Jumped (Option ℕ × List ℕ))
        → Joins fs.code ps qs r
        → Waits fs ps qs (
            r >>= (λ (jpc, code).
              done (record fs { lasttarget = some (pc fs); jpc = jpc; code = code })))
    at (done (l, code')) (joins m kept) = waits m refl kept
    at too_long h = refused h
    at fault h = elim h [ ]
    at out_of_fuel h = elim h [ ]
