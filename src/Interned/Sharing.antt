-- ===== src/Interned/Sharing.antt =====
-- Strings compare by their addresses: over any calls of luaS_newlstr and luaS_resize, two objects are
-- one exactly if their bytes are the same.
use mathlib.Core.List.{Memᴰ}
use hack_livesuite.Common.{
  ℕ, ◌≤◌, ◌≡◌, ◌↔◌, sym, ap, subst, ◌∙◌, Bool, false, List, [], update, length-replicate, replicate,
}
use hack_livesuite.Interned.{
  StringObject, StringState, Interned, interned, too_big, rehash, resize, intern,
}
use hack_livesuite.Interned.Chains.{bucket-replicate, InChain}
use hack_livesuite.Interned.Valid.{Holds, IsValid, Keeps, Keeps-refl, resize-Keeps}
use hack_livesuite.Interned.New.{Keeps-trans}
use hack_livesuite.Interned.Equal.{
  Interns, gives, refuses, intern-Interns, intern-held, Keeps-dead, Keeps-sweeping,
}

-- What may happen to the table: strings are made, the table is resized, and the collector starts
-- or ends its sweep, or changes which strings are dead. It does not free any of them.
pub data Later (st : StringState) : StringState → Type 0 where
  now : Later st st
  makes :
      {a b : StringState} (str : List ℕ) (ts : StringObject)
      → Later st a
      → intern str a ≡ interned ts b
      → Later st b
  resizes : {a : StringState} (newsize : ℕ) → 1 ≤ newsize → Later st a → Later st (resize newsize a)
  sweeps : {a : StringState} (b : Bool) → Later st a → Later st (record a { sweeping = b })
  colours : {a : StringState} (d : ℕ → Bool) → Later st a → Later st (record a { dead = d })

pub intern-gave :
    (str : List ℕ) (st st' : StringState) (ts : StringObject)
    → IsValid st
    → intern str st ≡ interned ts st'
    → (ts.bytes ≡ str) × Holds st' ts × Keeps st st'
intern-gave str st st' ts valid e = at (intern str st) (intern-Interns st valid str) e
  where
    at :
        (r : Interned)
        → Interns str st r
        → r ≡ interned ts st'
        → (ts.bytes ≡ str) × Holds st' ts × Keeps st st'
    at (interned x s) (gives b h d k) e =
        let same : x ≡ ts = cc in
        let state : s ≡ st' = cc in
        subst (λ u. (ts.bytes ≡ str) × Holds u ts × Keeps st u) state
          (subst (λ y. (y.bytes ≡ str) × Holds s y × Keeps st s) same (b, h, k))
    at too_big (refuses h) e = absurd cc

Later-Keeps : (st : StringState) → IsValid st → {st' : StringState} → Later st st' → Keeps st st'
Later-Keeps st valid now = Keeps-refl st valid
Later-Keeps st valid (makes {a} {b} str ts l e) =
    let k = Later-Keeps st valid l in
    let (_, _, k') = intern-gave str a b ts k.valid e in Keeps-trans k k'
Later-Keeps st valid (resizes {a} n h l) =
    let k = Later-Keeps st valid l in Keeps-trans k (resize-Keeps n a h k.valid)
Later-Keeps st valid (sweeps {a} b l) =
    let k = Later-Keeps st valid l in Keeps-trans k (Keeps-sweeping a k.valid b)
Later-Keeps st valid (colours {a} d l) =
    let k = Later-Keeps st valid l in Keeps-trans k (Keeps-dead a k.valid d)

-- What one call gave is given again for the same bytes, however much happened in between.
pub intern-again :
    (str : List ℕ) (st st' later : StringState) (ts : StringObject)
    → IsValid st
    → intern str st ≡ interned ts st'
    → Later st' later
    → intern str later ≡ interned ts (record later { dead = update later.dead ts.address false })
intern-again str st st' later ts valid e l =
    let (bytes, held, k) = intern-gave str st st' ts valid e in
    let k' = Later-Keeps st' k.valid l in
    subst
      (λ s.
        intern s later ≡ interned ts (record later { dead = update later.dead ts.address false }))
      bytes (intern-held later k'.valid ts (k'.kept ts held))

-- The objects of two calls, the second at any time after the first, have the same address
-- exactly if the strings have the same bytes.
pub intern-same_address :
    (s t : List ℕ) (st st' later last : StringState) (x y : StringObject)
    → IsValid st
    → intern s st ≡ interned x st'
    → Later st' later
    → intern t later ≡ interned y last
    → (x.address ≡ y.address) ↔ (s ≡ t)
intern-same_address s t st st' later last x y valid e l f =
    let (x_bytes, x_held, k) = intern-gave s st st' x valid e in
    let k' = Later-Keeps st' k.valid l in
    let (y_bytes, y_held, k'') = intern-gave t later last y k'.valid f in
    let x_last = k''.kept x (k'.kept x x_held) in
    (
      λ h.
          sym x_bytes
          ∙ ap (λ o. o.bytes) (k''.valid.same_address_one x y x_last y_held h)
          ∙ y_bytes,
      λ h.
          ap (λ o. o.address)
            (k''.valid.same_bytes_one x y x_last y_held (x_bytes ∙ h ∙ sym y_bytes)),
    )

-- The table that lua_newstate leaves, before f_luaopen gives it its first size.
unfoldable pub no_strings : StringState
no_strings = record {
  hash = [];
  nuse = 0;
  size = 0;
  sweeping = false;
  dead = λ _. false;
  fresh = 0;
}

-- The first luaS_resize, to one chain at least, makes a valid table.
pub resize-no_strings : (newsize : ℕ) → 1 ≤ newsize → IsValid (resize newsize no_strings)
unfolding resize rehash no_strings
resize-no_strings newsize h = record {
  wide = h;
  buckets = length-replicate newsize [];
  placed = λ x i m. nothing x i m;
  hashed = λ x m. nothing x _ m;
  older = λ x m. nothing x _ m;
  same_bytes_one = λ x y m n. nothing x _ m;
  same_address_one = λ x y m n. nothing x _ m;
}
  where
    nothing : {B : Type 0} (x : StringObject) (i : ℕ) → InChain x (replicate newsize []) i → B
    nothing x i m =
        let no : Memᴰ x [] = subst (Memᴰ x) (bucket-replicate newsize i) m in elim no [ ]
