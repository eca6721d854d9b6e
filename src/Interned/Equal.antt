-- ===== src/Interned/Equal.antt =====
-- luaS_newlstr: one object for each string, also after other calls.
use mathlib.Core.List.{Memᴰ}
use hack_livesuite.Common.{
  ℕ, ◌+◌, ◌-◌, ◌%◌, ◌^◌, ◌<◌, ◌≡◌, ◌≢◌, refl, sym, ap, subst, ◌∙◌, Bool, true, false, ltb,
  if◌then◌else◌, if_true, ltb→lt, ==-refl, List, length, Option, none, some, update,
}
use hack_livesuite.Limits.{max_sizet}
use hack_livesuite.Interned.{
  StringObject, StringState, Interned, interned, too_big, lmod, bucket, grow, chain_new,
  tstring_header, newlstr, hash_of, find_string, intern_with, intern,
}
use hack_livesuite.Interned.Chains.{InChain, find_string-some, find_string-finds}
use hack_livesuite.Interned.Valid.{Holds, IsValid, Keeps}
use hack_livesuite.Interned.New.{
  Keeps-trans, grow-Keeps, grow-dead, Keeps-chain_new, chain_new-Holds, chain_new-dead,
}

-- What luaS_newlstr may come to: a live object of the bytes that is in the table, and a table that
-- keeps the others, or the error for a string that is too long.
pub data Interns (str : List ℕ) (st : StringState) : Interned → Type 0 where
  gives :
      {ts : StringObject} {st' : StringState}
      → ts.bytes ≡ str
      → Holds st' ts
      → st'.dead ts.address ≡ false
      → Keeps st st'
      → Interns str st (interned ts st')
  refuses : max_sizet - tstring_header < (length str + 1) % 2 ^ 64 → Interns str st too_big

newlstr-Interns :
    (str : List ℕ) (st : StringState)
    → IsValid st
    → ((x : StringObject) → Holds st x → x.bytes ≢ str)
    → Interns str st (newlstr str (hash_of str) st)
unfolding newlstr
newlstr-Interns str st valid absent =
    at (ltb (max_sizet - tstring_header) ((length str + 1) % 2 ^ 64)) refl
  where
    ts : StringObject
    ts = record { address = st.fresh; hash = hash_of str; bytes = str }

    added : Keeps st (chain_new ts st)
    added = Keeps-chain_new ts st valid refl refl absent

    grown : Keeps (chain_new ts st) (grow (chain_new ts st))
    grown = grow-Keeps (chain_new ts st) added.valid

    at :
        (b : Bool)
        → ltb (max_sizet - tstring_header) ((length str + 1) % 2 ^ 64) ≡ b
        → Interns str st (if b then too_big else interned ts (grow (chain_new ts st)))
    at true e = refuses (ltb→lt _ _ e)
    at false e =
        gives refl (grown.kept ts (chain_new-Holds ts st valid refl refl absent))
          (ap (λ d. d st.fresh) (grow-dead (chain_new ts st))
            ∙ chain_new-dead ts st valid refl refl absent)
          (Keeps-trans added grown)

module _ (st : StringState) (valid : IsValid st) where
  pub Keeps-dead : (d : ℕ → Bool) → Keeps st (record st { dead = d })
  Keeps-dead d = record {
    valid = record {
      wide = valid.wide;
      buckets = valid.buckets;
      placed = valid.placed;
      hashed = valid.hashed;
      older = valid.older;
      same_bytes_one = valid.same_bytes_one;
      same_address_one = valid.same_address_one;
    };
    kept = λ x m. m;
  }

  pub Keeps-sweeping : (b : Bool) → Keeps st (record st { sweeping = b })
  Keeps-sweeping b = record {
    valid = record {
      wide = valid.wide;
      buckets = valid.buckets;
      placed = valid.placed;
      hashed = valid.hashed;
      older = valid.older;
      same_bytes_one = valid.same_bytes_one;
      same_address_one = valid.same_address_one;
    };
    kept = λ x m. m;
  }

  -- The search goes over the chain in which a string of the table stands, and finds it.
  finds_held :
      (x : StringObject)
      → Holds st x
      → find_string x.bytes (bucket st.hash (lmod (hash_of x.bytes) st.size)) ≡ some x
  finds_held x m =
      let chain = bucket st.hash (lmod (hash_of x.bytes) st.size) in
      let here : Memᴰ x chain =
        subst (λ h. InChain x st.hash (lmod h st.size)) (valid.hashed x m) m in
      let (y, e) = find_string-finds chain x here in
      let (in_chain, bytes) = find_string-some x.bytes chain e in
      let held : Holds st y =
        subst (InChain y st.hash) (sym (valid.placed y _ in_chain)) in_chain in
      e ∙ ap some (valid.same_bytes_one y x held m bytes)

  -- From a valid table luaS_newlstr comes to what `Interns` says.
  pub intern-Interns : (str : List ℕ) → Interns str st (intern str st)
  unfolding intern intern_with
  intern-Interns str = at (find_string str (bucket st.hash (lmod (hash_of str) st.size))) refl
    where
      at :
          (o : Option StringObject)
          → find_string str (bucket st.hash (lmod (hash_of str) st.size)) ≡ o
          → Interns str st (intern_with str o st)
      at none e = newlstr-Interns str st valid (λ x m same. none_ne (
          sym e
          ∙ ap (λ s. find_string s (bucket st.hash (lmod (hash_of s) st.size))) (sym same)
          ∙ finds_held x m))
        where
          none_ne : {x : StringObject} → none ≢ some x
          none_ne h = cc
      at (some ts) e =
          let (in_chain, bytes) = find_string-some str _ e in
          gives bytes (subst (InChain ts st.hash) (sym (valid.placed ts _ in_chain)) in_chain)
            (sym (if_true false (st.dead ts.address) (==-refl ts.address)))
            (Keeps-dead (update st.dead ts.address false))

  pub intern-held :
      (x : StringObject)
      → Holds st x
      → intern x.bytes st ≡ interned x (record st { dead = update st.dead x.address false })
  unfolding intern intern_with
  intern-held x m = ap (λ o. intern_with x.bytes o st) (finds_held x m)
