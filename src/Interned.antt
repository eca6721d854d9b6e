-- ===== src/Interned.antt =====
-- lua-5.1/lstring.c: the table of strings. A string object is known by its address, a number that
-- no other object has; a chain of objects is a list. Allocation is taken to succeed.
pub mod Chains
pub mod Rehash
pub mod Valid
pub mod New
pub mod Equal
pub mod Sharing
mod Runs
use hack_livesuite.Common.{
  ℕ, zero, suc, ◌+◌, ◌*◌, ◌-◌, ◌/◌, ◌%◌, ◌^◌, bit_and, bit_xor, Bool, true, false, ◌==◌, ◌&&◌, leb,
  ltb, if◌then◌else◌, List, [], ◌∷◌, length, get_or, set, replicate, Option, none, some, update,
}
use hack_livesuite.Limits.{max_int, max_sizet}
use hack_livesuite.Proto.{same_bytes}

-- A TString: its characters stand behind the header.
pub record StringObject : Type 0 where
  pub address : ℕ
  pub hash : ℕ
  pub bytes : List ℕ

-- The stringtable, and what else of the global state these functions use: `sweeping` is the test
-- for GCSsweepstring, `dead` says what isdead says, and `fresh` is the next address.
pub record StringState : Type 0 where
  pub hash : List (List StringObject)
  pub nuse : ℕ
  pub size : ℕ
  pub sweeping : Bool
  pub dead : ℕ → Bool
  pub fresh : ℕ

-- What luaS_newlstr comes to; too_big is the error of luaM_toobig.
pub data Interned : Type 0 where
  interned : StringObject → StringState → Interned
  too_big : Interned

abbrev pub lmod : ℕ → ℕ → ℕ
lmod s size = bit_and s (size - 1)

abbrev pub bucket : List (List StringObject) → ℕ → List StringObject
bucket hash i = get_or hash i []

-- A string at the front of its chain.
unfoldable pub put : ℕ → StringObject → List (List StringObject) → List (List StringObject)
put h1 p newhash = set newhash h1 (p ∷ bucket newhash h1)

-- The inner loop of luaS_resize, over one chain.
unfoldable pub rehash_chain :
    ℕ → List StringObject → List (List StringObject) → List (List StringObject)
rehash_chain newsize [] newhash = newhash
rehash_chain newsize (p ∷ next) newhash =
    rehash_chain newsize next (put (lmod p.hash newsize) p newhash)

-- The outer loop, over the old table.
unfoldable pub rehash :
    ℕ → List (List StringObject) → List (List StringObject) → List (List StringObject)
rehash newsize [] newhash = newhash
rehash newsize (chain ∷ hash) newhash = rehash newsize hash (rehash_chain newsize chain newhash)

-- luaS_resize
unfoldable pub resize : ℕ → StringState → StringState
resize newsize st =
    if st.sweeping
    then st
    else (record st { hash = rehash newsize st.hash (replicate newsize []); size = newsize })

-- The end of newlstr: a table that is too crowded is doubled.
unfoldable pub grow : StringState → StringState
grow st = if ltb st.size st.nuse && leb st.size (max_int / 2) then resize (st.size * 2) st else st

unfoldable pub chain_new : StringObject → StringState → StringState
chain_new ts st = record st {
  hash = put (lmod ts.hash st.size) ts st.hash;
  nuse = (st.nuse + 1) % 2 ^ 32;
  dead = update st.dead ts.address false;
  fresh = suc st.fresh;
}

-- sizeof(TString)
abbrev pub tstring_header : ℕ
tstring_header = 24

-- newlstr
unfoldable pub newlstr : List ℕ → ℕ → StringState → Interned
newlstr str h st =
    let ts : StringObject = record { address = st.fresh; hash = h; bytes = str } in
    if ltb (max_sizet - tstring_header) ((length str + 1) % 2 ^ 64)
    then too_big
    else interned ts (grow (chain_new ts st))

-- One round of the hash: h ^ ((h<<5)+(h>>2)+c) on 32 bits.
unfoldable pub mix : ℕ → ℕ → ℕ
mix h c = bit_xor h ((h * 32 + h / 4 + c) % 2 ^ 32)

-- The loop that computes the hash, on fuel.
unfoldable pub hash_loop : ℕ → ℕ → List ℕ → ℕ → ℕ → ℕ
hash_loop zero step str l1 h = h
hash_loop (suc fuel) step str l1 h =
    let rest = hash_loop fuel step str (l1 - step) (mix h (get_or str (l1 - 1) 0)) in
    if leb step l1 then rest else h

-- A step is one character at least, so that the length is fuel enough.
unfoldable pub hash_of : List ℕ → ℕ
hash_of str = hash_loop (length str) (length str / 32 + 1) str (length str) (length str % 2 ^ 32)

-- The loop of luaS_newlstr over a chain, with its test on the length and memcmp.
unfoldable pub find_string : List ℕ → List StringObject → Option StringObject
find_string str [] = none
find_string str (ts ∷ next) =
    if (length ts.bytes == length str) && same_bytes str ts.bytes
    then some ts
    else find_string str next

-- luaS_newlstr: a dead string that is found is made live again.
unfoldable pub intern_with : List ℕ → Option StringObject → StringState → Interned
intern_with str (some ts) st = interned ts (record st { dead = update st.dead ts.address false })
intern_with str none st = newlstr str (hash_of str) st

unfoldable pub intern : List ℕ → StringState → Interned
intern str st = intern_with str (find_string str (bucket st.hash (lmod (hash_of str) st.size))) st
