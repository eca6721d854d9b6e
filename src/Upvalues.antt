-- ===== src/Upvalues.antt =====
-- lua-5.1/lfunc.c: the open upvalues of a stack. An upvalue is known by its index in `heap`, where
-- a new one is put at the end. The two linked lists are lists of such indices. What luaC_linkupval
-- does to the colour of an upvalue belongs to the collector; `dead` tells what isdead says.
pub mod Open
pub mod Find
pub mod Close
mod Runs
use hack_livesuite.Common.{
  ℕ, zero, suc, ◌+◌, Bool, true, false, ◌==◌, leb, if◌then◌else◌, update, List, [], ◌∷◌, ◌++◌,
  length, get_elem?, set, Option, none, some,
}

-- A TValue: its type tag and its value word.
abbrev pub TValue : Type 0
TValue = ℕ × ℕ

-- Where the value of an upvalue lives: `v` in the stack, or in the upvalue itself.
pub data Place : Type 0 where
  opened : ℕ → Place
  closed : TValue → Place
  freed : Place

-- `openupval` is the list of the thread, `uvhead` that of the state, which has the open upvalues of
-- all threads, `rootgc` the collector's. `other_threads` are those in the lists of the other threads.
-- A level is an address, in the stack of one thread, and `stack` the values at them.
pub record UpvalState : Type 0 where
  pub stack : ℕ → TValue
  pub heap : List Place
  pub dead : ℕ → Bool
  pub openupval : List ℕ
  pub other_threads : List ℕ
  pub uvhead : List ℕ
  pub rootgc : List ℕ

-- The stack level at which an open upvalue lives. A closed one stands in no list of open ones.
abbrev pub level_in : Option Place → Option ℕ
level_in (some (opened l)) = some l
level_in _ = none

abbrev pub level_of : List Place → ℕ → Option ℕ
level_of heap id = level_in (get_elem? heap id)

-- The loop of luaF_findupval over the list of open upvalues: the upvalue that it finds, or else
-- the list with `new` chained in its position.
unfoldable pub chain : ℕ → ℕ → Option ℕ → ℕ → List ℕ → Option ℕ × List ℕ → Option ℕ × List ℕ
chain level new none id ids rest = (none, new ∷ id ∷ ids)
chain level new (some l) id ids rest =
    if leb level l
    then (if l == level then (some id, id ∷ ids) else (rest.0, id ∷ rest.1))
    else (none, new ∷ id ∷ ids)

unfoldable pub search_open : List Place → ℕ → ℕ → List ℕ → Option ℕ × List ℕ
search_open heap level new [] = (none, new ∷ [])
search_open heap level new (id ∷ ids) =
    chain level new (level_of heap id) id ids (search_open heap level new ids)

-- luaF_findupval: the upvalue, and the state.
unfoldable pub upval_found : ℕ → Option ℕ × List ℕ → UpvalState → ℕ × UpvalState
upval_found level (some id, ids) st = (id, record st { dead = update st.dead id false })
upval_found level (none, ids) st = (
  length st.heap,
  record st {
    heap = st.heap ++ opened level ∷ [];
    dead = update st.dead (length st.heap) false;
    openupval = ids;
    uvhead = length st.heap ∷ st.uvhead;
  },
)

unfoldable pub findupval : ℕ → UpvalState → ℕ × UpvalState
findupval level st = upval_found level (search_open st.heap level (length st.heap) st.openupval) st

-- unlinkupval: out of the list of the state.
unfoldable pub unlink : ℕ → List ℕ → List ℕ
unlink id [] = []
unlink id (j ∷ ids) = if id == j then ids else j ∷ unlink id ids

-- The body of the loop of luaF_close, for an upvalue at the level l.
unfoldable pub close_one : ℕ → ℕ → UpvalState → UpvalState
close_one id l st =
    if st.dead id
    then (record st { heap = set st.heap id freed; uvhead = unlink id st.uvhead })
    else (record st {
      heap = set st.heap id (closed (st.stack l));
      uvhead = unlink id st.uvhead;
      rootgc = id ∷ st.rootgc;
    })

unfoldable pub close_next :
    ℕ → Option ℕ → ℕ → List ℕ → (UpvalState → UpvalState) → UpvalState → UpvalState
close_next level none id ids rest st = record st { openupval = id ∷ ids }
close_next level (some l) id ids rest st =
    if leb level l then rest (close_one id l st) else record st { openupval = id ∷ ids }

-- The loop of luaF_close over the list of open upvalues, which it takes from the front.
unfoldable pub close_list : ℕ → List ℕ → UpvalState → UpvalState
close_list level [] st = record st { openupval = [] }
close_list level (id ∷ ids) st =
    close_next level (level_of st.heap id) id ids (close_list level ids) st

-- luaF_close
unfoldable pub close : ℕ → UpvalState → UpvalState
close level st = close_list level st.openupval st
