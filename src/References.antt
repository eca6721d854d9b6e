-- ===== src/References.antt =====
-- luaL_ref and luaL_unref of lua-5.1/lauxlib.c: references to values, kept in a table, with a list of
-- free ones that runs through it from the key 0. An int, also as a key, is its 32-bit pattern.
pub mod Valid
pub mod Free
pub mod Give
pub mod Doubles
mod Runs
use hack_livesuite.Common.{
  ℕ, zero, suc, ◌+◌, ◌-◌, ◌%◌, ◌^◌, ◌==◌, ltb, if◌then◌else◌, Option, none, some,
}

-- What the two use of the C interface on numbers and on the table: lua_tointeger of a value that
-- is not nil, with a lua_Integer as its 64-bit pattern, lua_pushinteger, and lua_objlen. nil is
-- `none`.
pub record Api (V : Type 0) : Type 0 where
  pub tointeger : V → ℕ
  pub pushinteger : ℕ → V
  pub objlen : (ℕ → Option V) → ℕ

-- LUA_REFNIL is -1.
abbrev pub refnil : ℕ
refnil = 2 ^ 32 - 1

module _ {V : Type 0} where
  -- lua_rawseti
  abbrev pub rawseti : (ℕ → Option V) → ℕ → Option V → ℕ → Option V
  rawseti t k v j = if k == j then v else t j

  -- `(int)lua_tointeger` of t[FREELIST_REF], which is 0 for nil.
  abbrev pub first_free : Api V → Option V → ℕ
  first_free api none = 0
  first_free api (some v) = api.tointeger v % 2 ^ 32

  -- `ref = (int)lua_objlen(L, t); ref++;`
  abbrev pub next_ref : Api V → (ℕ → Option V) → ℕ
  next_ref api t = (api.objlen t % 2 ^ 32 + 1) % 2 ^ 32

  -- From the test of `ref` on.
  unfoldable pub ref_at : Api V → V → ℕ → (ℕ → Option V) → ℕ × (ℕ → Option V)
  ref_at api v zero t = (next_ref api t, rawseti t (next_ref api t) (some v))
  ref_at api v (suc k) t = (suc k, rawseti (rawseti t 0 (t (suc k))) (suc k) (some v))

  -- luaL_ref of the value on the top of the stack.
  unfoldable pub ref : Api V → Option V → (ℕ → Option V) → ℕ × (ℕ → Option V)
  ref api none t = (refnil, t)
  ref api (some v) t = ref_at api v (first_free api (t 0)) t

  -- luaL_unref, which ignores the negative references.
  unfoldable pub unref : Api V → ℕ → (ℕ → Option V) → ℕ → Option V
  unref api r t =
      if ltb r (2 ^ 31) then rawseti (rawseti t r (t 0)) 0 (some (api.pushinteger r)) else t
