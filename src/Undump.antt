-- ===== src/Undump.antt =====
-- lua-5.1/lundump.c: loading a precompiled chunk. `code_ok` stands for luaG_checkcode, the bytecode
-- verifier of ldebug.c. Allocation is taken to succeed. The text of the messages is left out, and
-- with it the name of the chunk in them. The recursion of LoadFunction has no limit in the source;
-- its fuel is the number of nested calls for which the C stack has room.
pub mod Reads
pub mod View
pub mod RoundTrip
pub mod Regular
pub mod Pieces
pub mod Total
pub mod Checked
use hack_livesuite.Common.{ℕ, zero, suc, ◌+◌, ◌-◌, ◌*◌, ◌%◌, ◌^◌, Option, none, some}
use hack_livesuite.Common.{List, [], ◌∷◌, ◌++◌, Bool, true, false, not, ◌||◌}
use hack_livesuite.Common.{◌==◌, leb, if◌then◌else◌, length, take, drop}
use hack_livesuite.Common.Bytes.{le_value}
use hack_livesuite.Zio.{Zio, read}
use hack_livesuite.Proto.{
  TString, Constant, LocVar, Fields, Proto, Protos, Verdict, accepted, rejected, crashed,
  same_bytes, proto, no_protos, more,
}
use hack_livesuite.Proto.{nil, boolean, number, string}
use hack_livesuite.Dump.{header}

pub data LoadError : Type 0 where
  unexpected_end bad_integer bad_constant bad_code bad_header : LoadError

-- A value with the input that is left, or the error that is thrown. In a `crash` the verifier read
-- outside the arrays of a function; in a `stack_overflow` the nesting was too deep for the C stack.
pub data Loaded (A : Type 0) : Type 0 where
  ok : A → Zio → Loaded A
  err : LoadError → Loaded A
  crash stack_overflow : Loaded A

abbrev pub Load : Type 0 → Type 0
Load A = Zio → Loaded A

abbrev pub pure : {A : Type 0} → A → Load A
pure a z = ok a z

abbrev pub fail : {A : Type 0} → LoadError → Load A
fail e z = err e

abbrev pub bind_loaded : {A B : Type 0} → Loaded A → (A → Load B) → Loaded B
bind_loaded (ok a z) f = f a z
bind_loaded (err e) f = err e
bind_loaded crash f = crash
bind_loaded stack_overflow f = stack_overflow

infixl 5 ◌>>=◌ ◌>>◌
abbrev pub ◌>>=◌ : {A B : Type 0} → Load A → (A → Load B) → Load B
◌>>=◌ m f z = bind_loaded (m z) f

abbrev pub ◌>>◌ : {B : Type 0} → Load (Unit {0}) → Load B → Load B
m >> k = m >>= λ _. k

-- IF(c,s)
abbrev pub error_if : Bool → LoadError → Load (Unit {0})
error_if true e = fail e
error_if false e = pure tt

-- LoadBlock, and the bytes that it stores.
unfoldable pub load_block : ℕ → Load (List ℕ)
load_block size z =
    let r = read z size in if r.missing == 0 then ok r.bytes r.zio else err unexpected_end

-- A char read back as an int: x86-64 has signed chars, so 0x80 and above are negative.
unfoldable pub sign_extend : ℕ → ℕ
sign_extend b = if leb 128 b then b + 2 ^ 32 - 256 else b

unfoldable pub load_char : Load ℕ
load_char = do bytes ← load_block 1; pure (sign_extend (le_value bytes))

-- LoadByte
unfoldable pub load_byte : Load ℕ
load_byte = do x ← load_char; pure (x % 256)

unfoldable pub load_int : Load ℕ
load_int = do
  bytes ← load_block 4
  error_if (leb (2 ^ 31) (le_value bytes)) bad_integer
  pure (le_value bytes)

unfoldable pub load_number : Load ℕ
load_number = do bytes ← load_block 8; pure (le_value bytes)

unfoldable pub load_string_of : ℕ → Load (Option TString)
load_string_of size =
    if size == 0 then pure none else (do s ← load_block size; pure (some (take (size - 1) s)))

unfoldable pub load_string : Load (Option TString)
load_string = do bytes ← load_block 8; load_string_of (le_value bytes)

-- An array of `n` ints or Instructions from its memory.
unfoldable pub words_of : ℕ → List ℕ → List ℕ
words_of zero bytes = []
words_of (suc n) bytes = le_value (take 4 bytes) ∷ words_of n (drop 4 bytes)

-- LoadCode, and the first part of LoadDebug
unfoldable pub load_vector : Load (List ℕ)
load_vector = do n ← load_int; bytes ← load_block (n * 4); pure (words_of n bytes)

-- `for (i=0; i<n; i++) a[i]=load(S);`
unfoldable pub load_times : {A : Type 0} → Load A → ℕ → Load (List A)
load_times load zero = pure []
load_times load (suc n) = do x ← load; xs ← load_times load n; pure (x ∷ xs)

unfoldable pub load_list : {A : Type 0} → Load A → Load (List A)
load_list load = do n ← load_int; load_times load n

unfoldable pub load_constant_of : ℕ → Load Constant
load_constant_of t =
    if t == 0
    then pure nil
    else if t == 1
    then (do b ← load_char; pure (boolean b))
    else if t == 3
    then (do x ← load_number; pure (number x))
    else if t == 4
    then (do s ← load_string; pure (string s))
    else fail bad_constant

unfoldable pub load_constant : Load Constant
load_constant = do t ← load_char; load_constant_of t

unfoldable pub load_constants : Load (List Constant)
load_constants = load_list load_constant

unfoldable pub load_locvar : Load LocVar
load_locvar = do
  varname ← load_string
  startpc ← load_int
  endpc ← load_int
  pure (record { varname = varname; startpc = startpc; endpc = endpc })

-- What LoadDebug stores.
pub record Debug : Type 0 where
  pub lineinfo : List ℕ
  pub locvars : List LocVar
  pub upvalues : List (Option TString)

unfoldable pub load_debug : Load Debug
load_debug = do
  lineinfo ← load_vector
  locvars ← load_list load_locvar
  upvalues ← load_list load_string
  pure (record { lineinfo = lineinfo; locvars = locvars; upvalues = upvalues })

-- `if (f->source==NULL) f->source=p;`
abbrev pub or_parent : Option TString → Option TString → Option TString
or_parent none p = p
or_parent (some s) p = some s

-- The loop of LoadConstants over the functions inside.
unfoldable pub load_protos : Load Proto → ℕ → Load Protos
load_protos load zero = pure no_protos
load_protos load (suc n) = do f ← load; fs ← load_protos load n; pure (more f fs)

-- What LoadFunction reads before the code: source, linedefined, lastlinedefined, nups, numparams,
-- is_vararg, maxstacksize. The other fields are empty as yet.
unfoldable pub load_prefix : Option TString → Load Fields
load_prefix p = do
  source ← load_string
  linedefined ← load_int
  lastlinedefined ← load_int
  nups ← load_byte
  numparams ← load_byte
  is_vararg ← load_byte
  maxstacksize ← load_byte
  pure (record {
    k = [];
    code = [];
    lineinfo = [];
    locvars = [];
    upvalues = [];
    source = or_parent source p;
    linedefined = linedefined;
    lastlinedefined = lastlinedefined;
    nups = nups;
    numparams = numparams;
    is_vararg = is_vararg;
    maxstacksize = maxstacksize;
  })

abbrev pub with_debug : Fields → Debug → Fields
with_debug f d = record f { lineinfo = d.lineinfo; locvars = d.locvars; upvalues = d.upvalues }

-- LoadHeader
unfoldable pub load_header : Load (Unit {0})
load_header = do h ← load_block 12; error_if (not (same_bytes header h)) bad_header

-- "=?", the source of a main function that names none
abbrev pub unknown_source : TString
unknown_source = 61 ∷ 63 ∷ []

-- What LoadFunction reads, up to the check of the code.
unfoldable pub load_unchecked : (Option TString → Load Proto) → Option TString → Load Proto
load_unchecked load p = do
  f ← load_prefix p
  code ← load_vector
  k ← load_constants
  n ← load_int
  ps ← load_protos (load f.source) n
  d ← load_debug
  pure (proto (with_debug (record f { code = code; k = k }) d) ps)

module _ (code_ok : Proto → Verdict) where
  -- `IF (!luaG_checkcode(f), "bad code");`
  abbrev pub judge : Verdict → Proto → Load Proto
  judge accepted f = pure f
  judge rejected f = fail bad_code
  judge crashed f = λ z. crash

  unfoldable pub checked : Proto → Load Proto
  checked f = judge (code_ok f) f

  -- LoadFunction, with its recursive calls made by `load`.
  unfoldable pub load_body : (Option TString → Load Proto) → Option TString → Load Proto
  load_body load p = load_unchecked load p >>= checked

  -- LoadFunction
  unfoldable pub load_function : ℕ → Option TString → Load Proto
  load_function zero p = λ z. stack_overflow
  load_function (suc fuel) p = load_body (load_function fuel) p

  -- luaU_undump
  unfoldable pub undump : ℕ → Load Proto
  undump fuel = load_header >> load_function fuel (some unknown_source)
