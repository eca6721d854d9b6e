-- ===== src/Chunk/Verified.antt =====
-- lua-5.1/lundump.c with luaG_checkcode of lua-5.1/ldebug.c for its verifier.
use hack_livesuite.Common.{
  ℕ, ◌<◌, ◌≡◌, refl, ap, arith, subst, Bool, true, false, ◌==◌, if◌then◌else◌, List, [], ◌∷◌, ◌++◌,
  length,
}
use hack_livesuite.Zio.{Zio}
use hack_livesuite.Proto.{Verdict, accepted, rejected, crashed, Fields, Proto, Protos, proto, more}
use hack_livesuite.Zio.Stream.{stream}
use hack_livesuite.Undump.{Loaded, LoadError, ok, err, crash, stack_overflow, undump}
use hack_livesuite.Undump.Regular.{Ended, finished, thrown, blamed}
use hack_livesuite.Undump.Total.{CrashesAt, undump-Ended}
use hack_livesuite.Undump.Checked.{IsChecked, AreChecked, undump-IsChecked}
use hack_livesuite.Verifier.Defs.{
  Checked, passed, refused, fault, accepts, symbexec, no_reg, check_code,
}
use hack_livesuite.Verifier.Valid.{Scanned, IsValidAt}
use hack_livesuite.Verifier.Sound.{EndsInReturn, symbexec-ne-fault, check_code-IsValidAt}

-- A function of the list.
pub data Member (h : Proto) : Protos → Type 0 where
  first : {k : Proto} {ps : Protos} → k ≡ h → Member h (more k ps)
  next : {k : Proto} {ps : Protos} → Member h ps → Member h (more k ps)

-- A function itself, or one inside it at any depth.
pub data Inside (g : Proto) : Proto → Type 0 where
  self : {h : Proto} → h ≡ g → Inside g h
  inner : {f : Fields} {ps : Protos} {h : Proto} → Member h ps → Inside g h → Inside g (proto f ps)

Member-IsChecked :
    (code_ok : Proto → Verdict) {h : Proto} {ps : Protos}
    → Member h ps
    → AreChecked code_ok ps
    → IsChecked code_ok h
unfolding AreChecked
Member-IsChecked code_ok (first e) (c, cs) = subst (IsChecked code_ok) e c
Member-IsChecked code_ok (next m) (c, cs) = Member-IsChecked code_ok m cs

Inside-IsChecked :
    (code_ok : Proto → Verdict) {g h : Proto}
    → Inside g h
    → IsChecked code_ok h
    → IsChecked code_ok g
unfolding IsChecked
Inside-IsChecked code_ok (self e) c = subst (IsChecked code_ok) e c
Inside-IsChecked code_ok (inner m i) (c, cs) =
    Inside-IsChecked code_ok i (Member-IsChecked code_ok m cs)

IsChecked-accepted :
    (code_ok : Proto → Verdict) (f : Fields) (ps : Protos)
    → IsChecked code_ok (proto f ps)
    → code_ok (proto f ps) ≡ accepted
unfolding IsChecked
IsChecked-accepted code_ok f ps (c, cs) = c

-- When luaU_undump with luaG_checkcode for its verifier returns a function, then this function and
-- every one inside it, if it has at least one word of code, ends in a RETURN, and each instruction
-- that a pass over its code comes to keeps within the function and is followed by what it needs.
pub undump-IsValidAt :
    (fuel : ℕ) (z z' : Zio) (h : Proto) (f : Fields) (ps : Protos)
    → undump check_code fuel z ≡ ok h z'
    → Inside (proto f ps) h
    → 0 < length f.code
    → EndsInReturn f × ((t : ℕ) → Scanned f t 0 → t < length f.code → IsValidAt f ps t)
undump-IsValidAt fuel z z' h f ps e i n = check_code-IsValidAt f ps n (
    IsChecked-accepted check_code f ps
      (Inside-IsChecked check_code i (undump-IsChecked check_code fuel z z' h e)))

abbrev pub code_of : Proto → List ℕ
code_of (proto f ps) = f.code

-- How loading ends on the bytes `s`: with a function, with an error, or with a crash of the
-- verifier on a function without code that was read at some place in them.
pub data Ends (s : List ℕ) : Loaded Proto → Type 0 where
  returns : {f : Proto} {z : Zio} → Ends s (ok f z)
  throws : {e : LoadError} → Ends s (err e)
  crashes :
      (front back : List ℕ)
      → s ≡ front ++ back
      → (c : CrashesAt check_code back) → code_of c.function ≡ []
      → Ends s crash

accepts-crashed : (m : Checked ℕ) → accepts m ≡ crashed → m ≡ fault
unfolding accepts
accepts-crashed (passed i) e = at (i == 0) e
  where
    at : (t : Bool) → (if t then rejected else accepted) ≡ crashed → passed i ≡ fault
    at true e = cc
    at false e = cc
accepts-crashed refused e = cc
accepts-crashed fault e = refl

check_code-crashed : (g : Proto) → check_code g ≡ crashed → code_of g ≡ []
unfolding check_code
check_code-crashed (proto f ps) e =
    at f.code refl (accepts-crashed (symbexec f ps (length f.code) no_reg) e)
  where
    at : (code : List ℕ) → f.code ≡ code → symbexec f ps (length f.code) no_reg ≡ fault → code ≡ []
    at [] e g = refl
    at (w ∷ ws) e g =
        absurd (
          symbexec-ne-fault f ps (length f.code) no_reg (omega (arith, ap length e)) (omega arith)
            g)

-- luaU_undump with luaG_checkcode ends as `Ends` says on every input, where the C stack has room for
-- more nested calls of LoadFunction than the input has bytes.
pub undump-Ends :
    (fuel : ℕ) (z : Zio) → length (stream z) < fuel → Ends (stream z) (undump check_code fuel z)
undump-Ends fuel z h = at (undump check_code fuel z) (undump-Ended check_code fuel z h)
  where
    at : (r : Loaded Proto) → Ended (CrashesAt check_code) (stream z) 12 r → Ends (stream z) r
    at (ok f y) (finished front e n) = returns
    at (err e) thrown = throws
    at crash (blamed front back e c) =
        crashes front back e c (check_code-crashed c.function c.verdict)
    at stack_overflow x = elim x [ ]
