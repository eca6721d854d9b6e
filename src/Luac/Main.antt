-- ===== src/Luac/Main.antt =====
-- What a run of luac does.
use hack_livesuite.Common.{
  ℕ, ◌≤◌, ◌≡◌, ◌↔◌, refl, sym, ◌∙◌, ap, arith, Bool, true, false, List, [], ◌∷◌, ◌++◌, Option, none,
  some, ◌==◌, if◌then◌else◌, concat, append-nil, append_assoc, if_true, if_false, Bool-cases,
  length, take, inl, inr,
}
use hack_livesuite.Zio.{Zio}
use hack_livesuite.Zio.Stream.{stream}
use hack_livesuite.Proto.{Verdict, TString, Proto}
use hack_livesuite.Dump.Blocks.{Blocks, chunk_blocks}
use hack_livesuite.Dump.Write.{feed, dump-feed}
use hack_livesuite.Undump.{ok, undump, unknown_source}
use hack_livesuite.Undump.View.{view, depth, Fits}
use hack_livesuite.Chunk.{undump-chunk, chunk_lem}
use hack_livesuite.Luac.{
  Host, Exit, Resource, open_state, close_state, open_file, close_file, saved, cannot_create_state,
  lua_dump, finish, write_output, compile, main, writer,
}

pub take-length : {A : Type 0} (xs : List A) → take (length xs) xs ≡ xs
take-length [] = refl
take-length (x ∷ xs) = ap (◌∷◌ x) (take-length xs)

module _ (h : Host) where
  open h use {File, newstate, loadfile, fopen, fwrite, fclose}

  -- The file after the blocks were handed to fwrite one after the other.
  unfoldable pub write_blocks : File → Blocks → File
  write_blocks file [] = file
  write_blocks file (b ∷ bs) = write_blocks (fwrite file b).0 bs

  feed-writer : (bs : Blocks) (file : File) → feed (writer h) file bs ≡ (write_blocks file bs, 0)
  unfolding feed write_blocks
  feed-writer [] file = refl
  feed-writer (b ∷ bs) file = feed-writer bs (fwrite file b).0

  dump-writer :
      (f : Proto) (file : File)
      → lua_dump h (some f) file ≡ (write_blocks file (chunk_blocks false f), 0)
  unfolding lua_dump
  dump-writer f file = dump-feed (writer h) f file false ∙ feed-writer (chunk_blocks false f) file

  -- If the state is created, the input is loaded and the output is opened, then luac exits with 0
  -- and reports that the bytecode was saved, and each block of the unstripped chunk was handed to
  -- fwrite in order, and the file closed. No condition is on fwrite or fclose: the report is the
  -- same if they fail.
  pub main-saved :
      (program input_file output_file : TString) (f : Proto) (file : File)
      → newstate ≡ true
      → loadfile input_file ≡ some (some f)
      → fopen output_file ≡ some file
      → main h (program ∷ input_file ∷ output_file ∷ []) ≡ record {
        code = 0;
        report = saved;
        output = some (fclose (write_blocks file (chunk_blocks false f)));
        resources = open_state ∷ open_file ∷ close_file ∷ close_state ∷ [];
      }
  unfolding main compile write_output finish
  main-saved program input_file output_file f file hn hl ho =
      sym (if_true _ _ hn)
      ∙ ap (compile h output_file) hl
      ∙ ap (write_output h (some f)) ho
      ∙ ap (finish h) (dump-writer f file)

  -- A call with two arguments whose input loads as a Lua function and whose output opens.
  abbrev pub Succeeds : List TString → Type 0
  Succeeds argv =
      (program : TString) × (input_file : TString) × (output_file : TString) × (f : Proto)
      × (file : File) × (argv ≡ program ∷ input_file ∷ output_file ∷ [])
      × (newstate ≡ true)
      × (loadfile input_file ≡ some (some f))
      × (fopen output_file ≡ some file)

  write_output_zero :
      (top : Option Proto) (opened : Option File)
      → (write_output h top opened).code ≡ 0
      → (f : Proto) × (file : File) × (top ≡ some f) × (opened ≡ some file)
  unfolding write_output finish lua_dump
  write_output_zero none none e = absurd (omega arith)
  write_output_zero (some f) none e = absurd (omega arith)
  write_output_zero none (some file) e = absurd (omega arith)
  write_output_zero (some f) (some file) e = (f, file, refl, refl)

  compile_zero :
      (output_file : TString) (loaded : Option (Option Proto))
      → (compile h output_file loaded).code ≡ 0
      → (f : Proto) × (file : File) × (loaded ≡ some (some f)) × (fopen output_file ≡ some file)
  unfolding compile
  compile_zero output_file none e = absurd (omega arith)
  compile_zero output_file (some top) e =
      let (f, file, p, q) = write_output_zero top (fopen output_file) e in (f, file, ap some p, q)

  main_zero : (argv : List TString) → (main h argv).code ≡ 0 → Succeeds argv
  unfolding main
  main_zero [] e = absurd (omega arith)
  main_zero (a ∷ []) e = absurd (omega arith)
  main_zero (a ∷ b ∷ []) e = absurd (omega arith)
  main_zero (a ∷ b ∷ c ∷ []) e = elim (Bool-cases newstate) [
    | inl created ↦
        let branch = ap (λ r. r.code) (if_true (compile h c (loadfile b)) _ created) in
        let (f, file, p, q) = compile_zero c (loadfile b) (branch ∙ e) in
        (a, b, c, f, file, refl, created, p, q)
    | inr refused ↦
        let branch = ap (λ r. r.code) (if_false (compile h c (loadfile b)) no_state refused) in
        absurd (let one : 1 ≡ 0 = branch ∙ e in omega arith)
  ]
    where
      no_state : Exit File
      no_state = record { code = 1; report = cannot_create_state; output = none; resources = [] }
  main_zero (a ∷ b ∷ c ∷ d ∷ r) e = absurd (omega arith)

  -- luac exits with 0 exactly when it is called with two arguments, the state is created, the
  -- input loads as a Lua function and the output opens.
  pub main-Succeeds : (argv : List TString) → ((main h argv).code ≡ 0) ↔ Succeeds argv
  main-Succeeds argv = (main_zero argv, back)
    where
      back : Succeeds argv → (main h argv).code ≡ 0
      back (a, b, c, f, file, e, hn, hl, ho) =
          ap (λ x. (main h x).code) e ∙ ap (λ r. r.code) (main-saved a b c f file hn hl ho)

-- Which of the state and the file are open after a list of calls; `none` if one of them is opened
-- twice or closed when it is not open.
abbrev pub open_after : Option (Bool × Bool) → Resource → Option (Bool × Bool)
open_after (some (false, f)) open_state = some (true, f)
open_after (some (true, f)) close_state = some (false, f)
open_after (some (s, false)) open_file = some (s, true)
open_after (some (s, true)) close_file = some (s, false)
open_after _ _ = none

abbrev pub open_at_end : Option (Bool × Bool) → List Resource → Option (Bool × Bool)
open_at_end o [] = o
open_at_end o (r ∷ rs) = open_at_end (open_after o r) rs

-- Each thing that was opened is closed once, and nothing else is closed.
abbrev pub IsReleased : List Resource → Type 0
IsReleased rs = open_at_end (some (false, false)) rs ≡ some (false, false)

module _ (h : Host) where
  open h use {File, newstate, loadfile, fopen, fwrite, fclose}

  finish-IsReleased : (r : File × ℕ) → IsReleased (finish h r).resources
  unfolding finish
  finish-IsReleased (file, status) = elim (Bool-cases (status == 0)) [ inl z ↦ rw z | inr n ↦ rw n ]

  compile-IsReleased :
      (output_file : TString) (loaded : Option (Option Proto)) (opened : Option File)
      → fopen output_file ≡ opened
      → IsReleased (compile h output_file loaded).resources
  unfolding compile write_output
  compile-IsReleased output_file none opened e = refl
  compile-IsReleased output_file (some top) none e =
      ap (λ o. open_at_end (some (false, false)) (write_output h top o).resources) e
  compile-IsReleased output_file (some top) (some file) e =
      ap (λ o. open_at_end (some (false, false)) (write_output h top o).resources) e
      ∙ finish-IsReleased (lua_dump h top file)

  -- On every path of main, errors included, the Lua state and the output file are closed if and
  -- only if they were opened, and once.
  pub main-IsReleased : (argv : List TString) → IsReleased (main h argv).resources
  unfolding main
  main-IsReleased [] = refl
  main-IsReleased (a ∷ []) = refl
  main-IsReleased (a ∷ b ∷ []) = refl
  main-IsReleased (a ∷ b ∷ c ∷ []) =
      elim newstate
        as (λ x. IsReleased (if x then compile h c (loadfile b) else no_state).resources) [
          | true ↦ compile-IsReleased c (loadfile b) (fopen c) refl
          | false ↦ refl
        ]
    where
      no_state : Exit File
      no_state = record { code = 1; report = cannot_create_state; output = none; resources = [] }
  main-IsReleased (a ∷ b ∷ c ∷ d ∷ r) = refl

  -- Every fwrite of the blocks, one after the other, wrote all that it was given.
  unfoldable pub Written : File → Blocks → Type 0
  Written file [] = Unit {0}
  Written file (b ∷ bs) = ((fwrite file b).1 ≡ length b) × Written (fwrite file b).0 bs

  -- The bytes that the file has, or will have when what is buffered is flushed. fwrite appends to
  -- them as many of the bytes that it is given as it says.
  module _ (bytes : File → List ℕ)
      (appends : (file : File) (b : List ℕ)
        → bytes (fwrite file b).0 ≡ bytes file ++ take (fwrite file b).1 b) where
    bytes-write_blocks :
        (bs : Blocks) (file : File)
        → Written file bs
        → bytes (write_blocks h file bs) ≡ bytes file ++ concat bs
    unfolding write_blocks Written
    bytes-write_blocks [] file w = sym (append-nil (bytes file))
    bytes-write_blocks (b ∷ bs) file (all, w) =
        bytes-write_blocks bs (fwrite file b).0 w
        ∙ ap (λ x. x ++ concat bs)
            (appends file b
              ∙ ap (λ n. bytes file ++ take n b) all
              ∙ ap (λ x. bytes file ++ x) (take-length b))
        ∙ append_assoc (bytes file) b (concat bs)

    -- A run of luac on an output that was opened empty, in which each fwrite writes all that it is
    -- given and fclose keeps it, leaves a chunk that Lua loads as the function that luac compiled,
    -- debug information included, with the sources that it leaves out filled in. luac checks
    -- neither, so that its exit code does not tell. The function must fit its C types and pass the
    -- verifier, and the C stack have room for its nesting.
    pub main-undump :
        (program input_file output_file : TString) (f : Proto) (file out : File)
        (code_ok : Proto → Verdict) (fuel : ℕ) (z : Zio)
        → newstate ≡ true
        → loadfile input_file ≡ some (some f)
        → fopen output_file ≡ some file
        → bytes file ≡ []
        → Written file (chunk_blocks false f)
        → bytes (fclose (write_blocks h file (chunk_blocks false f)))
          ≡ bytes (write_blocks h file (chunk_blocks false f))
        → depth f ≤ fuel
        → Fits code_ok false f (some unknown_source)
        → (main h (program ∷ input_file ∷ output_file ∷ [])).output ≡ some out
        → stream z ≡ bytes out
        → (z' : Zio) × (undump code_ok fuel z ≡ ok (view false f (some unknown_source)) z')
          × (stream z' ≡ [])
    main-undump program input_file output_file f file out code_ok fuel z hn hl ho he hw hc d fit e
          s =
        let blocks = chunk_blocks false f in
        let saved_run = main-saved h program input_file output_file f file hn hl ho in
        let same : out ≡ fclose (write_blocks h file blocks) =
          cc (e, ap (λ r. r.output) saved_run) in
        undump-chunk code_ok false f fuel z [] d fit (
          s
          ∙ ap bytes same
          ∙ hc
          ∙ bytes-write_blocks blocks file hw
          ∙ ap (λ x. x ++ concat blocks) he
          ∙ sym (chunk_lem false f)
          ∙ sym (append-nil _))
