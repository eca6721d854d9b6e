-- ===== src/Luac.antt =====
-- luacompile.c, the bytecode compiler of the repository, and lua_dump of lua-5.1/lapi.c.
-- The C library and the part of liblua that compiles a source file are the caller's: `Host` has
-- what the program sees of them.
pub mod Main
mod Runs
use hack_livesuite.Common.{ℕ, ◌==◌, Option, none, some, List, [], ◌∷◌, Bool, true, false}
use hack_livesuite.Common.{if◌then◌else◌, length}
use hack_livesuite.Proto.{TString, Proto}
use hack_livesuite.Dump.{dump}

-- luaL_newstate, luaL_loadfile, fopen(…, "wb"), fwrite and fclose, with File the state of an open file.
-- A loaded file leaves a value on the stack, which is a Lua function with its prototype, or none.
-- fwrite changes the file and returns how many bytes it wrote, which may be fewer than it is asked
-- to; the program drops the count. fclose flushes the file; the program drops its result too.
pub record Host : Type 1 where
  pub File : Type 0
  pub newstate : Bool
  pub loadfile : TString → Option (Option Proto)
  pub fopen : TString → Option File
  pub fwrite : File → List ℕ → File × ℕ
  pub fclose : File → File

-- What the program prints at its end.
pub data Report : Type 0 where
  usage cannot_create_state load_error cannot_open dump_error saved : Report

-- The Lua state and the output file, opened and closed, in order.
pub data Resource : Type 0 where
  open_state close_state open_file close_file : Resource

pub record Exit (F : Type 0) : Type 0 where
  pub code : ℕ
  pub report : Report
  pub output : Option F
  pub resources : List Resource

module _ (h : Host) where
  open h use {File, newstate, loadfile, fopen, fwrite, fclose}

  -- `writer`: the count of fwrite is dropped, and the status is always 0.
  abbrev pub writer : File → List ℕ → File × ℕ
  writer file p = ((fwrite file p).0, 0)

  -- lua_dump on the value on top of the stack
  unfoldable pub lua_dump : Option Proto → File → File × ℕ
  lua_dump none file = (file, 1)
  lua_dump (some f) file = dump writer f file false

  -- From the test of lua_dump's status on.
  unfoldable pub finish : File × ℕ → Exit File
  finish (file, status) =
      let resources = open_state ∷ open_file ∷ close_file ∷ close_state ∷ [] in
      if status == 0
      then record { code = 0; report = saved; output = some (fclose file); resources = resources }
      else record {
        code = 1;
        report = dump_error;
        output = some (fclose file);
        resources = resources;
      }

  -- From `FILE *file = fopen(output_file, "wb");` on.
  unfoldable pub write_output : Option Proto → Option File → Exit File
  write_output top none = record {
    code = 1;
    report = cannot_open;
    output = none;
    resources = open_state ∷ close_state ∷ [];
  }
  write_output top (some file) = finish (lua_dump top file)

  -- From `if (luaL_loadfile(L, input_file))` on.
  unfoldable pub compile : TString → Option (Option Proto) → Exit File
  compile output_file none = record {
    code = 1;
    report = load_error;
    output = none;
    resources = open_state ∷ close_state ∷ [];
  }
  compile output_file (some top) = write_output top (fopen output_file)

  unfoldable pub main : List TString → Exit File
  main (program ∷ input_file ∷ output_file ∷ []) =
      if newstate
      then compile output_file (loadfile input_file)
      else record { code = 1; report = cannot_create_state; output = none; resources = [] }
  main _ = record { code = 1; report = usage; output = none; resources = [] }
