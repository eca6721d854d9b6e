-- ===== src/Lib.antt =====
-- A model of the repository's Lua bytecode compiler and of the parts of liblua that it stands on.
--
-- luacompile.c compiles a Lua source file with liblua and saves the function as a precompiled
-- chunk. Lua loads such a chunk again.
--
--   Luac    luacompile.c: main and its writer callback, and lua_dump of lua-5.1/lapi.c. What the
--           program sees of the C library and of the compiler is the record Host.
--   Dump    lua-5.1/ldump.c, one function for each of its functions, over any writer callback.
--           DumpState is the struct of that name.
--   Undump  lua-5.1/lundump.c. A loader takes the input stream and returns a value with the stream
--           that is left, or the error that the program throws.
--   Zio     lua-5.1/lzio.c: the buffered stream between the reader callback and the loader.
--   Proto   the prototypes of lua-5.1/lobject.h that the others pass on.
--   Opcodes lua-5.1/lopcodes.h and lopcodes.c: the fields of an instruction and the modes of opcodes.
--   Verifier  luaG_checkcode of lua-5.1/ldebug.c, which the loader calls for each function. A check
--           that fails is `refused`; a read outside an array is `fault`.
--   Objects the floating point byte, luaO_chunkid and luaO_log2 of lua-5.1/lobject.c. luaO_log2 starts
--           at -1; the model's bits_of is one more.
--   Tables  the sizes of the array part of a table and luaH_getn, of lua-5.1/ltable.c. A lookup in the hash
--           part is a function.
--   Patterns  the pattern matcher of lua-5.1/lstrlib.c, match and all that it calls, with <ctype.h> as
--           the record Ctype; and the format %q.
--   Lexer   lua-5.1/llex.c over the stream of Zio, with the C library as the record Clib.
--   Upvalues  luaF_findupval, luaF_close and unlinkupval of lua-5.1/lfunc.c. An upvalue is known by
--           its index in the heap of the model; a linked list is the list of such indices. The other
--           threads are the list of their open upvalues.
--   Jumps   the lists of jumps of lua-5.1/lcode.c: getjump, fixjump, luaK_concat and luaK_patchtohere.
--   Interned  lua-5.1/lstring.c: luaS_newlstr and luaS_resize over the table of strings. An object is known by
--           its address. The sweep that frees strings belongs to the collector.
--   References  luaL_ref and luaL_unref of lua-5.1/lauxlib.c on a table, with the calls of the C
--           interface as the record Api, and doubles as an instance of it.
--   Limits  the limits of lua-5.1/llimits.h.
--   Chunk   the writer and the loader together, and the loader with the verifier.
--   Common  lists, tests, bits and bytes.
--
-- Sizes and layouts are those of x86-64. An unsigned number is a natural number with its range as
-- a hypothesis, a C int its 32-bit pattern, a string the list of its bytes.
--
-- The loop of luaZ_read runs on fuel, as many rounds as bytes are asked for, and each round takes
-- one at least. The fuel of LoadFunction is the number of its nested calls for which the C stack has
-- room, since the source has no limit: the nesting of functions is enough for a chunk that luaU_dump
-- wrote, and one more than the bytes of the input for any input.
--
-- The loop of symbexec runs on fuel, as many rounds as the code has words, and the pc grows in each.
-- Undump takes the verifier as a parameter, the function code_ok, which may also crash.
--
-- The loop of luaO_int2fb runs on fuel: 29 rounds bring any unsigned int below 16. So does that of
-- luaO_log2: three shifts bring any unsigned int below 256.
--
-- match runs on fuel, more than the length of the pattern: each call in it is further on there. The
-- loops in it run on fuel up to the length of the subject or of the pattern.
--
-- The loop of luaK_concat runs on fuel, the length of the code, which no list of jumps exceeds.
--
-- The searches of luaH_getn run on fuel: the index that is halved, and MAX_INT for the others.
--
-- The hash of luaS_newlstr runs on fuel, the length of the string: each round goes back a character
-- at least.
--
-- llex runs on fuel, more than the characters that are left: each round of a loop consumes one.
--
-- Not modelled: the compiler behind luaL_loadfile (a parameter), the collector and allocation
-- (which is taken to succeed), the text of the loader's messages, the scripts under script/, and the
-- parts of liblua that no file above names.
pub mod Common
pub mod Zio
pub mod Limits
pub mod Proto
pub mod Dump
pub mod Undump
pub mod Opcodes
pub mod Verifier
pub mod Chunk
pub mod Objects
pub mod Tables
pub mod Patterns
pub mod Lexer
pub mod Jumps
pub mod Interned
pub mod Upvalues
pub mod References
pub mod Luac
