-- ===== src/Objects/Chunkid.antt =====
-- luaO_chunkid: the name of a source in a message. A C string is the list of the bytes before its
-- terminating zero, so that `source[len]` is zero at the end of the list alone.
pub mod Bound
use hack_livesuite.Common.{
  ℕ, zero, suc, ◌+◌, ◌-◌, ◌||◌, ◌==◌, ltb, if◌then◌else◌, List, [], ◌∷◌, ◌++◌, length, take, drop,
  min,
}

-- strcspn(source, "\n\r")
unfoldable pub to_newline : List ℕ → ℕ
to_newline [] = 0
to_newline (c ∷ cs) = let rest = to_newline cs in if c == 10 || c == 13 then 0 else rest + 1

abbrev pub dots : List ℕ
dots = 46 ∷ 46 ∷ 46 ∷ []

-- [string "
abbrev pub opening : List ℕ
opening = 91 ∷ 115 ∷ 116 ∷ 114 ∷ 105 ∷ 110 ∷ 103 ∷ 32 ∷ 34 ∷ []

abbrev pub closing : List ℕ
closing = 34 ∷ 93 ∷ []

-- The branch of a file name, for the room that is left: sizeof(" '...' ") is 8.
unfoldable pub file_id : List ℕ → ℕ → List ℕ
file_id name room = if ltb room (length name) then dots ++ drop (length name - room) name else name

-- The branch of a string, for the room that is left: sizeof(" [string \"...\"] ") is 17.
unfoldable pub string_id : List ℕ → ℕ → List ℕ
string_id source room =
    let len = min (to_newline source) room in
    opening ++ (if ltb len (length source) then take len source ++ dots else source) ++ closing

-- luaO_chunkid
unfoldable pub chunkid : List ℕ → ℕ → List ℕ
chunkid [] bufflen = string_id [] (bufflen - 17)
chunkid (c ∷ name) bufflen =
    if c == 61
    then take (bufflen - 1) name
    else (if c == 64 then file_id name (bufflen - 8) else string_id (c ∷ name) (bufflen - 17))
