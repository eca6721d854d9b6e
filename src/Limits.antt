-- ===== src/Limits.antt =====
-- lua-5.1/llimits.h: limits on sizes.
use hack_livesuite.Common.{ℕ, ◌-◌, ◌^◌}

-- MAX_INT, MAX_SIZET and LUA_MINBUFFER
abbrev pub max_int : ℕ
max_int = 2 ^ 31 - 3

abbrev pub max_sizet : ℕ
max_sizet = 2 ^ 64 - 3

abbrev pub min_buffer : ℕ
min_buffer = 32
