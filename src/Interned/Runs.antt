-- ===== src/Interned/Runs.antt =====
-- Runs of luaS_newlstr.
use hack_livesuite.Common.{◌≡◌, ◌↔◌, refl, arith, false, [], ◌∷◌, update}
use hack_livesuite.Interned.{
  StringObject, StringState, interned, resize, intern, rehash, rehash_chain, put, hash_of,
  hash_loop, mix, find_string, intern_with, newlstr, grow, chain_new,
}
use hack_livesuite.Proto.{same_bytes}
use hack_livesuite.Interned.Valid.{IsValid, Keeps, resize-Keeps}
use hack_livesuite.Interned.Equal.{Interns, intern-Interns}
use hack_livesuite.Interned.Sharing.{
  Later, now, makes, intern-gave, intern-again, intern-same_address, no_strings, resize-no_strings,
}

-- One chain, so that all strings share it.
abbrev one_chain : StringState
one_chain = record {
  hash = [] ∷ [];
  nuse = 0;
  size = 1;
  sweeping = false;
  dead = λ _. false;
  fresh = 0;
}

one_chain-IsValid : IsValid one_chain
unfolding resize rehash no_strings
one_chain-IsValid = resize-no_strings 1 (omega arith)

-- The strings "a" and "b".
abbrev string_a : StringObject
string_a = record { address = 0; hash = 128; bytes = 97 ∷ [] }

abbrev string_b : StringObject
string_b = record { address = 1; hash = 131; bytes = 98 ∷ [] }

abbrev with_a : StringState
with_a = record {
  hash = (string_a ∷ []) ∷ [];
  nuse = 1;
  size = 1;
  sweeping = false;
  dead = update (λ _. false) 0 false;
  fresh = 1;
}

-- The second string doubles the table.
abbrev with_b : StringState
with_b = record {
  hash = (string_a ∷ []) ∷ (string_b ∷ []) ∷ [];
  nuse = 2;
  size = 2;
  sweeping = false;
  dead = update (update (λ _. false) 0 false) 1 false;
  fresh = 2;
}

makes_a : intern (97 ∷ []) one_chain ≡ interned string_a with_a
unfolding intern intern_with newlstr grow chain_new put hash_of hash_loop mix find_string
makes_a = refl

makes_b : intern (98 ∷ []) with_a ≡ interned string_b with_b
unfolding intern intern_with newlstr grow chain_new put hash_of hash_loop mix find_string same_bytes
    resize rehash rehash_chain
makes_b = refl

later_example : Later with_a with_b
later_example = makes (98 ∷ []) string_b now makes_b

intern-Interns_example : Interns (97 ∷ []) one_chain (intern (97 ∷ []) one_chain)
intern-Interns_example = intern-Interns one_chain one_chain-IsValid (97 ∷ [])

intern-again_example :
    intern (97 ∷ []) with_b
    ≡ interned string_a (record with_b { dead = update with_b.dead 0 false })
intern-again_example =
    intern-again (97 ∷ []) one_chain with_a with_b string_a one_chain-IsValid makes_a later_example

intern-same_address_example :
    (string_a.address ≡ string_b.address) ↔ (string_a.bytes ≡ string_b.bytes)
intern-same_address_example =
    intern-same_address (97 ∷ []) (98 ∷ []) one_chain with_a with_a with_b string_a string_b
      one_chain-IsValid makes_a now makes_b

resize-Keeps_example : Keeps with_b (resize 4 with_b)
resize-Keeps_example =
    resize-Keeps 4 with_b (omega arith)
      (intern-gave (98 ∷ []) with_a with_b string_b
        (intern-gave (97 ∷ []) one_chain with_a string_a one_chain-IsValid makes_a).2.valid
        makes_b).2.valid
