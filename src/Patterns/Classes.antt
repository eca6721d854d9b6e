-- ===== src/Patterns/Classes.antt =====
-- Character classes: classend, match_class, matchbracketclass and singlematch.
use hack_livesuite.Common.{
  ℕ, zero, suc, ◌+◌, ◌-◌, Bool, true, not, ◌&&◌, ◌==◌, leb, ltb, if◌then◌else◌, List, length,
  get_or, Option, none, some,
}
use hack_livesuite.Patterns.{
  Ctype, Outcome, done, thrown, out_of_fuel, ends_with_escape, missing_bracket,
}

-- The loop of classend over a set, on fuel.
unfoldable pub set_end : List ℕ → ℕ → ℕ → Outcome ℕ
set_end pat zero p = out_of_fuel
set_end pat (suc fuel) p =
    let skips = get_or pat p 0 == 37 && not (get_or pat (p + 1) 0 == 0) in
    let p' = if skips then p + 2 else p + 1 in
    let rest = set_end pat fuel p' in
    if get_or pat p 0 == 0
    then thrown missing_bracket
    else (if get_or pat p' 0 == 93 then done (p' + 1) else rest)

-- classend
unfoldable pub classend : List ℕ → ℕ → Outcome ℕ
classend pat p =
    if get_or pat p 0 == 37
    then (if get_or pat (p + 1) 0 == 0 then thrown ends_with_escape else done (p + 2))
    else (if get_or pat p 0 == 91
        then set_end pat (length pat + 1) (if get_or pat (p + 1) 0 == 94 then p + 2 else p + 1)
        else done (p + 1))

module _ (lib : Ctype) where
  -- The cases of the switch in match_class, by the letter.
  unfoldable pub class_of : ℕ → Option (ℕ → Bool)
  class_of l =
      if l == 97
      then some lib.isalpha
      else (if l == 99
          then some lib.iscntrl
          else (if l == 100
              then some lib.isdigit
              else (if l == 108
                  then some lib.islower
                  else (if l == 112
                      then some lib.ispunct
                      else (if l == 115
                          then some lib.isspace
                          else (if l == 117
                              then some lib.isupper
                              else (if l == 119
                                  then some lib.isalnum
                                  else (if l == 120
                                      then some lib.isxdigit
                                      else (if l == 122 then some (λ c. c == 0) else none)))))))))

  unfoldable pub in_class : Option (ℕ → Bool) → ℕ → ℕ → Bool
  in_class none c cl = cl == c
  in_class (some test) c cl = if lib.islower cl then test c else not (test c)

  -- match_class
  unfoldable pub match_class : ℕ → ℕ → Bool
  match_class c cl = in_class (class_of (lib.tolower cl)) c cl

  -- The loop of matchbracketclass on fuel: `p` grows up to `ec`.
  unfoldable pub bracket_loop : List ℕ → ℕ → ℕ → Bool → ℕ → ℕ → Bool
  bracket_loop pat c ec sig zero p = not sig
  bracket_loop pat c ec sig (suc fuel) before =
      let p = before + 1 in
      let escaped = get_or pat p 0 == 37 in
      let range = get_or pat (p + 1) 0 == 45 && ltb (p + 2) ec in
      let hit =
        if escaped
        then match_class c (get_or pat (p + 1) 0)
        else (if range
            then leb (get_or pat p 0) c && leb c (get_or pat (p + 2) 0)
            else get_or pat p 0 == c) in
      let rest =
        bracket_loop pat c ec sig fuel (if escaped then p + 1 else (if range then p + 2 else p)) in
      if ltb p ec then (if hit then sig else rest) else not sig

  -- matchbracketclass
  unfoldable pub matchbracketclass : List ℕ → ℕ → ℕ → ℕ → Bool
  matchbracketclass pat c p ec =
      let negated = get_or pat (p + 1) 0 == 94 in
      bracket_loop pat c ec (not negated) ec (if negated then p + 1 else p)

  -- singlematch
  unfoldable pub singlematch : List ℕ → ℕ → ℕ → ℕ → Bool
  singlematch pat c p ep =
      if get_or pat p 0 == 46
      then true
      else (if get_or pat p 0 == 37
          then match_class c (get_or pat (p + 1) 0)
          else (if get_or pat p 0 == 91
              then matchbracketclass pat c p (ep - 1)
              else get_or pat p 0 == c))
