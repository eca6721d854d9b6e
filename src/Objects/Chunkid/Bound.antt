-- ===== src/Objects/Chunkid/Bound.antt =====
-- The name of a source fits its buffer.
use hack_livesuite.Common.{
  not_ltb, ℕ, ◌+◌, ◌-◌, ◌≤◌, ◌<◌, ◌≡◌, refl, arith, Bool, true, false, ◌==◌, ltb, if◌then◌else◌,
  List, [], ◌∷◌, ◌++◌, length, take, drop, min, length-append, length-take, length-drop,
}
use hack_livesuite.Objects.Chunkid.{to_newline, dots, closing, file_id, string_id, chunkid}

chosen-lt :
    (x y : List ℕ) {n : ℕ} (b : Bool)
    → (b ≡ true → length x < n)
    → (b ≡ false → length y < n)
    → length (if b then x else y) < n
chosen-lt x y true u v = u refl
chosen-lt x y false u v = v refl

file_id-lt : (name : List ℕ) (room : ℕ) → length (file_id name room) < room + 8
unfolding file_id
file_id-lt name room =
    chosen-lt _ _ (ltb room (length name))
      (λ _. omega (
        arith,
        length-append dots (drop (length name - room) name),
        length-drop (length name - room) name,
      ))
      (λ f. omega (arith, not_ltb room (length name) f))

string_id-lt : (source : List ℕ) (room : ℕ) → length (string_id source room) < room + 17
unfolding string_id
string_id-lt source room =
    let len = min (to_newline source) room in
    let body = if ltb len (length source) then take len source ++ dots else source in
    let bound : length body < room + 4 =
      chosen-lt _ _ (ltb len (length source))
        (λ _. omega (arith, length-append (take len source) dots, length-take len source))
        (λ f. omega (arith, not_ltb len (length source) f)) in
    omega (arith, bound, length-append body closing)

-- The name that luaO_chunkid writes is, with its terminating zero, no longer than the buffer, for
-- every source and every buffer of 17 bytes or more.
pub length-chunkid :
    (source : List ℕ) (bufflen : ℕ) → 17 ≤ bufflen → length (chunkid source bufflen) < bufflen
unfolding chunkid
length-chunkid [] n h = omega (arith, string_id-lt [] (n - 17))
length-chunkid (c ∷ name) n h =
    chosen-lt _ _ (c == 61) (λ _. omega (arith, length-take (n - 1) name))
      (λ _.
        chosen-lt _ _ (c == 64) (λ _. omega (arith, file_id-lt name (n - 8)))
          (λ _. omega (arith, string_id-lt (c ∷ name) (n - 17))))
