-- ===== src/Zio/Stream.antt =====
-- luaZ_read against the bytes that the reader has still to give.
use hack_livesuite.Common.{
  ℕ, zero, suc, ◌-◌, ◌≤◌, min, ◌≡◌, refl, arith, none, some, List, [], ◌∷◌, ◌++◌, length, take,
  drop,
}
use hack_livesuite.Common.{append-nil, ◌⊎◌, inl, inr, ap, length-append, length-drop, suc-==-zero}
use native.Mathlib.Nat.{sub-zero, suc-sub-suc}
use hack_livesuite.Zio.{Zio, Copied, init, lookahead, read_loop, read}

-- The blocks up to the first empty one, joined.
unfoldable pub until_end : List (List ℕ) → List ℕ
until_end [] = []
until_end ([] ∷ rest) = []
until_end ((c ∷ cs) ∷ rest) = c ∷ (cs ++ until_end rest)

-- The bytes that are still to come before EOZ.
unfoldable pub stream : Zio → List ℕ
unfolding until_end
stream z = z.buffered ++ until_end z.blocks

pub stream_buffered : (b : List ℕ) → stream (record { blocks = []; buffered = b }) ≡ b
unfolding stream
stream_buffered b = append-nil b

pub stream-init : (blocks : List (List ℕ)) → stream (init blocks) ≡ until_end blocks
unfolding stream init
stream-init blocks = refl

-- What a look ahead does: it meets the end of the stream, or leaves a buffer that is not empty, of
-- which it shows the first byte, and the stream as it was.
abbrev Ahead : Zio → Type 0
Ahead z =
    ((z1 : Zio) × (lookahead z ≡ (none, z1)) × (stream z ≡ []))
    ⊎ ((c : ℕ) × (cs : List ℕ) × (rest : List (List ℕ)) × (lookahead z
          ≡ (some c, record { blocks = rest; buffered = c ∷ cs }))
        × (stream z ≡ c ∷ (cs ++ until_end rest)))

lookahead_cases :
    (blocks : List (List ℕ)) (buffered : List ℕ)
    → Ahead (record { blocks = blocks; buffered = buffered })
unfolding lookahead stream
lookahead_cases blocks (c ∷ cs) = inr (c, cs, blocks, refl, refl)
lookahead_cases [] [] = inl (_, refl, refl)
lookahead_cases ([] ∷ rest) [] = inl (_, refl, refl)
lookahead_cases ((c ∷ cs) ∷ rest) [] = inr (c, cs, rest, refl, refl)

lookahead-Ahead : (z : Zio) → Ahead z
lookahead-Ahead z = lookahead_cases z.blocks z.buffered

-- Reading `n` bytes in two parts, the first inside `xs`.
take_split :
    (m n : ℕ) (xs ys : List ℕ)
    → m ≤ n
    → m ≤ length xs
    → take n (xs ++ ys) ≡ take m xs ++ take (n - m) (drop m xs ++ ys)
take_split zero n xs ys h k = rw (sub-zero n)
take_split (suc m) n [] ys h k = absurd (omega arith)
take_split (suc m) zero xs ys h k = absurd (omega arith)
take_split (suc m) (suc n) (x ∷ xs) ys h k =
    rw suc-sub-suc (ap (◌∷◌ x) (take_split m n xs ys (omega arith) (omega arith)))

drop_split :
    (m n : ℕ) (xs ys : List ℕ)
    → m ≤ n
    → m ≤ length xs
    → drop n (xs ++ ys) ≡ drop (n - m) (drop m xs ++ ys)
drop_split zero n xs ys h k = rw (sub-zero n)
drop_split (suc m) n [] ys h k = absurd (omega arith)
drop_split (suc m) zero xs ys h k = absurd (omega arith)
drop_split (suc m) (suc n) (x ∷ xs) ys h k =
    rw suc-sub-suc (drop_split m n xs ys (omega arith) (omega arith))

-- What luaZ_read promises of a stream `s`: it takes the first `n` bytes, or all that there are,
-- returns the number of missing bytes, and leaves the rest of the stream if none is missing.
pub record IsRead (s : List ℕ) (n : ℕ) (r : Copied) : Type 0 where
  pub missing : r.missing ≡ n - length s
  pub bytes : r.bytes ≡ take n s
  pub rest : n ≤ length s → stream r.zio ≡ drop n s

module _ (fuel : ℕ) (z : Zio) (n : ℕ) where
  read_loop_eoz :
      (z1 : Zio)
      → lookahead z ≡ (none, z1)
      → read_loop (suc fuel) z (suc n) ≡ record { missing = suc n; bytes = []; zio = z1 }
  unfolding read_loop
  read_loop_eoz z1 e = ground arith

  -- One round over the buffer `b` that the look ahead left.
  read_loop_byte :
      (c : ℕ) (z1 : Zio)
      → lookahead z ≡ (some c, z1)
      → let m = min (suc n) (length z1.buffered) in
        let more = read_loop fuel (record z1 { buffered = drop m z1.buffered }) (suc n - m) in
        read_loop (suc fuel) z (suc n) ≡ record more { bytes = take m z1.buffered ++ more.bytes }
  unfolding read_loop
  read_loop_byte c z1 e = rw (suc-==-zero n, ap (λ p. p.0) e, ap (λ p. p.1) e)

-- A first part of `m` bytes, and then a correct reading of the others.
IsRead-split :
    (m n : ℕ) (b ys : List ℕ) (more : Copied)
    → m ≤ n
    → m ≤ length b
    → IsRead (drop m b ++ ys) (n - m) more
    → IsRead (b ++ ys) n (record more { bytes = take m b ++ more.bytes })
IsRead-split m n b ys more h k r = record {
  missing =
      omega (arith, r.missing, length-append b ys, length-append (drop m b) ys, length-drop m b);
  bytes = rw (take_split m n b ys h k) (ap (◌++◌ (take m b)) r.bytes);
  rest = λ e.
      rw (drop_split m n b ys h k)
        (r.rest (omega (arith, length-append b ys, length-append (drop m b) ys, length-drop m b)));
}

read_loop-IsRead :
    (fuel : ℕ) (z : Zio) (n : ℕ) → n ≤ fuel → IsRead (stream z) n (read_loop fuel z n)
unfolding stream
read_loop-IsRead zero z zero h =
    unfold read_loop in record { missing = omega arith; bytes = refl; rest = λ _. refl }
read_loop-IsRead zero z (suc n) h = absurd (omega arith)
read_loop-IsRead (suc fuel) z zero h =
    unfold read_loop in record { missing = omega arith; bytes = refl; rest = λ _. refl }
read_loop-IsRead (suc fuel) z (suc n) h = elim (lookahead-Ahead z) [
  | inl (z1, e, s) ↦
      rw (read_loop_eoz fuel z n z1 e, s)
        (record { missing = omega arith; bytes = refl; rest = λ k. absurd (omega arith) })
  | inr (c, cs, rest, e, s) ↦
      let m = min (suc n) (length (c ∷ cs)) in
      let z2 : Zio = record { blocks = rest; buffered = drop m (c ∷ cs) } in
      let more = read_loop-IsRead fuel z2 (suc n - m) (omega arith) in
      rw (read_loop_byte fuel z n c _ e, s)
        (IsRead-split m (suc n) (c ∷ cs) (until_end rest) _ (omega arith) (omega arith) more)
]

-- luaZ_read on any stream, however the reader cuts it into blocks.
pub read-IsRead : (z : Zio) (n : ℕ) → IsRead (stream z) n (read z n)
unfolding read
read-IsRead z n = read_loop-IsRead n z n (omega arith)
