-- ===== src/Tables/Optimal.antt =====
-- The array part is the largest that is more than half in use.
use hack_livesuite.Common.{
  not_ltb, ℕ, zero, suc, ◌+◌, ◌*◌, ◌/◌, ◌^◌, ◌≤◌, ◌<◌, ◌≡◌, refl, sym, ap, ◌∙◌, ◌⊎◌, inl, inr,
  arith, Bool, true, false, not, ltb, ◌==◌, if◌then◌else◌, ltb→lt, ==_iff, List, [], ◌∷◌,
}
use native.Mathlib.Nat.{pow-suc}
use hack_livesuite.Tables.{Sizes, add_slice, sizes_loop, computesizes}

-- All keys that the counts tell of.
abbrev pub total : List ℕ → ℕ
total [] = 0
total (num ∷ nums) = num + total nums

-- The keys up to 2 ^ k, for counts from the first slice on.
abbrev pub keys_up_to : ℕ → List ℕ → ℕ
keys_up_to k [] = 0
keys_up_to zero (num ∷ nums) = num
keys_up_to (suc k) (num ∷ nums) = num + keys_up_to k nums

-- No slice has more keys than numbers.
abbrev pub AreCounts : ℕ → List ℕ → Type 0
AreCounts i [] = Unit {0}
AreCounts i (num ∷ nums) = (num + 2 ^ i / 2 ≤ 2 ^ i) × AreCounts (i + 1) nums

keys_up_to-le : (k : ℕ) (nums : List ℕ) → keys_up_to k nums ≤ total nums
keys_up_to-le k [] = omega arith
keys_up_to-le zero (num ∷ nums) = omega arith
keys_up_to-le (suc k) (num ∷ nums) = omega (arith, keys_up_to-le k nums)

pow-le : (i k : ℕ) → 2 ^ i ≤ 2 ^ (i + k)
pow-le i zero = let same : i + 0 ≡ i = omega arith in omega (arith, ap (λ j. 2 ^ j) same)
pow-le i (suc k) =
    let next : i + suc k ≡ suc (i + k) = omega arith in
    omega (arith, ap (λ j. 2 ^ j) next, pow-suc 2 (i + k), pow-le i k)

pow-lt : (i k : ℕ) → 2 * 2 ^ i ≤ 2 ^ (i + suc k)
pow-lt i k =
    let next : i + suc k ≡ suc (i + k) = omega arith in
    omega (arith, ap (λ j. 2 ^ j) next, pow-suc 2 (i + k), pow-le i k)

half_twice : (i t : ℕ) → 2 ^ i < 2 * t → 2 ^ i / 2 < t
half_twice i t h = omega arith

twice_half : (i t : ℕ) → 2 ^ i / 2 < t → 2 ^ i < 2 * t
twice_half i t h = omega arith

-- What a slice does to the sizes.
record Added (i num : ℕ) (s s' : Sizes) : Type 0 where
  counted : s'.a ≡ s.a + num
  grows : s.n ≤ s'.n
  bound : s'.n ≤ 2 ^ i
  best : 2 ^ i < 2 * s'.a → 2 ^ i ≤ s'.n
  chosen :
      ((s'.na ≡ s.na) × (s'.n ≡ s.n)) ⊎ ((s'.na ≡ s.a + num) × (s'.n ≡ 2 ^ i) × (2 ^ i < 2 * s'.na))

Added-cases :
    (i num : ℕ) (s : Sizes) (zero? more? : Bool)
    → s.a ≤ 2 ^ i / 2
    → s.n ≤ 2 ^ i
    → (num == 0) ≡ zero?
    → ltb (2 ^ i / 2) (s.a + num) ≡ more?
    → Added i num s (
        if not zero?
        then (if more?
            then record { a = s.a + num; na = s.a + num; n = 2 ^ i }
            else record s { a = s.a + num })
        else s)
Added-cases i num s true m h hn z t =
    let none : num ≡ 0 = (==_iff num 0).0 z in
    record {
      counted = omega arith;
      grows = omega arith;
      bound = hn;
      best = λ k. absurd (omega (arith, half_twice i s.a k));
      chosen = inl (refl, refl);
    }
Added-cases i num s false true h hn z t =
    let half : 2 ^ i / 2 < s.a + num = ltb→lt _ _ t in
    record {
      counted = refl;
      grows = hn;
      bound = omega arith;
      best = λ k. omega arith;
      chosen = inr (refl, refl, twice_half i (s.a + num) half);
    }
Added-cases i num s false false h hn z t = record {
  counted = refl;
  grows = omega arith;
  bound = hn;
  best = λ k. absurd (omega (arith, half_twice i (s.a + num) k, not_ltb _ _ t));
  chosen = inl (refl, refl);
}

Added-add_slice :
    (i num : ℕ) (s : Sizes)
    → s.a ≤ 2 ^ i / 2
    → s.n ≤ 2 ^ i
    → Added i num s (add_slice (2 ^ i) num s)
unfolding add_slice
Added-add_slice i num s h hn = Added-cases i num s _ _ h hn refl refl

-- The sizes `r` that the slices from the i-th on make of `s`.
record Optimal (i : ℕ) (nums : List ℕ) (s r : Sizes) : Type 0 where
  grows : s.n ≤ r.n
  best : (k : ℕ) → 2 ^ (i + k) < 2 * (s.a + keys_up_to k nums) → 2 ^ (i + k) ≤ r.n
  chosen :
      ((r.na ≡ s.na) × (r.n ≡ s.n))
      ⊎ ((k : ℕ) × (r.na ≡ s.a + keys_up_to k nums)
          × (r.n ≡ 2 ^ (i + k))
          × (2 ^ (i + k) < 2 * r.na))

-- No slice from here on is more than half in use.
Optimal-same :
    (i : ℕ) (nums : List ℕ) (s : Sizes) → s.a + total nums ≤ 2 ^ i / 2 → Optimal i nums s s
Optimal-same i nums s h = record {
  grows = omega arith;
  best = λ k l. absurd (omega (arith, pow-le i k, keys_up_to-le k nums));
  chosen = inl (refl, refl);
}

-- The first slice has all the keys that are left.
Optimal-stop :
    (i num : ℕ) (nums : List ℕ) (s s' : Sizes)
    → Added i num s s'
    → num + 2 ^ i / 2 ≤ 2 ^ i
    → s.a ≤ 2 ^ i / 2
    → s'.a ≡ s.a + total (num ∷ nums)
    → Optimal i (num ∷ nums) s s'
Optimal-stop i num nums s s' A fit h all = record {
  grows = A.grows;
  best = best;
  chosen = chosen A.chosen;
}
  where
    here : 2 ^ (i + 0) ≡ 2 ^ i
    here = ap (λ j. 2 ^ j) (omega arith)

    best : (k : ℕ) → 2 ^ (i + k) < 2 * (s.a + keys_up_to k (num ∷ nums)) → 2 ^ (i + k) ≤ s'.n
    best zero l = omega (arith, here, A.best (omega (arith, here, A.counted)))
    best (suc k) l =
        absurd (omega (arith, pow-lt i k, keys_up_to-le (suc k) (num ∷ nums), A.counted))

    chosen :
        ((s'.na ≡ s.na) × (s'.n ≡ s.n))
          ⊎ ((s'.na ≡ s.a + num) × (s'.n ≡ 2 ^ i) × (2 ^ i < 2 * s'.na))
        → ((s'.na ≡ s.na) × (s'.n ≡ s.n))
          ⊎ ((k : ℕ) × (s'.na ≡ s.a + keys_up_to k (num ∷ nums))
              × (s'.n ≡ 2 ^ (i + k))
              × (2 ^ (i + k) < 2 * s'.na))
    chosen (inl same) = inl same
    chosen (inr (x, y, z)) = inr (0, x, y ∙ sym here, omega (arith, here))

-- One slice before others.
Optimal-step :
    (i num : ℕ) (nums : List ℕ) (s s' r : Sizes)
    → Added i num s s'
    → Optimal (i + 1) nums s' r
    → Optimal i (num ∷ nums) s r
Optimal-step i num nums s s' r A O = record {
  grows = omega (arith, A.grows, O.grows);
  best = best;
  chosen = chosen A.chosen O.chosen;
}
  where
    here : 2 ^ (i + 0) ≡ 2 ^ i
    here = ap (λ j. 2 ^ j) (omega arith)

    next : (k : ℕ) → 2 ^ (i + 1 + k) ≡ 2 ^ (i + suc k)
    next k = ap (λ j. 2 ^ j) (omega arith)

    best : (k : ℕ) → 2 ^ (i + k) < 2 * (s.a + keys_up_to k (num ∷ nums)) → 2 ^ (i + k) ≤ r.n
    best zero l = omega (arith, here, A.best (omega (arith, here, A.counted)), O.grows)
    best (suc k) l = omega (arith, next k, O.best k (omega (arith, next k, A.counted)))

    chosen :
        ((s'.na ≡ s.na) × (s'.n ≡ s.n))
          ⊎ ((s'.na ≡ s.a + num) × (s'.n ≡ 2 ^ i) × (2 ^ i < 2 * s'.na))
        → ((r.na ≡ s'.na) × (r.n ≡ s'.n))
          ⊎ ((k : ℕ) × (r.na ≡ s'.a + keys_up_to k nums)
              × (r.n ≡ 2 ^ (i + 1 + k))
              × (2 ^ (i + 1 + k) < 2 * r.na))
        → ((r.na ≡ s.na) × (r.n ≡ s.n))
          ⊎ ((k : ℕ) × (r.na ≡ s.a + keys_up_to k (num ∷ nums))
              × (r.n ≡ 2 ^ (i + k))
              × (2 ^ (i + k) < 2 * r.na))
    chosen (inl (x, y)) (inl (u, v)) = inl (u ∙ x, v ∙ y)
    chosen (inr (x, y, z)) (inl (u, v)) = inr (0, u ∙ x, v ∙ y ∙ sym here, omega (arith, here))
    chosen c (inr (k, u, v, w)) =
        inr (suc k, omega (arith, A.counted), v ∙ next k, omega (arith, next k))

plus_one : (i : ℕ) → i + 1 ≡ suc i
plus_one i = omega arith

Optimal-cases :
    (i num : ℕ) (nums : List ℕ) (s s' rest : Sizes) (narray : ℕ) (goes_on last : Bool)
    → narray ≡ s.a + total (num ∷ nums)
    → num + 2 ^ i / 2 ≤ 2 ^ i
    → s.a ≤ 2 ^ i / 2
    → Added i num s s'
    → ltb (2 ^ i / 2) narray ≡ goes_on
    → (s'.a == narray) ≡ last
    → Optimal (i + 1) nums s' rest
    → Optimal i (num ∷ nums) s (if goes_on then (if last then s' else rest) else s)
Optimal-cases i num nums s s' rest narray false last all fit h A g l O =
    Optimal-same i (num ∷ nums) s (omega (arith, not_ltb _ _ g))
Optimal-cases i num nums s s' rest narray true true all fit h A g l O =
    Optimal-stop i num nums s s' A fit h ((==_iff s'.a narray).0 l ∙ all)
Optimal-cases i num nums s s' rest narray true false all fit h A g l O =
    Optimal-step i num nums s s' rest A O

Optimal-sizes_loop :
    (narray i : ℕ) (nums : List ℕ) (s : Sizes)
    → narray ≡ s.a + total nums
    → AreCounts i nums
    → s.a ≤ 2 ^ i / 2
    → s.n ≤ 2 ^ i
    → Optimal i nums s (sizes_loop narray i nums s)
unfolding sizes_loop
Optimal-sizes_loop narray i [] s all c h hn = Optimal-same i [] s (omega arith)
Optimal-sizes_loop narray i (num ∷ nums) s all (fit, c) h hn =
    let s' = add_slice (2 ^ i) num s in
    let A = Added-add_slice i num s h hn in
    let double : 2 ^ (i + 1) ≡ 2 * 2 ^ i =
      omega (arith, pow-suc 2 i, ap (λ j. 2 ^ j) (plus_one i)) in
    Optimal-cases i num nums s s' _ narray (ltb (2 ^ i / 2) narray) (s'.a == narray) all fit h A
      refl refl
      (Optimal-sizes_loop narray (i + 1) nums s' (omega (arith, A.counted)) c
        (omega (arith, A.counted)) (omega (arith, A.bound)))

-- For counts that no slice exceeds, with their total for *narray, computesizes either finds no size
-- and counts no key, or finds a power of two of which more than half is in use and returns the
-- number of keys up to it; and no larger power of two is more than half in use.
pub computesizes-total :
    (nums : List ℕ)
    → AreCounts 0 nums
    → ((((computesizes nums (total nums)).0 ≡ 0) × ((computesizes nums (total nums)).1 ≡ 0))
        ⊎ ((k : ℕ) × ((computesizes nums (total nums)).0 ≡ keys_up_to k nums)
            × ((computesizes nums (total nums)).1 ≡ 2 ^ k)
            × (2 ^ k < 2 * keys_up_to k nums)))
      × ((k : ℕ) → 2 ^ k < 2 * keys_up_to k nums → 2 ^ k ≤ (computesizes nums (total nums)).1)
unfolding computesizes
computesizes-total nums c =
    let O =
      Optimal-sizes_loop (total nums) 0 nums (record { a = 0; na = 0; n = 0 }) (omega arith) c
        (omega arith) (omega arith) in
    (from_start O.chosen, λ k h. omega (arith, start k, O.best k (omega (arith, start k))))
  where
    start : (k : ℕ) → 2 ^ (0 + k) ≡ 2 ^ k
    start k = ap (λ j. 2 ^ j) (omega arith)

    from_start :
        {na n : ℕ}
        → ((na ≡ 0) × (n ≡ 0))
          ⊎ ((k : ℕ) × (na ≡ 0 + keys_up_to k nums) × (n ≡ 2 ^ (0 + k)) × (2 ^ (0 + k) < 2 * na))
        → ((na ≡ 0) × (n ≡ 0))
          ⊎ ((k : ℕ) × (na ≡ keys_up_to k nums) × (n ≡ 2 ^ k) × (2 ^ k < 2 * keys_up_to k nums))
    from_start (inl z) = inl z
    from_start (inr (k, x, y, z)) =
        inr (k, omega (arith, x), y ∙ start k, omega (arith, x, start k))
