-- ===== src/Undump/Reads.antt =====
-- What it means that a loader reads back the blocks that a dumper wrote, and that the loaders of
-- the simple types do.
use hack_livesuite.Common.{
  ℕ, ◌+◌, ◌-◌, ◌*◌, ◌%◌, ◌^◌, ◌<◌, ◌≡◌, refl, sym, ◌∙◌, ap, ap₂, arith, ◌==◌, leb, false, List, [],
  ◌∷◌, ◌++◌, append_assoc, append-nil, concat, concat-append, Option, none, some, length, take,
  drop, take_append_length, drop_append_length, length-append, All,
}
use hack_livesuite.Common.Bytes.{le_bytes, le_value, length-le_bytes, le_value-le_bytes}
use hack_livesuite.Zio.{Zio, read}
use hack_livesuite.Zio.Stream.{stream, read-IsRead}
use hack_livesuite.Dump.{words_memory}
use hack_livesuite.Dump.Blocks.{
  Blocks, char_blocks, int_blocks, long_blocks, vector_blocks, string_blocks, each_blocks,
  list_blocks,
}
use hack_livesuite.Proto.{TString}
use hack_livesuite.Undump.{
  Load, ok, pure, ◌>>=◌, load_block, load_byte, load_char, load_int, load_number, load_string,
  load_string_of, load_vector, words_of, load_times, load_list, sign_extend,
}

-- `load` takes the bytes of `bs` off the front of any stream and returns `a`.
pub record Reads {A : Type 0} (load : Load A) (bs : Blocks) (a : A) : Type 0 where
  pub apply :
      (z : Zio) (rest : List ℕ)
      → stream z ≡ concat bs ++ rest
      → (z' : Zio) × (load z ≡ ok a z') × (stream z' ≡ rest)

pub Reads-pure : {A : Type 0} (a : A) → Reads (pure a) [] a
Reads-pure a = record { apply = λ z rest h. (z, refl, h) }

pub Reads-bind :
    {A B : Type 0} {load : Load A} {bs cs : Blocks} {a : A} {b : B} (next : A → Load B)
    → Reads load bs a
    → Reads (next a) cs b
    → Reads (load >>= next) (bs ++ cs) b
Reads-bind {load} {bs} {cs} {a} {b} next p q = record {
  apply = λ z rest h.
      let (z1, e1, s1) = p.apply z (concat cs ++ rest) (h ∙ split rest) in
      let (z2, e2, s2) = q.apply z1 rest s1 in (z2, rw e1 e2, s2);
}
  where
    split : (rest : List ℕ) → concat (bs ++ cs) ++ rest ≡ concat bs ++ (concat cs ++ rest)
    split rest =
        ap (λ (x : List ℕ). x ++ rest) (concat-append bs cs)
        ∙ append_assoc (concat bs) (concat cs) rest

-- A last step that reads nothing more.
pub Reads-map :
    {A B : Type 0} {load : Load A} {bs : Blocks} {a : A} {b : B} (next : A → Load B)
    → Reads load bs a
    → Reads (next a) [] b
    → Reads (load >>= next) bs b
Reads-map next p q = rw append-nil at (Reads-bind next p q)

read_front :
    (z : Zio) (b rest : List ℕ)
    → stream z ≡ b ++ rest
    → let r = read z (length b) in (r.missing ≡ 0) × (r.bytes ≡ b) × (stream r.zio ≡ rest)
read_front z b rest h =
    let r = read-IsRead z (length b) in
    let long = ap length h ∙ length-append b rest in
    (
      omega (arith, r.missing, long),
      r.bytes ∙ ap (take (length b)) h ∙ take_append_length b rest,
      r.rest (omega (arith, long)) ∙ ap (drop (length b)) h ∙ drop_append_length b rest,
    )

pub Reads-block : (n : ℕ) (b : List ℕ) → length b ≡ n → Reads (load_block n) (b ∷ []) b
unfolding load_block
Reads-block n b e = record {
  apply = λ z rest h.
      let (m, bs, s) = read_front z b rest (h ∙ ap (λ x. x ++ rest) (append-nil b)) in
      ((read z n).zio, rw (← e, m, bs), rw (← e) s);
}

-- A block of a number's bytes.
Reads-number_block :
    (width x : ℕ)
    → x < 256 ^ width
    → Reads (load_block width >>= λ b. pure (le_value b)) (le_bytes width x ∷ []) x
Reads-number_block width x h =
    Reads-map _ (Reads-block width (le_bytes width x) (length-le_bytes width x))
      (rw (le_value-le_bytes width x h) (Reads-pure x))

pub Reads-number : (x : ℕ) → x < 2 ^ 64 → Reads load_number (long_blocks x) x
unfolding load_number
Reads-number x h = Reads-number_block 8 x h

not_negative : (x : ℕ) → x < 2 ^ 31 → leb (2 ^ 31) x ≡ false
not_negative x h = ground arith

pub Reads-int : (x : ℕ) → x < 2 ^ 31 → Reads load_int (int_blocks x) x
unfolding load_int
Reads-int x h =
    Reads-map _ (Reads-block 4 (le_bytes 4 x) (length-le_bytes 4 x))
      (rw (le_value-le_bytes 4 x (omega arith), not_negative x h) (Reads-pure x))

char_back : (x : ℕ) → x < 128 → sign_extend (le_value ((x % 256) ∷ [])) ≡ x
unfolding sign_extend le_value
char_back x h = ground arith

byte_back : (x : ℕ) → x < 256 → sign_extend (le_value ((x % 256) ∷ [])) % 256 ≡ x
unfolding sign_extend le_value
byte_back x h = ground arith

-- A char that is not negative as an int, and any byte.
pub Reads-char : (x : ℕ) → x < 128 → Reads load_char (char_blocks x) x
unfolding load_char
Reads-char x h =
    Reads-map _ (Reads-block 1 ((x % 256) ∷ []) refl) (rw (char_back x h) (Reads-pure x))

pub Reads-byte : (x : ℕ) → x < 256 → Reads load_byte (char_blocks x) x
unfolding load_byte load_char
Reads-byte x h =
    Reads-map _ (Reads-map _ (Reads-block 1 ((x % 256) ∷ []) refl) (Reads-pure _))
      (rw (byte_back x h) (Reads-pure x))

-- A string that a size_t can measure with its trailing '\0'.
abbrev pub StringFits : Option TString → Type 0
StringFits none = Unit {0}
StringFits (some s) = length s + 1 < 2 ^ 64

string_size : (s : TString) → ((length s + 1) == 0) ≡ false
string_size s = ground arith

take_string : (s : TString) → take (length s + 1 - 1) (s ++ (0 ∷ [])) ≡ s
take_string s = rw add_sub_one (take_append_length s (0 ∷ []))
  where
    add_sub_one : length s + 1 - 1 ≡ length s
    add_sub_one = omega arith

pub Reads-string : (s : Option TString) → StringFits s → Reads load_string (string_blocks s) s
unfolding load_string load_string_of
Reads-string none h =
    Reads-map _ (Reads-block 8 (le_bytes 8 0) (length-le_bytes 8 0))
      (rw (le_value-le_bytes 8 0 (omega arith)) (Reads-pure none))
Reads-string (some s) h =
    let size = length s + 1 in
    let tail : length (s ++ (0 ∷ [])) ≡ size = length-append s (0 ∷ []) in
    Reads-bind _ (Reads-block 8 (le_bytes 8 size) (length-le_bytes 8 size)) (
      rw (le_value-le_bytes 8 size h, string_size s)
        (Reads-map _ (Reads-block size (s ++ (0 ∷ [])) tail)
          (rw (take_string s) (Reads-pure (some s)))))

length-words_memory : (ws : List ℕ) → length (words_memory ws) ≡ length ws * 4
unfolding words_memory
length-words_memory [] = refl
length-words_memory (w ∷ ws) = omega (
  arith,
  length-append (le_bytes 4 w) (words_memory ws),
  length-le_bytes 4 w,
  length-words_memory ws,
)

words_of-words_memory :
    (ws : List ℕ) → All (λ w. w < 2 ^ 32) ws → words_of (length ws) (words_memory ws) ≡ ws
unfolding words_of words_memory
words_of-words_memory [] h = refl
words_of-words_memory (w ∷ ws) h =
    let memory = le_bytes 4 w ++ words_memory ws in
    let four = length-le_bytes 4 w in
    ap₂ ◌∷◌
      (ap (λ n. le_value (take n memory)) (sym four)
        ∙ ap le_value (take_append_length (le_bytes 4 w) (words_memory ws))
        ∙ le_value-le_bytes 4 w h.0)
      (ap (λ n. words_of (length ws) (drop n memory)) (sym four)
        ∙ ap (words_of (length ws)) (drop_append_length (le_bytes 4 w) (words_memory ws))
        ∙ words_of-words_memory ws h.1)

pub Reads-vector :
    (ws : List ℕ)
    → length ws < 2 ^ 31
    → All (λ w. w < 2 ^ 32) ws
    → Reads load_vector (vector_blocks ws) ws
unfolding load_vector
Reads-vector ws n h = Reads-bind _ (Reads-int (length ws) n) (
    Reads-map _ (Reads-block (length ws * 4) (words_memory ws) (length-words_memory ws))
      (rw (words_of-words_memory ws h) (Reads-pure ws)))

module _ {A : Type 0} (load : Load A) (blocks : A → Blocks) (Fits : A → Type 0) where
  module _ (one : (x : A) → Fits x → Reads load (blocks x) x) where
    pub Reads-times :
        (xs : List A) → All Fits xs → Reads (load_times load (length xs)) (each_blocks blocks xs) xs
    unfolding load_times
    Reads-times [] h = Reads-pure []
    Reads-times (x ∷ xs) h =
        Reads-bind _ (one x h.0) (Reads-map _ (Reads-times xs h.1) (Reads-pure (x ∷ xs)))

    pub Reads-list :
        (xs : List A)
        → length xs < 2 ^ 31
        → All Fits xs
        → Reads (load_list load) (list_blocks blocks xs) xs
    unfolding load_list
    Reads-list xs n h = Reads-bind _ (Reads-int (length xs) n) (Reads-times xs h)
