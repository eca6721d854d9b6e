-- ===== src/Undump/Pieces.antt =====
-- How the loaders of a function's parts treat any input.
use hack_livesuite.Common.{ℕ, zero, suc, ◌-◌, ◌*◌, ◌==◌, Bool, true, false, List, [], Option, none}
use hack_livesuite.Common.Bytes.{le_value}
use hack_livesuite.Proto.{TString, Proto, no_protos, nil}
use hack_livesuite.Undump.{
  Load, LoadError, bad_constant, error_if, load_char, load_byte, load_int, load_number, load_string,
  load_string_of, load_vector, load_times, load_list, load_constant, load_constant_of, load_locvar,
  load_debug, load_protos, load_prefix,
}
use hack_livesuite.Undump.Regular.{
  Regular, Regular-pure, Regular-fail, Regular-if, Regular-block, Regular-bind, Regular-then,
  Regular-weaken,
}

pub Regular-error_if :
    {Bad : List ℕ → Type 0} (limit : ℕ) (b : Bool) (e : LoadError)
    → Regular Bad limit 0 (error_if b e)
Regular-error_if limit true e = Regular-fail limit e
Regular-error_if limit false e = Regular-pure limit tt

module _ {Bad : List ℕ → Type 0} (limit : ℕ) where
  pub Regular-char : Regular Bad limit 0 load_char
  unfolding load_char
  Regular-char = Regular-then _ (Regular-block limit 1) (λ b. Regular-pure limit _)

  Regular-byte : Regular Bad limit 0 load_byte
  unfolding load_byte
  Regular-byte = Regular-then _ Regular-char (λ b. Regular-pure limit _)

  pub Regular-int : Regular Bad limit 0 load_int
  unfolding load_int
  Regular-int =
      Regular-then _ (Regular-block limit 4)
        (λ b. Regular-then _ (Regular-error_if limit _ _) (λ _. Regular-pure limit _))

  Regular-number : Regular Bad limit 0 load_number
  unfolding load_number
  Regular-number = Regular-then _ (Regular-block limit 8) (λ b. Regular-pure limit _)

  Regular-string_of : (size : ℕ) → Regular Bad limit 0 (load_string_of size)
  unfolding load_string_of
  Regular-string_of size =
      Regular-if (size == 0) (Regular-pure limit none)
        (Regular-then _ (Regular-block limit size) (λ s. Regular-pure limit _))

  pub Regular-vector : Regular Bad limit 0 load_vector
  unfolding load_vector
  Regular-vector =
      Regular-then _ Regular-int
        (λ n. Regular-then _ (Regular-block limit (n * 4)) (λ b. Regular-pure limit _))

-- A string takes the bytes of its size at least.
Regular-string : {Bad : List ℕ → Type 0} (limit : ℕ) → Regular Bad limit 8 load_string
unfolding load_string
Regular-string limit =
    Regular-bind _ (Regular-block limit 8) (λ _ b. Regular-string_of (limit - 8) (le_value b))

module _ {Bad : List ℕ → Type 0} (limit : ℕ) where
  Regular-times :
      {A : Type 0} (load : Load A)
      → Regular Bad limit 0 load
      → (n : ℕ) → Regular Bad limit 0 (load_times load n)
  unfolding load_times
  Regular-times load h zero = Regular-pure limit []
  Regular-times load h (suc n) =
      Regular-then _ h (λ x. Regular-then _ (Regular-times load h n) (λ xs. Regular-pure limit _))

  pub Regular-list :
      {A : Type 0} (load : Load A) → Regular Bad limit 0 load → Regular Bad limit 0 (load_list load)
  unfolding load_list
  Regular-list load h = Regular-then _ (Regular-int limit) (Regular-times load h)

  pub Regular-constant : Regular Bad limit 0 load_constant
  unfolding load_constant load_constant_of
  Regular-constant = Regular-then _ (Regular-char limit) (λ t.
      Regular-if (t == 0) (Regular-pure limit nil) (
        Regular-if (t == 1) (Regular-then _ (Regular-char limit) (λ b. Regular-pure limit _)) (
          Regular-if (t == 3) (Regular-then _ (Regular-number limit) (λ x. Regular-pure limit _)) (
            Regular-if (t == 4)
              (Regular-then _ (Regular-weaken (Regular-string limit)) (λ s. Regular-pure limit _))
              (Regular-fail limit bad_constant)))))

  Regular-locvar : Regular Bad limit 0 load_locvar
  unfolding load_locvar
  Regular-locvar = Regular-then _ (Regular-string limit) (λ v.
      Regular-then _ (Regular-int limit)
        (λ s. Regular-then _ (Regular-int limit) (λ e. Regular-pure limit _)))

  pub Regular-debug : Regular Bad limit 0 load_debug
  unfolding load_debug
  Regular-debug = Regular-then _ (Regular-vector limit) (λ l.
      Regular-then _ (Regular-list load_locvar Regular-locvar) (λ v.
        Regular-then _ (Regular-list load_string (Regular-weaken (Regular-string limit)))
          (λ u. Regular-pure limit _)))

  pub Regular-protos :
      (load : Load Proto)
      → Regular Bad limit 0 load
      → (n : ℕ) → Regular Bad limit 0 (load_protos load n)
  unfolding load_protos
  Regular-protos load h zero = Regular-pure limit no_protos
  Regular-protos load h (suc n) =
      Regular-then _ h (λ f. Regular-then _ (Regular-protos load h n) (λ fs. Regular-pure limit _))

pub Regular-prefix :
    {Bad : List ℕ → Type 0} (limit : ℕ) (p : Option TString) → Regular Bad limit 8 (load_prefix p)
unfolding load_prefix
Regular-prefix limit p =
    let left : ℕ = limit - 8 in
    Regular-bind _ (Regular-string limit) (λ _ s. Regular-then _ (Regular-int left) (λ l.
      Regular-then _ (Regular-int left) (λ m. Regular-then _ (Regular-byte left) (λ a.
        Regular-then _ (Regular-byte left) (λ b.
          Regular-then _ (Regular-byte left)
            (λ c. Regular-then _ (Regular-byte left) (λ d. Regular-pure left _)))))))
