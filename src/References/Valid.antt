-- ===== src/References/Valid.antt =====
-- References that are in use are never given again, until they are freed.
use hack_livesuite.Common.{
  ℕ, ◌+◌, ◌^◌, ◌≤◌, ◌<◌, ◌≡◌, ◌≢◌, ◌⊎◌, sym, subst, ◌∙◌, arith, ==-refl, ==-ne, if_true, if_false,
  All, List, [], ◌∷◌, Option, none, some,
}
use hack_livesuite.Jumps.Lists.{Avoids, Distinct}
use hack_livesuite.References.{Api, rawseti}

-- An int that is not negative and that lua_pushinteger makes a number of is read back by
-- lua_tointeger: every int is a lua_Number.
abbrev pub ReadsBack : {V : Type 0} → Api V → Type 0
ReadsBack api = (k : ℕ) → k < 2 ^ 31 → api.tointeger (api.pushinteger k) ≡ k

-- What lua_objlen gives for a table, a boundary of it.
pub record IsLength {V : Type 0} (t : ℕ → Option V) (n : ℕ) : Type 0 where
  pub end_held : (n ≡ 0) ⊎ (t n ≢ none)
  pub nil_behind : t (n + 1) ≡ none

module _ {V : Type 0} (api : Api V) where
  -- The list of free references from a slot on; its end is nil.
  abbrev pub FreeList : (ℕ → Option V) → Option V → List ℕ → Type 0
  FreeList t o [] = o ≡ none
  FreeList t o (r ∷ fs) = (o ≡ some (api.pushinteger r)) × FreeList t (t r) fs

  -- The references 1 to n were given so far, all of them ints, and those in `free` are free again.
  pub record IsValid (n : ℕ) (free : List ℕ) (t : ℕ → Option V) : Type 0 where
    pub small : n < 2 ^ 31
    pub free_list : FreeList t (t 0) free
    pub distinct : Distinct free
    pub inside : All (λ r. (1 ≤ r) × (r ≤ n)) free
    pub held : (k : ℕ) → 1 ≤ k → k ≤ n → Avoids k free → t k ≢ none
    pub fresh : (k : ℕ) → n < k → t k ≡ none

  pub FreeList-same :
      (t t' : ℕ → Option V) (o : Option V) (fs : List ℕ)
      → All (λ k. t' k ≡ t k) fs
      → FreeList t o fs
      → FreeList t' o fs
  FreeList-same t t' o [] a f = f
  FreeList-same t t' o (r ∷ fs) (e, a) (g, f) =
      (g, FreeList-same t t' (t' r) fs a (subst (λ u. FreeList t u fs) (sym e) f))

-- A reference in use.
abbrev pub Live : ℕ → List ℕ → ℕ → Type 0
Live n free k = (1 ≤ k) × (k ≤ n) × Avoids k free

module _ {V : Type 0} (t : ℕ → Option V) (v : Option V) where
  pub rawseti_self : (k : ℕ) → rawseti t k v k ≡ v
  rawseti_self k = sym (if_true v (t k) (==-refl k))

  pub rawseti_other : (k j : ℕ) → k ≢ j → rawseti t k v j ≡ t j
  rawseti_other k j h = sym (if_false v (t j) (==-ne k j h))

module _ {V : Type 0} (t : ℕ → Option V) (a b : ℕ) (u v : Option V) where
  -- Two writes leave the other keys alone.
  pub rawseti_both : (k : ℕ) → a ≢ k → b ≢ k → rawseti (rawseti t a u) b v k ≡ t k
  rawseti_both k h g = rawseti_other (rawseti t a u) v b k g ∙ rawseti_other t u a k h

  pub rawseti_first : a ≢ b → rawseti (rawseti t a u) b v a ≡ u
  rawseti_first h = rawseti_other (rawseti t a u) v b a (λ e. h (sym e)) ∙ rawseti_self t u a

  pub rawseti_all :
      (fs : List ℕ) → Avoids a fs → Avoids b fs → All (λ k. rawseti (rawseti t a u) b v k ≡ t k) fs
  rawseti_all [] x y = tt
  rawseti_all (k ∷ fs) (h, x) (g, y) = (rawseti_both k h g, rawseti_all fs x y)

pub Avoids-zero : (n : ℕ) (fs : List ℕ) → All (λ r. (1 ≤ r) × (r ≤ n)) fs → Avoids 0 fs
Avoids-zero n [] a = tt
Avoids-zero n (r ∷ fs) ((one, le), a) = ((λ e. absurd (omega arith)), Avoids-zero n fs a)
