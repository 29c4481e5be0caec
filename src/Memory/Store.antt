-- ===== src/Memory/Store.antt =====
-- Go's memory as far as copies need it: a pointer, a slice or a map is nil or a cell with an address
-- and contents, and a computation that allocates takes the next free address and leaves it.
use picodata_operator.Base.{
  ℕ, suc, ◌≤◌, ◌<◌, ◌≡◌, refl, sym, ◌∙◌, ap, List, [], ◌∷◌, ◌++◌, All, All-append, arith,
}
use mathlib.Core.Path.{ap₂, subst}

pub data Ref (A : Type 0) : Type 0 where
  nil : Ref A
  cell : ℕ → A → Ref A

abbrev pub Alloc : Type 0 → Type 0
Alloc A = ℕ → A × ℕ

module _ {A B : Type 0} where
  infixl 10 ◌>>=◌
  unfoldable pub ◌>>=◌ : Alloc A → (A → Alloc B) → Alloc B
  (m >>= f) n = let r = m n in f r.0 r.1

module _ {A : Type 0} where
  -- A value that is copied by `*out = *in`, and holds no references.
  unfoldable pub keep : A → Alloc A
  keep a n = (a, n)

  -- `if in != nil { *out = new(T); ... }`, or `make` for a slice or a map: a new cell, and then its
  -- contents.
  unfoldable pub new_cell : (A → Alloc A) → Ref A → Alloc (Ref A)
  new_cell copy nil n = (nil, n)
  new_cell copy (cell p a) n = let r = copy a (suc n) in (cell n r.0, r.1)

  -- `for i := range *in { (*in)[i].DeepCopyInto(&(*out)[i]) }`
  unfoldable pub copy_each : (A → Alloc A) → List A → Alloc (List A)
  copy_each copy [] n = ([], n)
  copy_each copy (x ∷ xs) n = let r = copy x n in let s = copy_each copy xs r.1 in (r.0 ∷ s.0, s.1)

-- An address that was taken between two states of the allocator.
abbrev pub Between : ℕ → ℕ → ℕ → Type 0
Between n m p = (n ≤ p) × (p < m)

pub wider :
    (n m k l : ℕ) (ps : List ℕ) → k ≤ n → m ≤ l → All (Between n m) ps → All (Between k l) ps
wider n m k l [] h g ps = tt
wider n m k l (p ∷ ps) h g (q, qs) = ((omega arith, omega arith), wider n m k l ps h g qs)

-- How values of a type are copied, what they are up to addresses (the same value with every address 0),
-- and the addresses in them. A copy is the same up to addresses, and all its addresses are new.
pub record Shape (T : Type 0) : Type 0 where
  pub copy : T → Alloc T
  pub erase : T → T
  pub cells : T → List ℕ
  pub grows : (a : T) (n : ℕ) → n ≤ (copy a n).1
  pub same : (a : T) (n : ℕ) → erase (copy a n).0 ≡ erase a
  pub fresh : (a : T) (n : ℕ) → All (Between n (copy a n).1) (cells (copy a n).0)

module _ {A : Type 0} where
  pub keep-grows : (a : A) (n : ℕ) → n ≤ (keep a n).1
  unfolding keep
  keep-grows a n = omega arith

  pub keep-same : (a : A) (n : ℕ) → (keep a n).0 ≡ a
  unfolding keep
  keep-same a n = refl

  -- Values with no references.
  abbrev pub plain : Shape A
  plain = record {
    copy = keep;
    erase = λ a. a;
    cells = λ a. [];
    grows = keep-grows;
    same = keep-same;
    fresh = λ a n. tt;
  }

module _ {A : Type 0} (s : Shape A) where
  abbrev pub erase_cell : Ref A → Ref A
  erase_cell nil = nil
  erase_cell (cell p a) = cell 0 (s.erase a)

  abbrev pub cells_of_ref : Ref A → List ℕ
  cells_of_ref nil = []
  cells_of_ref (cell p a) = p ∷ s.cells a

  abbrev pub erase_each : List A → List A
  erase_each [] = []
  erase_each (x ∷ xs) = s.erase x ∷ erase_each xs

  abbrev pub cells_of_each : List A → List ℕ
  cells_of_each [] = []
  cells_of_each (x ∷ xs) = s.cells x ++ cells_of_each xs

  pub new_cell-grows : (a : Ref A) (n : ℕ) → n ≤ (new_cell s.copy a n).1
  unfolding new_cell
  new_cell-grows nil n = omega arith
  new_cell-grows (cell p a) n = omega (arith, s.grows a (suc n))

  pub new_cell-same : (a : Ref A) (n : ℕ) → erase_cell (new_cell s.copy a n).0 ≡ erase_cell a
  unfolding new_cell
  new_cell-same nil n = refl
  new_cell-same (cell p a) n = ap (cell 0) (s.same a (suc n))

  pub new_cell-fresh :
      (a : Ref A) (n : ℕ) → let r = new_cell s.copy a n in All (Between n r.1) (cells_of_ref r.0)
  unfolding new_cell
  new_cell-fresh nil n = tt
  new_cell-fresh (cell p a) n = (
    (omega arith, omega (arith, s.grows a (suc n))),
    wider (suc n) _ n _ _ (omega arith) (omega arith) (s.fresh a (suc n)),
  )

  -- A pointer to such values.
  abbrev pub pointer : Shape (Ref A)
  pointer = record {
    copy = new_cell s.copy;
    erase = erase_cell;
    cells = cells_of_ref;
    grows = new_cell-grows;
    same = new_cell-same;
    fresh = new_cell-fresh;
  }

  pub copy_each-grows : (xs : List A) (n : ℕ) → n ≤ (copy_each s.copy xs n).1
  unfolding copy_each
  copy_each-grows [] n = omega arith
  copy_each-grows (x ∷ xs) n = omega (arith, s.grows x n, copy_each-grows xs (s.copy x n).1)

  pub copy_each-same : (xs : List A) (n : ℕ) → erase_each (copy_each s.copy xs n).0 ≡ erase_each xs
  unfolding copy_each
  copy_each-same [] n = refl
  copy_each-same (x ∷ xs) n = ap₂ (λ y ys. y ∷ ys) (s.same x n) (copy_each-same xs (s.copy x n).1)

  pub copy_each-fresh :
      (xs : List A) (n : ℕ)
      → let r = copy_each s.copy xs n in All (Between n r.1) (cells_of_each r.0)
  unfolding copy_each
  copy_each-fresh [] n = tt
  copy_each-fresh (x ∷ xs) n =
      let m = (s.copy x n).1 in
      All-append _ _ _ (wider n m n _ _ (omega arith) (copy_each-grows xs m) (s.fresh x n))
        (wider m _ n _ _ (s.grows x n) (omega arith) (copy_each-fresh xs m))

  -- The elements of a slice.
  abbrev pub elements : Shape (List A)
  elements = record {
    copy = copy_each s.copy;
    erase = erase_each;
    cells = cells_of_each;
    grows = copy_each-grows;
    same = copy_each-same;
    fresh = copy_each-fresh;
  }

module _ {A B : Type 0} (s : Shape A) (t : Shape B) where
  pub pair_grows : (a : A) (b : B) (n : ℕ) → n ≤ (t.copy b (s.copy a n).1).1
  pair_grows a b n = omega (arith, s.grows a n, t.grows b (s.copy a n).1)

  pub pair_fresh :
      (a : A) (b : B) (n : ℕ)
      → let r = s.copy a n in
        let q = t.copy b r.1 in All (Between n q.1) (s.cells r.0 ++ t.cells q.0)
  pair_fresh a b n =
      let m = (s.copy a n).1 in
      All-append _ _ _ (wider n m n _ _ (omega arith) (t.grows b m) (s.fresh a n))
        (wider m _ n _ _ (s.grows a n) (omega arith) (t.fresh b m))

  -- Two values, one behind the other.
  abbrev pub both : Shape (A × B)
  both = record {
    copy = λ ab n. let r = s.copy ab.0 n in let q = t.copy ab.1 r.1 in ((r.0, q.0), q.1);
    erase = λ ab. (s.erase ab.0, t.erase ab.1);
    cells = λ ab. s.cells ab.0 ++ t.cells ab.1;
    grows = λ ab. pair_grows ab.0 ab.1;
    same = λ ab n. ap₂ (λ a b. (a, b)) (s.same ab.0 n) (t.same ab.1 (s.copy ab.0 n).1);
    fresh = λ ab. pair_fresh ab.0 ab.1;
  }

-- A struct by the fields that hold references: the others are copied by `*out = *in`.
module _ {T P : Type 0} (s : Shape P) (parts : T → P) (put : T → P → T)
    (parts-put : (t : T) (p : P) → parts (put t p) ≡ p)
    (put-put : (t : T) (p q : P) → put (put t p) q ≡ put t q) where
  abbrev pub copy_parts : T → Alloc T
  copy_parts t n = let r = s.copy (parts t) n in (put t r.0, r.1)

  pub struct_same :
      (t : T) (n : ℕ)
      → let u = (copy_parts t n).0 in put u (s.erase (parts u)) ≡ put t (s.erase (parts t))
  struct_same t n =
      put-put t (s.copy (parts t) n).0 _
      ∙ ap (put t) (ap s.erase (parts-put t (s.copy (parts t) n).0) ∙ s.same (parts t) n)

  pub struct_fresh :
      (t : T) (n : ℕ) → let r = copy_parts t n in All (Between n r.1) (s.cells (parts r.0))
  struct_fresh t n =
      subst (λ p. All (Between n (copy_parts t n).1) (s.cells p))
        (sym (parts-put t (s.copy (parts t) n).0)) (s.fresh (parts t) n)

  abbrev pub struct : Shape T
  struct = record {
    copy = copy_parts;
    erase = λ t. put t (s.erase (parts t));
    cells = λ t. s.cells (parts t);
    grows = λ t. s.grows (parts t);
    same = struct_same;
    fresh = struct_fresh;
  }
