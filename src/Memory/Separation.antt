-- ===== src/Memory/Separation.antt =====
-- A deep copy shares no memory with what it is a copy of.
use mathlib.Core.Path.{subst}
use picodata_operator.Base.{ℕ, ◌≤◌, ◌<◌, ◌≡◌, sym, List, [], ◌∷◌, inl, inr, All, In, arith}
use picodata_operator.Memory.Store.{Ref, Shape, Between, new_cell, pointer}
use picodata_operator.Memory.Types.{Library, StoredDb, StoredDbList}
use picodata_operator.Memory.Shapes.{db, db_list, copy_db-eq, copy_db_list-eq}
use picodata_operator.Memory.Pointers.{deep_copy_db, deep_copy_db_list}

module _ {T : Type 0} (s : Shape T) where
  -- Every address in the value has been handed out.
  abbrev pub IsAllocated : ℕ → T → Type 0
  IsAllocated n a = All (λ p. p < n) (s.cells a)

  -- A copy, and the next free address behind it: the copy is the same up to addresses, no address is in
  -- both, and all addresses in the copy have been handed out by now.
  abbrev pub IsSeparate : T → T × ℕ → Type 0
  IsSeparate a (b, m) =
      (s.erase b ≡ s.erase a) × All (λ p. ¬ In p (s.cells a)) (s.cells b) × IsAllocated m b

  outside : (n p : ℕ) (ps : List ℕ) → All (λ q. q < n) ps → n ≤ p → ¬ In p ps
  outside n p [] h g i = absurd i.1
  outside n p (q ∷ qs) (h, hs) g (inl e) = absurd (omega (arith, e, h, g))
  outside n p (q ∷ qs) (h, hs) g (inr i) = outside n p qs hs g i

  all_outside :
      (n m : ℕ) (ps qs : List ℕ)
      → All (λ q. q < n) ps
      → All (Between n m) qs
      → All (λ p. ¬ In p ps) qs
  all_outside n m ps [] h g = tt
  all_outside n m ps (q ∷ qs) h (g, gs) = (outside n q ps h g.0, all_outside n m ps qs h gs)

  all_below : (n m : ℕ) (qs : List ℕ) → All (Between n m) qs → All (λ q. q < m) qs
  all_below n m [] g = tt
  all_below n m (q ∷ qs) (g, gs) = (g.1, all_below n m qs gs)

  pub copy-IsSeparate : (n : ℕ) (a : T) → IsAllocated n a → IsSeparate a (s.copy a n)
  copy-IsSeparate n a h =
      (s.same a n, all_outside n _ _ _ h (s.fresh a n), all_below n _ _ (s.fresh a n))

module _ ⦃L : Library⦄ where
  -- Where every address in a PicoclusterDB and in a list of them has been handed out, `DeepCopy` of a
  -- pointer to either gives the same value up to addresses, and no cell of the copy, at whatever
  -- depth, is a cell of the original, provided that the deep copies of the types of Kubernetes'
  -- packages are such copies.
  pub deep_copies-AreSeparate :
      (n : ℕ) (p : Ref StoredDb) (ps : Ref StoredDbList)
      → IsAllocated (pointer db) n p
      → IsAllocated (pointer db_list) n ps
      → IsSeparate (pointer db) p (deep_copy_db p n)
        × IsSeparate (pointer db_list) ps (deep_copy_db_list ps n)
  deep_copies-AreSeparate n p ps h hs = (
    subst (λ c. IsSeparate (pointer db) p (new_cell c p n)) (sym copy_db-eq)
        (copy-IsSeparate (pointer db) n p h),
    subst (λ c. IsSeparate (pointer db_list) ps (new_cell c ps n)) (sym copy_db_list-eq)
        (copy-IsSeparate (pointer db_list) n ps hs),
  )
