-- ===== src/Tests/Sorting.antt =====
-- A sort that keeps the laws which `slices.SortFunc` is assumed to keep: insertion sort.
use mathlib.Core.List.{Perm, Pairwise, Mem, mem-cons, not-mem-nil}
use native.Mathlib.Bridge.{le_prop}
use mathlib.Core.List.Perm
use tinyrange_ad.Common.{
  List, [], ◌∷◌, true, false, if◌then◌else◌, ℤ, pos, ◌≡◌, All, Bool-cases, inl, inr, arith, sym,
  ◌∙◌,
}
use tinyrange_ad.Common.Int.{◌≤ℤ◌, ltb_ℤ}
use tinyrange_ad.Score.{SortFunc}

ltb_ℤ→≤ℤ : (a b : ℤ) → ltb_ℤ a b ≡ true → a ≤ℤ b
ltb_ℤ→≤ℤ a b h = ground arith

not_ltb_ℤ : (a b : ℤ) → ltb_ℤ a b ≡ false → b ≤ℤ a
not_ltb_ℤ a b h = ground arith

module _ {A : Type 0} (cmp : A → A → ℤ) where
  unfoldable insert_sorted : A → List A → List A
  insert_sorted x [] = x ∷ []
  insert_sorted x (y ∷ l) = if ltb_ℤ (cmp x y) (pos 0) then x ∷ y ∷ l else y ∷ insert_sorted x l

  unfoldable pub insertion_sort : List A → List A
  unfolding insert_sorted
  insertion_sort [] = []
  insertion_sort (x ∷ l) = insert_sorted x (insertion_sort l)

  insert_sorted-Perm : (x : A) (l : List A) → Perm (x ∷ l) (insert_sorted x l)
  unfolding insert_sorted
  insert_sorted-Perm x [] = Perm.rfl
  insert_sorted-Perm x (y ∷ l) = elim (Bool-cases (ltb_ℤ (cmp x y) (pos 0))) [
    | inl e ↦ rw e Perm.rfl
    | inr e ↦ rw e (Perm.trans (Perm.swap y x l) (Perm.cons y (insert_sorted-Perm x l)))
  ]

  pub insertion_sort-Perm : (l : List A) → Perm l (insertion_sort l)
  unfolding insertion_sort
  insertion_sort-Perm [] = Perm.nil
  insertion_sort-Perm (x ∷ l) =
      Perm.trans (Perm.cons x (insertion_sort-Perm l)) (insert_sorted-Perm x (insertion_sort l))

  All-insert_sorted :
      (P : A → Type 0) (x : A) (l : List A) → P x → All P l → All P (insert_sorted x l)
  unfolding insert_sorted
  All-insert_sorted P x [] p h = (p, tt)
  All-insert_sorted P x (y ∷ l) p h = elim (Bool-cases (ltb_ℤ (cmp x y) (pos 0))) [
    | inl e ↦ rw e (p, h)
    | inr e ↦ rw e (h.0, All-insert_sorted P x l p h.1)
  ]

  All-insertion_sort : (P : A → Type 0) (l : List A) → All P l → All P (insertion_sort l)
  unfolding insertion_sort
  All-insertion_sort P [] h = tt
  All-insertion_sort P (x ∷ l) h =
      All-insert_sorted P x (insertion_sort l) h.0 (All-insertion_sort P l h.1)

  All-Mem :
      (P : A → Type 0) (l : List A) → ((a : A) → IsProp (P a)) → All P l → (a : A) → Mem a l → P a
  All-Mem P [] prop h a m = absurd (not-mem-nil m)
  All-Mem P (x ∷ l) prop h a m =
      ∥∥₁_rec (prop a) (λ d. elim d [ inl e ↦ rw e h.0 | inr t ↦ All-Mem P l prop h.1 a t ])
        (mem-cons.0 m)

  module _ (key : A → ℤ) where
    abbrev pub Compares : A → A → Type 0
    Compares x y = ltb_ℤ (cmp x y) (pos 0) ≡ ltb_ℤ (key x) (key y)

    -- Lists in order, by recursion.
    abbrev pub Sorted : List A → Type 0
    Sorted [] = Unit
    Sorted (x ∷ l) = All (λ y. key x ≤ℤ key y) l × Sorted l

    pub Sorted-Pairwise : (l : List A) → Sorted l → Pairwise (λ x y. key x ≤ℤ key y) l
    Sorted-Pairwise [] h = Pairwise.nil
    Sorted-Pairwise (x ∷ l) h =
        Pairwise.cons (All-Mem (λ y. key x ≤ℤ key y) l (λ y. le_prop) h.0) (Sorted-Pairwise l h.1)

    below :
        (x y : A) (l : List A)
        → key x ≤ℤ key y
        → All (λ z. key y ≤ℤ key z) l
        → All (λ z. key x ≤ℤ key z) l
    below x y [] e h = tt
    below x y (z ∷ l) e h = (omega (arith, e, h.0), below x y l e h.1)

    insert_sorted-Sorted :
        (x : A) (l : List A) → All (Compares x) l → Sorted l → Sorted (insert_sorted x l)
    unfolding insert_sorted
    insert_sorted-Sorted x [] c h = (tt, tt)
    insert_sorted-Sorted x (y ∷ l) c h = elim (Bool-cases (ltb_ℤ (cmp x y) (pos 0))) [
      | inl e ↦
          let le : key x ≤ℤ key y = ltb_ℤ→≤ℤ (key x) (key y) (sym c.0 ∙ e) in
          rw e ((le, below x y l le h.0), h)
      | inr e ↦ rw e (
        All-insert_sorted (λ z. key y ≤ℤ key z) x l (not_ltb_ℤ (key x) (key y) (sym c.0 ∙ e)) h.0,
        insert_sorted-Sorted x l c.1 h.1,
      )
    ]

    pub insertion_sort-Sorted :
        (l : List A) → All (λ x. All (Compares x) l) l → Sorted (insertion_sort l)
    unfolding insertion_sort
    insertion_sort-Sorted [] h = tt
    insertion_sort-Sorted (x ∷ l) h =
        insert_sorted-Sorted x (insertion_sort l) (All-insertion_sort (Compares x) l h.0.1)
          (insertion_sort-Sorted l (All-tails x l l h.1))
      where
        All-tails :
            (x : A) (l m : List A)
            → All (λ y. All (Compares y) (x ∷ l)) m
            → All (λ y. All (Compares y) l) m
        All-tails x l [] h = tt
        All-tails x l (y ∷ m) h = (h.0.1, All-tails x l m h.1)

abbrev pub sorter : SortFunc
sorter = record {
  sort = λ cmp l. insertion_sort cmp l;
  sort-perm = λ cmp l. insertion_sort-Perm cmp l;
  sort_sorted = λ cmp key l h. Sorted-Pairwise cmp key _ (insertion_sort-Sorted cmp key l h);
}
