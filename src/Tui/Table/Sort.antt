-- ===== src/Tui/Table/Sort.antt =====
-- The sort of the rows: what it keeps, and in which order.
use mathlib.Core.List.{Perm}
use mathlib.Core.List.Perm
use onetui.Base.{ℕ, ◌≡◌, Bool, true, false, List, [], ◌∷◌, All, Bool-cases, inl, inr}
use onetui.Tui.Table.{insert_row, sort_rows}

-- Each row stands before all that follow it.
abbrev pub IsSorted : (ℕ → ℕ → Bool) → List ℕ → Type 0
IsSorted leq [] = Unit
IsSorted leq (i ∷ rows) = All (λ j. leq i j ≡ true) rows × IsSorted leq rows

module _ (leq : ℕ → ℕ → Bool) where
  insert_row-perm : (i : ℕ) (rows : List ℕ) → Perm (insert_row leq i rows) (i ∷ rows)
  unfolding insert_row
  insert_row-perm i [] = Perm.refl (i ∷ [])
  insert_row-perm i (j ∷ rows) = elim (Bool-cases (leq i j)) [
    | inl e ↦ rw e (Perm.refl (i ∷ j ∷ rows))
    | inr e ↦ rw e (Perm.trans (Perm.cons j (insert_row-perm i rows)) (Perm.swap i j rows))
  ]

  pub sort_rows-perm : (rows : List ℕ) → Perm (sort_rows leq rows) rows
  unfolding sort_rows
  sort_rows-perm [] = Perm.refl []
  sort_rows-perm (i ∷ rows) =
      Perm.trans (insert_row-perm i (sort_rows leq rows)) (Perm.cons i (sort_rows-perm rows))

  pub insert_row-All {κ} :
      (P : ℕ → Type κ) (i : ℕ) (rows : List ℕ) → P i → All P rows → All P (insert_row leq i rows)
  unfolding insert_row
  insert_row-All P i [] h k = (h, tt)
  insert_row-All P i (j ∷ rows) h k = elim (Bool-cases (leq i j)) [
    | inl e ↦ rw e (h, k)
    | inr e ↦ rw e (k.0, insert_row-All P i rows h k.1)
  ]

  pub sort_rows-All {κ} : (P : ℕ → Type κ) (rows : List ℕ) → All P rows → All P (sort_rows leq rows)
  unfolding sort_rows
  sort_rows-All P [] h = tt
  sort_rows-All P (i ∷ rows) h =
      insert_row-All P i (sort_rows leq rows) h.0 (sort_rows-All P rows h.1)

  module _ (total : (a b : ℕ) → leq a b ≡ false → leq b a ≡ true)
      (trans : (a b c : ℕ) → leq a b ≡ true → leq b c ≡ true → leq a c ≡ true) where
    before_each :
        (i j : ℕ) (rows : List ℕ)
        → leq i j ≡ true
        → All (λ k. leq j k ≡ true) rows
        → All (λ k. leq i k ≡ true) rows
    before_each i j [] h k = tt
    before_each i j (r ∷ rows) h k = (trans i j r h k.0, before_each i j rows h k.1)

    insert_row-IsSorted :
        (i : ℕ) (rows : List ℕ) → IsSorted leq rows → IsSorted leq (insert_row leq i rows)
    unfolding insert_row
    insert_row-IsSorted i [] h = (tt, tt)
    insert_row-IsSorted i (j ∷ rows) h = elim (Bool-cases (leq i j)) [
      | inl e ↦ rw e ((e, before_each i j rows e h.0), h)
      | inr e ↦ rw e (
        insert_row-All (λ k. leq j k ≡ true) i rows (total i j e) h.0,
        insert_row-IsSorted i rows h.1,
      )
    ]

    pub sort_rows-IsSorted : (rows : List ℕ) → IsSorted leq (sort_rows leq rows)
    unfolding sort_rows
    sort_rows-IsSorted [] = tt
    sort_rows-IsSorted (i ∷ rows) =
        insert_row-IsSorted i (sort_rows leq rows) (sort_rows-IsSorted rows)
