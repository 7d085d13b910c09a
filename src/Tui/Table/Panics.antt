-- ===== src/Tui/Table/Panics.antt =====
-- When the sort of `View::reindex` in `crates/tui/src/app.rs` panics.
use onetui.Base.{
  ℕ, ◌≡◌, ◌≤◌, ◌↔◌, refl, Bool, true, false, List, [], ◌∷◌, Option, none, some, length, get_elem?,
  all, All, leb, ◌==◌, Bool-cases, or_false, inl, inr, arith,
}
use onetui.Text.{Text}
use onetui.Tui.Table.{Cells, matches, matching, has_cell, cell_at, sortable, is_some}
use onetui.Tui.Table.Counts.{occurs, occurs-matching, times-le, occurs_both, occurs-all}
use onetui.Tui.Table.Shows.{Matched, matching-Matched}

-- The row of an index matches the filter and has no cell in a column.
abbrev pub Lacks : Cells → Text → ℕ → ℕ → Type 0
Lacks cells filter column k =
    (row : List (Option Text)) × (get_elem? cells k ≡ some row)
    × (matches filter row ≡ true)
    × (get_elem? row column ≡ none)

-- Two rows match the filter, and one that matches has no cell in the column of the sort.
abbrev pub Clashes : Cells → Text → Option (ℕ × Bool) → Type 0
Clashes cells filter none = ⊥
Clashes cells filter (some (column, descending)) =
    (i : ℕ) × (j : ℕ) × (k : ℕ) × ((i == j) ≡ false)
    × Matched cells filter i
    × Matched cells filter j
    × Lacks cells filter column k

no_cell : (o : Option (Option Text)) → is_some o ≡ false → o ≡ none
no_cell none e = refl
no_cell (some cell) e = cc

Matched-Lacks :
    (cells : Cells) (filter : Text) (column k : ℕ)
    → Matched cells filter k
    → has_cell cells column k ≡ false
    → Lacks cells filter column k
unfolding has_cell cell_at
Matched-Lacks cells filter column k (row, e, m) h =
    (row, e, m, no_cell (get_elem? row column) (rw e at h))

Lacks-has_cell :
    (cells : Cells) (filter : Text) (column k : ℕ)
    → Lacks cells filter column k
    → has_cell cells column k ≡ false
unfolding has_cell cell_at
Lacks-has_cell cells filter column k (row, e, m, l) = rw (e, l) refl

Matched-occurs :
    (cells : Cells) (filter : Text) (i : ℕ)
    → Matched cells filter i
    → occurs i (matching filter 0 cells) ≡ 1
Matched-occurs cells filter i (row, e, m) = rw (occurs-matching filter cells i, e, m) refl

lacking_row :
    (cells : Cells) (filter : Text) (column : ℕ) (rows : List ℕ)
    → All (Matched cells filter) rows
    → all (has_cell cells column) rows ≡ false
    → (k : ℕ) × Lacks cells filter column k
lacking_row cells filter column [] h e = cc
lacking_row cells filter column (k ∷ rows) h e = elim (Bool-cases (has_cell cells column k)) [
  | inl here ↦ lacking_row cells filter column rows h.1 (rw here at e)
  | inr gone ↦ (k, Matched-Lacks cells filter column k h.0 gone)
]

distinct : (i j : ℕ) (rows : List ℕ) → occurs i (i ∷ j ∷ rows) ≤ 1 → (i == j) ≡ false
distinct i j rows h = ground arith

two_rows :
    (cells : Cells) (filter : Text) (rows : List ℕ)
    → ((i : ℕ) → occurs i rows ≤ 1)
    → All (Matched cells filter) rows
    → leb (length rows) 1 ≡ false
    → (i : ℕ) × (j : ℕ) × ((i == j) ≡ false) × Matched cells filter i × Matched cells filter j
two_rows cells filter [] once h e = cc
two_rows cells filter (i ∷ []) once h e = cc
two_rows cells filter (i ∷ j ∷ rows) once h e = (i, j, distinct i j rows (once i), h.0, h.1.0)

pub unsortable :
    (cells : Cells) (filter : Text) (column : ℕ) (descending : Bool)
    → (sortable cells column (matching filter 0 cells) ≡ false)
      ↔ Clashes cells filter (some (column, descending))
unsortable cells filter column descending =
    let rows = matching filter 0 cells in
    let once : (i : ℕ) → occurs i rows ≤ 1 =
      λ i. rw (occurs-matching filter cells i) (times-le filter (get_elem? cells i)) in
    (
      λ e.
          let parts = or_false (leb (length rows) 1) (all (has_cell cells column) rows) e in
          let (i, j, h, m, n) =
            two_rows cells filter rows once (matching-Matched filter cells) parts.0 in
          let (k, l) =
            lacking_row cells filter column rows (matching-Matched filter cells) parts.1 in
          (i, j, k, h, m, n, l),
      λ (i, j, k, h, m, n, l).
          let both = occurs_both i j rows h in
          let first = Matched-occurs cells filter i m in
          let second = Matched-occurs cells filter j n in
          let third = Matched-occurs cells filter k (l.0, l.1, l.2) in
          let long : leb (length rows) 1 ≡ false = ground arith in
          let broken =
            occurs-all (has_cell cells column) k rows (omega arith)
              (Lacks-has_cell cells filter column k l) in
          rw (long, broken) refl,
    )
