-- ===== src/Tui/Table/Safe.antt =====
-- When `reindex` and `rebuild` do not panic: every row has a cell in the column of the sort.
use onetui.Base.{
  ℕ, zero, suc, ◌≡◌, ◌<◌, refl, subst, Bool, true, false, ◌||◌, List, [], ◌∷◌, Option, none, some,
  length, get_elem?, all, All, leb, ok, Settles, Settles-bind, arith,
}
use onetui.Text.{Text}
use onetui.Core.{Row}
use onetui.Tui.Value.Laws.{SameShape}
use onetui.Tui.Table.{Cells, matching, has_cell, cell_at, ordered, selected_place, reindex}
use onetui.Tui.Table.Shows.{Matched, matching-Matched}

abbrev pub HasSort : Option (ℕ × Bool) → List Row → Type 0
HasSort none rows = Unit
HasSort (some (column, descending)) rows = All (λ row. column < length row.cells) rows

abbrev Wide : ℕ → Cells → Type 0
Wide column cells = All (λ row. column < length row) cells

SameShape-Wide :
    (column : ℕ) (rows : List Row) (cells : Cells)
    → SameShape rows cells
    → All (λ row. column < length row.cells) rows
    → Wide column cells
SameShape-Wide column [] [] s h = tt
SameShape-Wide column [] (c ∷ cells) s h = absurd s
SameShape-Wide column (row ∷ rows) [] s h = absurd s
SameShape-Wide column (row ∷ rows) (c ∷ cells) s h =
    (omega (arith, s.0, h.0), SameShape-Wide column rows cells s.1 h.1)

row_has :
    (row : List (Option Text)) (column : ℕ)
    → column < length row
    → (cell : Option Text) × (get_elem? row column ≡ some cell)
row_has [] column h = absurd (omega arith)
row_has (cell ∷ row) zero h = (cell, refl)
row_has (cell ∷ row) (suc column) h = row_has row column (omega arith)

abbrev LongerThan : ℕ → Option (List (Option Text)) → Type 0
LongerThan column none = Unit
LongerThan column (some row) = column < length row

cells_have :
    (column : ℕ) (cells : Cells) (i : ℕ) {row : List (Option Text)}
    → Wide column cells
    → get_elem? cells i ≡ some row
    → column < length row
cells_have column [] i h e = cc
cells_have column (row ∷ cells) zero h e = subst (λ o. LongerThan column o) e h.0
cells_have column (row ∷ cells) (suc i) h e = cells_have column cells i h.1 e

Matched-has_cell :
    (filter : Text) (column : ℕ) (cells : Cells) (i : ℕ)
    → Wide column cells
    → Matched cells filter i
    → has_cell cells column i ≡ true
unfolding has_cell cell_at
Matched-has_cell filter column cells i h (row, e, m) =
    rw (e, (row_has row column (cells_have column cells i h e)).1) refl

all_have :
    (filter : Text) (column : ℕ) (cells : Cells) (rows : List ℕ)
    → Wide column cells
    → All (Matched cells filter) rows
    → all (has_cell cells column) rows ≡ true
all_have filter column cells [] h m = refl
all_have filter column cells (i ∷ rows) h m =
    rw (Matched-has_cell filter column cells i h m.0, all_have filter column cells rows h m.1) refl

or_true : (a b : Bool) → b ≡ true → (a || b) ≡ true
or_true false b h = h
or_true true b h = refl

ordered-Settles :
    (E : Type 0) (filter : Text) (rows : List Row) (cells : Cells) (sort : Option (ℕ × Bool))
    (page : List ℕ)
    → SameShape rows cells
    → HasSort sort rows
    → All (Matched cells filter) page
    → Settles (ordered {E = E} cells sort page)
unfolding ordered
ordered-Settles E filter rows cells none page s h m = tt
ordered-Settles E filter rows cells (some sort) page s h m =
    rw
      (or_true (leb (length page) 1) (all (has_cell cells sort.0) page)
        (all_have filter sort.0 cells page (SameShape-Wide sort.0 rows cells s h) m))
      tt

pub reindex-Settles :
    (E : Type 0) (rows : List Row) (cells : Cells) (filter : Text) (sort : Option (ℕ × Bool))
    (keep : Option ℕ)
    → SameShape rows cells
    → HasSort sort rows
    → Settles (reindex {E = E} cells filter sort keep)
unfolding reindex
reindex-Settles E rows cells filter sort keep s h =
    Settles-bind (ordered {E = E} cells sort (matching filter 0 cells))
      (λ shown. ok (shown, selected_place keep shown))
      (ordered-Settles E filter rows cells sort (matching filter 0 cells) s h
        (matching-Matched filter cells))
      (λ shown e. tt)
