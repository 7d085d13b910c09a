-- ===== src/Tui/Table.antt =====
-- `View::reindex` of `crates/tui/src/app.rs`: which rows of a page are shown, in which order, and
-- which of them is selected.
pub mod Order
pub mod Sort
pub mod Counts
pub mod Shows
pub mod Safe
pub mod Panics
use onetui.Base.{
  ℕ, zero, suc, ◌+◌, ◌≡◌, Bool, true, false, ◌&&◌, ◌||◌, not, List, [], ◌∷◌, Option, none, some,
  length, get_elem?, any, all, leb, ltb, ◌==◌, if◌then◌else◌, Outcome, ok, panicked, ◌>>=◌,
}
use onetui.Text.{Text, str, contains}

-- The projected cells of the rows.
abbrev pub Cells : Type 0
Cells = List (List (Option Text))

-- `str` compares bytes, which is the order of the characters' code points.
unfoldable pub text_leq : Text → Text → Bool
text_leq [] t = true
text_leq (c ∷ s) [] = false
text_leq (c ∷ s) (d ∷ t) = ltb c d || (c == d && text_leq s t)

-- `Option` puts `None` first.
unfoldable pub cell_leq : Option Text → Option Text → Bool
unfolding text_leq
cell_leq none b = true
cell_leq (some s) none = false
cell_leq (some s) (some t) = text_leq s t

abbrev or_null : Option Text → Text
or_null none = str "NULL"
or_null (some s) = s

-- A row is shown if one of its cells contains the filter.
unfoldable pub matches : Text → List (Option Text) → Bool
unfolding contains
matches filter row = any (λ cell. contains filter (or_null cell)) row

-- The indices of the rows that match, from an index on.
unfoldable pub matching : Text → ℕ → Cells → List ℕ
unfolding matches
matching filter i [] = []
matching filter i (row ∷ rows) =
    let later = matching filter (i + 1) rows in if matches filter row then i ∷ later else later

abbrev pub joined : Option (Option Text) → Option Text
joined none = none
joined (some cell) = cell

abbrev found : Option (List (Option Text)) → ℕ → Option (Option Text)
found none column = none
found (some row) column = get_elem? row column

-- `self.projections[i][column]`, if it is there.
unfoldable pub cell_at : Cells → ℕ → ℕ → Option (Option Text)
cell_at cells column i = found (get_elem? cells i) column

abbrev pub is_some : Option (Option Text) → Bool
is_some none = false
is_some (some cell) = true

unfoldable pub has_cell : Cells → ℕ → ℕ → Bool
unfolding cell_at
has_cell cells column i = is_some (cell_at cells column i)

-- The comparison of a sort, which is turned round for a descending one.
unfoldable pub precedes : Cells → ℕ × Bool → ℕ → ℕ → Bool
unfolding cell_at cell_leq
precedes cells (column, false) a b =
    cell_leq (joined (cell_at cells column a)) (joined (cell_at cells column b))
precedes cells (column, true) a b =
    cell_leq (joined (cell_at cells column b)) (joined (cell_at cells column a))

-- `sort_by`, which keeps the order of rows that compare equal.
unfoldable pub insert_row : (ℕ → ℕ → Bool) → ℕ → List ℕ → List ℕ
insert_row leq i [] = i ∷ []
insert_row leq i (j ∷ rows) =
    let later = insert_row leq i rows in if leq i j then i ∷ j ∷ rows else j ∷ later

unfoldable pub sort_rows : (ℕ → ℕ → Bool) → List ℕ → List ℕ
unfolding insert_row
sort_rows leq [] = []
sort_rows leq (i ∷ rows) = insert_row leq i (sort_rows leq rows)

-- With two rows or more each of them is compared, and a row without a cell in the column panics.
abbrev pub sortable : Cells → ℕ → List ℕ → Bool
sortable cells column rows = leb (length rows) 1 || all (has_cell cells column) rows

unfoldable pub ordered : {E : Type 0} → Cells → Option (ℕ × Bool) → List ℕ → Outcome E (List ℕ)
unfolding has_cell precedes sort_rows
ordered cells none rows = ok rows
ordered cells (some (column, descending)) rows =
    if sortable cells column rows
    then ok (sort_rows (precedes cells (column, descending)) rows)
    else panicked

abbrev next_place : Option ℕ → Option ℕ
next_place none = none
next_place (some place) = some (suc place)

-- `position` of an index among the rows that are shown.
unfoldable pub place_of : ℕ → List ℕ → Option ℕ
place_of i [] = none
place_of i (j ∷ rows) = let later = next_place (place_of i rows) in if j == i then some 0 else later

abbrev or_first : Option ℕ → ℕ
or_first none = 0
or_first (some place) = place

abbrev place_of_kept : Option ℕ → List ℕ → Option ℕ
place_of_kept none rows = none
place_of_kept (some i) rows = place_of i rows

-- The place that is selected, to keep a row selected.
unfoldable pub selected_place : Option ℕ → List ℕ → ℕ
unfolding place_of
selected_place keep rows = or_first (place_of_kept keep rows)

-- `reindex`: the rows that are shown in their order, and the place that is selected.
unfoldable pub reindex :
    {E : Type 0} → Cells → Text → Option (ℕ × Bool) → Option ℕ → Outcome E (List ℕ × ℕ)
unfolding matching ordered selected_place
reindex cells filter sort keep =
    ordered cells sort (matching filter 0 cells) >>= λ rows. ok (rows, selected_place keep rows)
