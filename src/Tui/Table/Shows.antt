-- ===== src/Tui/Table/Shows.antt =====
-- What `reindex` shows of a page: which rows, in which order, and the row that stays selected.
use mathlib.Core.List.{Perm}
use mathlib.Core.List.Perm
use onetui.Base.{
  ℕ, suc, ◌+◌, ◌≡◌, refl, sym, ap, subst, Bool, true, false, List, [], ◌∷◌, Option, none, some,
  get_elem?, any, All, ◌==◌, ==_iff, if◌then◌else◌, Bool-cases, or_false, ok, >>=-eq-ok,
  ok-injective, inl, inr, arith, ◌∙◌,
}
use onetui.Text.{Text}
use onetui.Tui.Table.{
  Cells, matches, matching, precedes, sortable, ordered, place_of, selected_place, reindex,
}
use onetui.Tui.Table.Counts.{occurs, times, occurs-matching, occurs-sort_rows}
use onetui.Tui.Table.Order.{precedes_total, precedes_trans}
use onetui.Tui.Table.Sort.{IsSorted, sort_rows-perm, sort_rows-All, sort_rows-IsSorted}

-- The row of an index is there, and matches the filter.
abbrev pub Matched : Cells → Text → ℕ → Type 0
Matched cells filter i =
    (row : List (Option Text)) × (get_elem? cells i ≡ some row) × (matches filter row ≡ true)

-- The indices from a first one on, as indices of the rows that are left.
abbrev MatchedFrom : Cells → Text → ℕ → ℕ → Type 0
MatchedFrom cells filter first i = (n : ℕ) × (i ≡ first + n) × Matched cells filter n

later_Matched :
    (row : List (Option Text)) (cells : Cells) (filter : Text) (first i : ℕ)
    → MatchedFrom cells filter (first + 1) i
    → MatchedFrom (row ∷ cells) filter first i
later_Matched row cells filter first i h = (suc h.0, omega (arith, h.1), h.2)

later_each :
    (row : List (Option Text)) (cells : Cells) (filter : Text) (first : ℕ) (rows : List ℕ)
    → All (MatchedFrom cells filter (first + 1)) rows
    → All (MatchedFrom (row ∷ cells) filter first) rows
later_each row cells filter first [] h = tt
later_each row cells filter first (i ∷ rows) h =
    (later_Matched row cells filter first i h.0, later_each row cells filter first rows h.1)

matching-All :
    (filter : Text) (first : ℕ) (cells : Cells)
    → All (MatchedFrom cells filter first) (matching filter first cells)
unfolding matching
matching-All filter first [] = tt
matching-All filter first (row ∷ cells) =
    let later =
      later_each row cells filter first (matching filter (first + 1) cells)
        (matching-All filter (first + 1) cells) in
    elim (Bool-cases (matches filter row)) [
      | inl e ↦ rw e ((0, omega arith, (row, refl, e)), later)
      | inr e ↦ rw e later
    ]

from_zero :
    (cells : Cells) (filter : Text) (rows : List ℕ)
    → All (MatchedFrom cells filter 0) rows
    → All (Matched cells filter) rows
from_zero cells filter [] h = tt
from_zero cells filter (i ∷ rows) h = (
  subst (Matched cells filter) (sym (omega (arith, h.0.1))) h.0.2,
  from_zero cells filter rows h.1,
)

pub matching-Matched :
    (filter : Text) (cells : Cells) → All (Matched cells filter) (matching filter 0 cells)
matching-Matched filter cells =
    from_zero cells filter (matching filter 0 cells) (matching-All filter 0 cells)

-- In the order of the sort, or in that of the page.
abbrev pub InOrder : Cells → Option (ℕ × Bool) → List ℕ → List ℕ → Type 0
InOrder cells none page rows = rows ≡ page
InOrder cells (some sort) page rows = IsSorted (precedes cells sort) rows

module _ {E : Type 0} (cells : Cells) where
  ordered-Perm :
      (sort : Option (ℕ × Bool)) (page : List ℕ) {rows : List ℕ}
      → ordered {E = E} cells sort page ≡ ok rows
      → Perm rows page × InOrder cells sort page rows
  unfolding ordered
  ordered-Perm none page e =
      subst (λ rows. Perm rows page × (rows ≡ page)) (ok-injective e) (Perm.refl page, refl)
  ordered-Perm (some sort) page e = elim (Bool-cases (sortable cells sort.0 page)) [
    | inl fine ↦
        let leq = precedes cells sort in
        subst (λ rows. Perm rows page × IsSorted leq rows) (ok-injective (rw fine at e))
          (
            sort_rows-perm leq page,
            sort_rows-IsSorted leq (precedes_total cells sort) (precedes_trans cells sort) page,
          )
    | inr broken ↦ cc
  ]

  ordered-All :
      (P : ℕ → Type 0) (sort : Option (ℕ × Bool)) (page : List ℕ) {rows : List ℕ}
      → All P page
      → ordered {E = E} cells sort page ≡ ok rows
      → All P rows
  unfolding ordered
  ordered-All P none page h e = subst (All P) (ok-injective e) h
  ordered-All P (some sort) page h e = elim (Bool-cases (sortable cells sort.0 page)) [
    | inl fine ↦
        subst (All P) (ok-injective (rw fine at e)) (sort_rows-All (precedes cells sort) P page h)
    | inr broken ↦ cc
  ]

  ordered-occurs :
      (sort : Option (ℕ × Bool)) (i : ℕ) (page : List ℕ) {rows : List ℕ}
      → ordered {E = E} cells sort page ≡ ok rows
      → occurs i rows ≡ occurs i page
  unfolding ordered
  ordered-occurs none i page e = subst (λ rows. occurs i rows ≡ occurs i page) (ok-injective e) refl
  ordered-occurs (some sort) i page e = elim (Bool-cases (sortable cells sort.0 page)) [
    | inl fine ↦
        subst (λ rows. occurs i rows ≡ occurs i page) (ok-injective (rw fine at e))
          (occurs-sort_rows (precedes cells sort) i page)
    | inr broken ↦ cc
  ]

kept_place :
    (i : ℕ) (rows : List ℕ)
    → any (λ j. j == i) rows ≡ true
    → (place : ℕ) × (place_of i rows ≡ some place) × (get_elem? rows place ≡ some i)
unfolding place_of
kept_place i [] e = cc
kept_place i (j ∷ rows) e = elim (Bool-cases (j == i)) [
  | inl same ↦ rw same (0, refl, ap some ((==_iff j i).0 same))
  | inr other ↦
      let later = kept_place i rows (rw other at e) in
      (suc later.0, (rw (other, later.1) refl), later.2)
]

lost_place : (i : ℕ) (rows : List ℕ) → any (λ j. j == i) rows ≡ false → place_of i rows ≡ none
unfolding place_of
lost_place i [] e = refl
lost_place i (j ∷ rows) e =
    let parts = or_false (j == i) (any (λ k. k == i) rows) e in
    rw (parts.0, lost_place i rows parts.1) refl

-- The row that was selected stays selected while it is shown; else it is the first one.
abbrev pub Selects : Option ℕ → List ℕ → ℕ → Type 0
Selects none rows place = place ≡ 0
Selects (some i) rows place =
    if any (λ j. j == i) rows then (get_elem? rows place ≡ some i) else (place ≡ 0)

selected_place-Selects :
    (keep : Option ℕ) (rows : List ℕ) → Selects keep rows (selected_place keep rows)
unfolding selected_place
selected_place-Selects none rows = refl
selected_place-Selects (some i) rows = elim (Bool-cases (any (λ j. j == i) rows)) [
  | inl e ↦ let found = kept_place i rows e in rw (e, found.1) found.2
  | inr e ↦ rw (e, lost_place i rows e) refl
]

-- The index of a row that matches occurs once, any other one not at all.
abbrev pub Complete : Cells → Text → List ℕ → Type 0
Complete cells filter rows = (i : ℕ) → occurs i rows ≡ times filter (get_elem? cells i)

abbrev pub Shows : Cells → Text → Option (ℕ × Bool) → Option ℕ → List ℕ × ℕ → Type 0
Shows cells filter sort keep (rows, place) =
    Perm rows (matching filter 0 cells)
    × All (Matched cells filter) rows
    × Complete cells filter rows
    × InOrder cells sort (matching filter 0 cells) rows
    × Selects keep rows place

pub reindex-Shows :
    {E : Type 0} (cells : Cells) (filter : Text) (sort : Option (ℕ × Bool)) (keep : Option ℕ)
    {shown : List ℕ × ℕ}
    → reindex {E = E} cells filter sort keep ≡ ok shown
    → Shows cells filter sort keep shown
unfolding reindex
reindex-Shows {E} cells filter sort keep e =
    let page = matching filter 0 cells in
    let rows = >>=-eq-ok (ordered {E = E} cells sort page) _ e in
    let order = ordered-Perm cells sort page rows.1 in
    let fits =
      ordered-All cells (Matched cells filter) sort page (matching-Matched filter cells) rows.1 in
    let complete : Complete cells filter rows.0 =
      λ i. ordered-occurs cells sort i page rows.1 ∙ occurs-matching filter cells i in
    subst (Shows cells filter sort keep) (ok-injective rows.2)
      (order.0, fits, complete, order.1, selected_place-Selects keep rows.0)
