-- ===== src/Tui/Table/Counts.antt =====
-- How often the list of shown rows of `View::reindex` in `crates/tui/src/app.rs` has an index.
use onetui.Base.{
  ℕ, zero, suc, ◌+◌, ◌<◌, ◌≡◌, refl, Bool, List, [], ◌∷◌, Option, none, some, get_elem?, ◌==◌,
  if◌then◌else◌, Bool-cases, inl, inr, arith, ◌≤◌, length, all, false, true, ==_iff, subst, sym,
  ◌&&◌,
}
use onetui.Text.{Text}
use onetui.Tui.Table.{Cells, matches, matching, insert_row, sort_rows}

abbrev pub occurs : ℕ → List ℕ → ℕ
occurs i [] = 0
occurs i (j ∷ rows) = let later = occurs i rows in (if j == i then 1 else 0) + later

abbrev pub times : Text → Option (List (Option Text)) → ℕ
times filter none = 0
times filter (some row) = if matches filter row then 1 else 0

occurs_before :
    (filter : Text) (first : ℕ) (cells : Cells) (i : ℕ)
    → i < first
    → occurs i (matching filter first cells) ≡ 0
unfolding matching
occurs_before filter first [] i h = refl
occurs_before filter first (row ∷ cells) i h =
    let later = occurs_before filter (first + 1) cells i (omega arith) in
    elim (Bool-cases (matches filter row)) [
      | inl e ↦ rw e (ground (arith, later))
      | inr e ↦ rw e later
    ]

occurs_from :
    (filter : Text) (first : ℕ) (cells : Cells) (i n : ℕ)
    → i ≡ first + n
    → occurs i (matching filter first cells) ≡ times filter (get_elem? cells n)
unfolding matching
occurs_from filter first [] i n h = refl
occurs_from filter first (row ∷ cells) i zero h =
    let later = occurs_before filter (first + 1) cells i (omega arith) in
    elim (Bool-cases (matches filter row)) [
      | inl e ↦ rw e (ground (arith, later, h))
      | inr e ↦ rw e later
    ]
occurs_from filter first (row ∷ cells) i (suc n) h =
    let later = occurs_from filter (first + 1) cells i n (omega arith) in
    elim (Bool-cases (matches filter row)) [
      | inl e ↦ rw e (ground (arith, later, h))
      | inr e ↦ rw e later
    ]

pub occurs-matching :
    (filter : Text) (cells : Cells) (i : ℕ)
    → occurs i (matching filter 0 cells) ≡ times filter (get_elem? cells i)
occurs-matching filter cells i = occurs_from filter 0 cells i i (omega arith)

occurs-insert_row :
    (leq : ℕ → ℕ → Bool) (i j : ℕ) (rows : List ℕ)
    → occurs i (insert_row leq j rows) ≡ occurs i (j ∷ rows)
unfolding insert_row
occurs-insert_row leq i j [] = refl
occurs-insert_row leq i j (k ∷ rows) =
    let later = occurs-insert_row leq i j rows in
    elim (Bool-cases (leq j k)) [ inl e ↦ rw e refl | inr e ↦ rw e (omega (arith, later)) ]

pub occurs-sort_rows :
    (leq : ℕ → ℕ → Bool) (i : ℕ) (rows : List ℕ) → occurs i (sort_rows leq rows) ≡ occurs i rows
unfolding sort_rows
occurs-sort_rows leq i [] = refl
occurs-sort_rows leq i (j ∷ rows) =
    rw (occurs-insert_row leq i j (sort_rows leq rows), occurs-sort_rows leq i rows) refl

pub times-le : (filter : Text) (o : Option (List (Option Text))) → times filter o ≤ 1
times-le filter none = omega arith
times-le filter (some row) = ground arith

-- Two rows that differ stand at different places.
pub occurs_both :
    (i j : ℕ) (rows : List ℕ) → (i == j) ≡ false → occurs i rows + occurs j rows ≤ length rows
occurs_both i j [] h = omega arith
occurs_both i j (r ∷ rows) h = let later = occurs_both i j rows h in ground arith

and_false : (a b : Bool) → b ≡ false → (a && b) ≡ false
and_false true b e = e
and_false false b e = refl

pub occurs-all :
    (p : ℕ → Bool) (k : ℕ) (rows : List ℕ) → 1 ≤ occurs k rows → p k ≡ false → all p rows ≡ false
occurs-all p k [] h e = absurd (omega arith)
occurs-all p k (r ∷ rows) h e = elim (Bool-cases (r == k)) [
  | inl same ↦
      let here : p r ≡ false = subst (λ n. p n ≡ false) (sym ((==_iff r k).0 same)) e in
      rw here refl
  | inr other ↦ and_false (p r) _ (occurs-all p k rows (omega (arith, rw other at h)) e)
]
