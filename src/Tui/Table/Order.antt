-- ===== src/Tui/Table/Order.antt =====
-- The order of cells: total, and transitive.
use onetui.Base.{ℕ, ◌≡◌, refl, Bool, true, false, [], ◌∷◌, Option, none, some, arith}
use onetui.Text.{Text}
use onetui.Tui.Table.{Cells, joined, text_leq, cell_leq, cell_at, precedes}

text_leq_total : (s t : Text) → text_leq s t ≡ false → text_leq t s ≡ true
unfolding text_leq
text_leq_total [] t h = cc
text_leq_total (c ∷ s) [] h = refl
text_leq_total (c ∷ s) (d ∷ t) h = ground (arith, text_leq_total s t)

text_leq_trans : (s t u : Text) → text_leq s t ≡ true → text_leq t u ≡ true → text_leq s u ≡ true
unfolding text_leq
text_leq_trans [] t u h k = refl
text_leq_trans (c ∷ s) [] u h k = cc
text_leq_trans (c ∷ s) (d ∷ t) [] h k = cc
text_leq_trans (c ∷ s) (d ∷ t) (e ∷ u) h k = ground (arith, text_leq_trans s t u)

cell_leq_total : (a b : Option Text) → cell_leq a b ≡ false → cell_leq b a ≡ true
unfolding cell_leq
cell_leq_total none b h = cc
cell_leq_total (some s) none h = refl
cell_leq_total (some s) (some t) h = text_leq_total s t h

cell_leq_trans :
    (a b c : Option Text) → cell_leq a b ≡ true → cell_leq b c ≡ true → cell_leq a c ≡ true
unfolding cell_leq
cell_leq_trans none b c h k = refl
cell_leq_trans (some s) none c h k = cc
cell_leq_trans (some s) (some t) none h k = cc
cell_leq_trans (some s) (some t) (some u) h k = text_leq_trans s t u h k

module _ (cells : Cells) where
  abbrev at : ℕ → ℕ → Option Text
  at column i = joined (cell_at cells column i)

  pub precedes_total :
      (sort : ℕ × Bool) (a b : ℕ) → precedes cells sort a b ≡ false → precedes cells sort b a ≡ true
  unfolding precedes
  precedes_total (column, false) a b h = cell_leq_total (at column a) (at column b) h
  precedes_total (column, true) a b h = cell_leq_total (at column b) (at column a) h

  pub precedes_trans :
      (sort : ℕ × Bool) (a b c : ℕ)
      → precedes cells sort a b ≡ true
      → precedes cells sort b c ≡ true
      → precedes cells sort a c ≡ true
  unfolding precedes
  precedes_trans (column, false) a b c h k =
      cell_leq_trans (at column a) (at column b) (at column c) h k
  precedes_trans (column, true) a b c h k =
      cell_leq_trans (at column c) (at column b) (at column a) k h
