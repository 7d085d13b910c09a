-- ===== src/Tui/Session/Panics.antt =====
-- Going back to a page whose rows lack the column of the sort.
use onetui.Base.{
  ℕ, ◌≡◌, ◌↔◌, refl, Bool, List, ◌∷◌, Option, none, some, Bool-cases, ok, err, panicked, stuck,
  ◌>>=◌, inl, inr,
}
use onetui.Text.{Text}
use onetui.Core.{Page}
use onetui.Tui.Value.{projections}
use onetui.Tui.Table.{Cells, matching, sortable, ordered, reindex}
use onetui.Tui.Table.Panics.{Clashes, unsortable}
use onetui.Tui.Session.{App, View, PageBookmark, Run, rebuild}
use onetui.Tui.Session.Pages.{restored, restore, previous_page}

ordered-panics :
    (cells : Cells) (filter : Text) (sort : Option (ℕ × Bool))
    → (ordered {E = ⊥} cells sort (matching filter 0 cells) ≡ panicked) ↔ Clashes cells filter sort
unfolding ordered
ordered-panics cells filter none = (λ e. cc, λ e. absurd e)
ordered-panics cells filter (some (column, descending)) =
    let meant = unsortable cells filter column descending in
    elim (Bool-cases (sortable cells column (matching filter 0 cells))) [
      | inl fine ↦ rw fine (λ e. cc, λ h. let broken = meant.1 h in cc)
      | inr broken ↦ rw broken (λ e. meant.0 broken, λ h. refl)
    ]

-- A step after which nothing panics.
then_panics :
    {A B : Type 0} (m : Run A) (f : A → B) → ((m >>= λ a. ok (f a)) ≡ panicked) ↔ (m ≡ panicked)
then_panics (ok a) f = (λ e. cc, λ e. cc)
then_panics (err x) f = absurd x
then_panics panicked f = (λ e. refl, λ e. refl)
then_panics stuck f = (λ e. cc, λ e. cc)

both : {P Q R : Type 0} → P ↔ Q → Q ↔ R → P ↔ R
both f g = (λ p. g.0 (f.0 p), λ r. f.1 (g.1 r))

rebuild-panics :
    (keep : Option ℕ) (view : View) {cells : Cells}
    → projections view.page ≡ ok cells
    → (rebuild keep view ≡ panicked) ↔ Clashes cells view.filter view.sort
unfolding rebuild reindex
rebuild-panics keep view {cells} e = rw e (
    both (then_panics (reindex cells view.filter view.sort keep) _) (
      both (then_panics (ordered cells view.sort (matching view.filter 0 cells)) _)
        (ordered-panics cells view.filter view.sort)))

restore-panics :
    (bookmark : PageBookmark) (page : Page) (earlier : List PageBookmark) (app : App)
    {cells : Cells}
    → projections page ≡ ok cells
    → (restore bookmark page earlier app ≡ panicked) ↔ Clashes cells app.view.filter app.view.sort
unfolding restore
restore-panics bookmark page earlier app e =
    both (then_panics (rebuild bookmark.selected (restored bookmark page earlier app.view)) _)
      (rebuild-panics bookmark.selected (restored bookmark page earlier app.view) e)

-- Going back to a page that its bookmark keeps, and whose cells can be written as text, panics
-- exactly when a sort is set, two different rows of that page match the filter, and a row of it that
-- matches has no cell in the column of the sort.
pub previous_page-panics :
    (app : App) (bookmark : PageBookmark) (page : Page) (earlier : List PageBookmark)
    {cells : Cells}
    → app.view.previous ≡ bookmark ∷ earlier
    → bookmark.page ≡ some page
    → projections page ≡ ok cells
    → (previous_page app ≡ panicked) ↔ Clashes cells app.view.filter app.view.sort
unfolding previous_page
previous_page-panics app bookmark page earlier p c e =
    rw p (rw c (restore-panics bookmark page earlier app e))
