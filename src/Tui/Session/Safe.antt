-- ===== src/Tui/Session/Safe.antt =====
-- When the answers of a provider are handled without a panic.
use onetui.Base.{
  ℕ, zero, suc, ◌≡◌, refl, sym, subst, Bool, true, false, ◌&&◌, ◌||◌, not, List, [], ◌∷◌, ◌++◌,
  Option, none, some, length, drop, Bool-cases, Outcome, ok, err, panicked, stuck, ensure, ltb, leb,
  >>=-eq-ok, ok-injective, Settles, Settles-bind, Settles-ensure, inl, inr, ◌>>=◌, or_false,
}
use onetui.Text.{Text}
use onetui.Core.{Row, Page, page_rows, page_bytes, page_size}
use onetui.Tui.Value.{ValueError, projections}
use onetui.Tui.Value.Laws.{projections-SameShape, projections-Settles}
use onetui.Tui.Table.{reindex}
use onetui.Tui.Table.Safe.{HasSort, reindex-Settles}
use onetui.Tui.Session.{
  App, View, Answer, delivered, failed, Request, received, rebuild, with_message,
}
use onetui.Tui.Session.Follow.{
  oversized, no_token, bounded_token, is_ok, too_much, batch, same_columns, show_batch,
  append_batch, follow_view, complete_batch, complete_follow,
}
use onetui.Tui.Session.Window.{batch_page, trim_lem}
use onetui.Tui.Session.Stream.{batch_fits}

pub rebuild-Settles :
    (keep : Option ℕ) (view : View) {cells : List (List (Option Text))}
    → projections view.page ≡ ok cells
    → HasSort view.sort view.page.rows
    → Settles (rebuild keep view)
unfolding rebuild
rebuild-Settles keep view {cells} e h = rw e (
    Settles-bind (reindex cells view.filter view.sort keep) _
      (reindex-Settles ⊥ view.page.rows cells view.filter view.sort keep
        (projections-SameShape view.page e) h)
      (λ shown e'. tt))

pub received-Settles : (answer : Answer) → Settles (received answer)
received-Settles (delivered page) = tt
received-Settles (failed text) = tt

with_message-Settles :
    {A : Type 0} (m : Outcome ValueError A) → Settles m → Settles (with_message m)
with_message-Settles (ok a) h = tt
with_message-Settles (err e) h = tt
with_message-Settles panicked h = h
with_message-Settles stuck h = h

abbrev pub checked : Page → Outcome Text Page
checked page = with_message (projections page) >>= λ cells. ok page

pub checked-Settles : (page : Page) → Settles (checked page)
checked-Settles page =
    Settles-bind (with_message (projections page)) _
      (with_message-Settles (projections page) (projections-Settles page)) (λ cells e. tt)

batch-Settles : (answer : Answer) → Settles (batch answer)
unfolding batch
batch-Settles answer = Settles-bind (received answer) _ (received-Settles answer) (λ page e.
    Settles-bind
      (ensure (leb (length page.rows) page_rows && leb (page_size page) page_bytes) oversized) _
      (Settles-ensure _ _)
      (λ u e'.
        Settles-bind (ensure (bounded_token page.continuation) no_token) _ (Settles-ensure _ _)
          (λ u' e''. checked-Settles page)))

is_ok_lem : {E A : Type 0} (m : Outcome E A) → not (is_ok m) ≡ false → (a : A) × (m ≡ ok a)
is_ok_lem (ok a) h = (a, refl)
is_ok_lem (err e) h = cc
is_ok_lem panicked h = cc
is_ok_lem stuck h = cc

not_too_much :
    (page : Page)
    → too_much page ≡ false
    → (cells : List (List (Option Text))) × (projections page ≡ ok cells)
unfolding too_much
not_too_much page h =
    is_ok_lem (projections page)
      (or_false (ltb page_rows (length page.rows) || ltb page_bytes (page_size page))
        (not (is_ok (projections page))) h).1

HasSort-drop :
    (sort : Option (ℕ × Bool)) (n : ℕ) (rows : List Row)
    → HasSort sort rows
    → HasSort sort (drop n rows)
HasSort-drop none n rows h = tt
HasSort-drop (some sort) zero rows h = h
HasSort-drop (some sort) (suc n) [] h = tt
HasSort-drop (some sort) (suc n) (row ∷ rows) h = HasSort-drop (some sort) n rows h.1

HasSort-append :
    (sort : Option (ℕ × Bool)) (a b : List Row)
    → HasSort sort a
    → HasSort sort b
    → HasSort sort (a ++ b)
HasSort-append none a b h k = tt
HasSort-append (some sort) [] b h k = k
HasSort-append (some sort) (row ∷ a) b h k = (h.0, HasSort-append (some sort) a b h.1 k)

show_batch-Settles :
    (changed : Bool) (keep : Option ℕ) (was_last : Bool) (view : View)
    → too_much view.page ≡ false
    → HasSort view.sort view.page.rows
    → Settles (show_batch changed keep was_last view)
unfolding show_batch
show_batch-Settles false keep was_last view h k = tt
show_batch-Settles true keep was_last view h k =
    Settles-bind (rebuild keep view) _ (rebuild-Settles keep view (not_too_much view.page h).1 k)
      (λ view' e. tt)

append_batch-Settles :
    (reset : Bool) (page : Page) (view : View)
    → too_much (batch_page page) ≡ false
    → HasSort view.sort (view.page.rows ++ page.rows)
    → Settles (append_batch reset page view)
unfolding append_batch
append_batch-Settles reset page view h k =
    let kept = trim_lem (batch_page page) view.page.rows page.rows h in
    rw (kept.1) (
      show_batch-Settles _ _ _ _ kept.2.2 (
        subst (HasSort view.sort) (sym kept.2.1)
          (HasSort-drop view.sort kept.0.1 (view.page.rows ++ page.rows) k)))

-- The rows of an answer have a cell in the column of the sort.
abbrev pub GivesSort : Option (ℕ × Bool) → Answer → Type 0
GivesSort sort (delivered page) = HasSort sort page.rows
GivesSort sort (failed text) = Unit

answered_rows :
    (sort : Option (ℕ × Bool)) (answer : Answer) {page : Page}
    → GivesSort sort answer
    → batch answer ≡ ok page
    → HasSort sort page.rows
unfolding batch
answered_rows sort (delivered page) g e =
    let size =
      >>=-eq-ok
        (ensure (leb (length page.rows) page_rows && leb (page_size page) page_bytes) oversized) _
        e in
    let token = >>=-eq-ok (ensure (bounded_token page.continuation) no_token) _ size.2 in
    let cells = >>=-eq-ok (with_message (projections page)) _ token.2 in
    subst (λ (p : Page). HasSort sort p.rows) (ok-injective cells.2) g
answered_rows sort (failed text) g e = cc

complete_batch-Settles :
    (now : ℕ) (reset : Bool) (result : Outcome Text Page) (app : App)
    → Settles result
    → ((page : Page)
        → result ≡ ok page
        → Settles (append_batch reset page (follow_view reset app.view)))
    → Settles (complete_batch now reset result app)
unfolding complete_batch
complete_batch-Settles now reset (ok page) app h k =
    elim (Bool-cases (not reset && not (same_columns app.view.page.columns page.columns))) [
      | inl e ↦ rw e tt
      | inr e ↦ rw e (
          Settles-bind (append_batch reset page (follow_view reset app.view)) _ (k page refl)
            (λ view e'. tt))
    ]
complete_batch-Settles now reset (err text) app h k = tt
complete_batch-Settles now reset panicked app h k = h
complete_batch-Settles now reset stuck app h k = h

follow_rows :
    (reset : Bool) (view : View) (answer : Answer) {page : Page}
    → HasSort view.sort view.page.rows
    → GivesSort view.sort answer
    → batch answer ≡ ok page
    → HasSort (follow_view reset view).sort ((follow_view reset view).page.rows ++ page.rows)
follow_rows false view answer h g e =
    HasSort-append view.sort view.page.rows _ h (answered_rows view.sort answer g e)
follow_rows true view answer h g e = tt

-- An answer to a followed stream never panics, whatever it is: where the rows of the window and
-- those of the answer have a cell in the column of the sort, if there is a sort.
pub complete_follow-Settles :
    (now : ℕ) (request : Request) (answer : Answer) (app : App)
    → HasSort app.view.sort app.view.page.rows
    → GivesSort app.view.sort answer
    → Settles (complete_follow now request answer app)
unfolding complete_follow
complete_follow-Settles now request answer app h g =
    complete_batch-Settles now request.reset (batch answer) app (batch-Settles answer) (λ page e.
      append_batch-Settles request.reset page (follow_view request.reset app.view)
        (batch_fits answer e) (follow_rows request.reset app.view answer h g e))
