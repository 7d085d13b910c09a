-- ===== src/Tui/Session/Stream.antt =====
-- A followed stream as a sequence of events: the window next to every row that was delivered.
use onetui.Base.{
  ℕ, zero, suc, ◌+◌, ◌≡◌, ◌≤◌, ◌<◌, ◌^◌, refl, sym, ap, ◌∙◌, subst, Bool, true, false, ◌&&◌, not,
  and_true, List, [], ◌∷◌, ◌++◌, Option, length, drop, length-append, drop-append, length-drop,
  Bool-cases, Outcome, ok, err, panicked, stuck, ensure, leb, leb→le, >>=-eq-ok, ok-injective, inl,
  inr, arith, ensure-eq-ok,
}
use onetui.Text.{Text}
use onetui.Core.{Row, Page, page_rows, page_bytes, page_size}
use onetui.Tui.Value.{ValueError, projections}
use onetui.Tui.Table.{reindex}
use onetui.Tui.Session.{
  App, View, Answer, Request, expect, invalidate, received, with_message, selected_index,
}
use onetui.Tui.Session.Follow.{
  too_much, batch, oversized, no_token, bounded_token, same_columns, append_batch, follow_view,
  is_due, follow_tick, queue_follow, saturating_add, complete_batch, complete_follow,
}
use onetui.Tui.Session.Pages.{toggled, toggle_sort}
use onetui.Tui.Session.Window.{batch_page, Rolled, append_batch-Rolled}

-- The states of a followed stream, each with all the rows that were delivered since the start.
pub data Followed : App → List Row → Type 0 where
  started :
      (now : ℕ) (request : Request) (answer : Answer) {page : Page} (app : App) {app' : App}
      → request.reset ≡ true
      → batch answer ≡ ok page
      → complete_follow now request answer app ≡ ok app'
      → Followed app' page.rows
  continued :
      (now : ℕ) (request : Request) (answer : Answer) {page : Page} {app app' : App}
      {log : List Row}
      → Followed app log
      → request.reset ≡ false
      → batch answer ≡ ok page
      → same_columns app.view.page.columns page.columns ≡ true
      → complete_follow now request answer app ≡ ok app'
      → Followed app' (log ++ page.rows)
  columns_changed :
      (now : ℕ) (request : Request) (answer : Answer) (page : Page) {app app' : App}
      {log : List Row}
      → Followed app log
      → request.reset ≡ false
      → batch answer ≡ ok page
      → same_columns app.view.page.columns page.columns ≡ false
      → complete_follow now request answer app ≡ ok app'
      → Followed app' log
  refused :
      (now : ℕ) (request : Request) (answer : Answer) (text : Text) {app app' : App}
      {log : List Row}
      → Followed app log
      → batch answer ≡ err text
      → complete_follow now request answer app ≡ ok app'
      → Followed app' log
  ticked :
      (now : ℕ) {app app' : App} {log : List Row}
      → Followed app log
      → follow_tick now app ≡ ok app'
      → Followed app' log
  sorted :
      {app app' : App} {log : List Row}
      → Followed app log
      → toggle_sort app ≡ ok app'
      → Followed app' log
  interrupted : {app : App} {log : List Row} → Followed app log → Followed (invalidate app) log

-- The window is what is left of the rows without the evicted ones, and is not too much.
abbrev pub Mirrors : View → List Row → Type 0
Mirrors view log =
    (view.live_evicted ≤ length log)
    × (view.page.rows ≡ drop view.live_evicted log)
    × (length view.page.rows ≤ page_rows)
    × (page_size view.page ≤ page_bytes)

too_much-false :
    (page : Page) {cells : List (List (Option Text))}
    → length page.rows ≤ page_rows
    → page_size page ≤ page_bytes
    → projections page ≡ ok cells
    → too_much page ≡ false
unfolding too_much
too_much-false page h k e = rw e (ground arith)

fits_rows :
    (page : Page)
    → too_much page ≡ false
    → (length page.rows ≤ page_rows) × (page_size page ≤ page_bytes)
unfolding too_much
fits_rows page h = (ground arith, ground arith)

pub with_message-ok :
    {A : Type 0} (m : Outcome ValueError A) {a : A} → with_message m ≡ ok a → m ≡ ok a
with_message-ok (ok b) e = ap ok (ok-injective e)
with_message-ok (err x) e = cc
with_message-ok panicked e = cc
with_message-ok stuck e = cc

batch_page_fits :
    (page : Page) {cells : List (List (Option Text))}
    → (leb (length page.rows) page_rows && leb (page_size page) page_bytes) ≡ true
    → projections page ≡ ok cells
    → too_much (batch_page page) ≡ false
unfolding page_size projections
batch_page_fits page h e =
    let limits = and_true (leb (length page.rows) page_rows) (leb (page_size page) page_bytes) h in
    too_much-false (batch_page page) (leb→le (length page.rows) page_rows limits.0)
      (leb→le (page_size page) page_bytes limits.1) e

pub batch_fits :
    (answer : Answer) {page : Page} → batch answer ≡ ok page → too_much (batch_page page) ≡ false
unfolding batch
batch_fits answer e =
    let first = >>=-eq-ok (received answer) _ e in
    let limits = leb (length first.0.rows) page_rows && leb (page_size first.0) page_bytes in
    let size = >>=-eq-ok (ensure limits oversized) _ first.2 in
    let token = >>=-eq-ok (ensure (bounded_token first.0.continuation) no_token) _ size.2 in
    let cells = >>=-eq-ok (with_message (projections first.0)) _ token.2 in
    subst (λ p. too_much (batch_page p) ≡ false) (ok-injective cells.2)
      (batch_page_fits first.0 (ensure-eq-ok limits oversized size.1)
        (with_message-ok (projections first.0) cells.1))

drop_nil : (a b : ℕ) → drop {A = Row} a [] ≡ drop b []
drop_nil zero zero = refl
drop_nil zero (suc b) = refl
drop_nil (suc a) zero = refl
drop_nil (suc a) (suc b) = refl

-- One batch appended to a window, and to the rows that were delivered.
drop-drop : (a b : ℕ) (rows : List Row) → drop b (drop a rows) ≡ drop (a + b) rows
drop-drop zero b rows = ap (λ (n : ℕ). drop n rows) (zero_plus b)
  where
    zero_plus : (b : ℕ) → b ≡ 0 + b
    zero_plus b = omega arith
drop-drop (suc a) b [] = drop_nil b (suc a + b)
drop-drop (suc a) b (row ∷ rows) =
    drop-drop a b rows ∙ ap (λ (n : ℕ). drop n (row ∷ rows)) (plus_suc a b)
  where
    plus_suc : (a b : ℕ) → suc (a + b) ≡ suc a + b
    plus_suc a b = omega arith

saturating_add_lem : (a b : ℕ) → a + b < 2 ^ 64 → saturating_add a b ≡ a + b
saturating_add_lem a b h = ground arith

Rolled-Mirrors :
    (page : Page) (old view : View) (log : List Row)
    → old.live_evicted ≤ length log
    → old.page.rows ≡ drop old.live_evicted log
    → length log < 2 ^ 64
    → Rolled page old.page.rows old.live_evicted view
    → Mirrors view (log ++ page.rows)
Rolled-Mirrors page old view log evicted mirrored bound (removed, few, rows, count, columns, fits) =
    let limits = fits_rows view.page fits in
    let left = length-drop old.live_evicted log in
    let total : old.live_evicted + removed ≤ length log =
      omega (arith, evicted, few, left, ap length mirrored) in
    let sum = saturating_add_lem old.live_evicted removed (omega (arith, total, bound)) in
    let window =
      rows
      ∙ ap (λ r. drop removed (r ++ page.rows)) mirrored
      ∙ ap (drop removed) (sym (drop-append old.live_evicted log page.rows evicted))
      ∙ drop-drop old.live_evicted removed (log ++ page.rows)
      ∙ ap (λ (n : ℕ). drop n (log ++ page.rows)) (sym (count ∙ sum)) in
    (omega (arith, count, sum, total, length-append log page.rows), window, limits.0, limits.1)

first_Mirrors :
    (now : ℕ) (page : Page) (app app' : App)
    → too_much (batch_page page) ≡ false
    → complete_batch now true (ok page) app ≡ ok app'
    → Mirrors app'.view page.rows
unfolding complete_batch
first_Mirrors now page app app' fits e =
    let start = follow_view true app.view in
    let built = >>=-eq-ok (append_batch true page start) _ e in
    subst (λ (a : App). Mirrors a.view page.rows) (ok-injective built.2)
      (Rolled-Mirrors page start built.0 [] (omega arith) refl (omega arith)
        (append_batch-Rolled true page start built.0 fits built.1))

next_Mirrors :
    (now : ℕ) (page : Page) (app app' : App) (log : List Row)
    → Mirrors app.view log
    → length log < 2 ^ 64
    → too_much (batch_page page) ≡ false
    → same_columns app.view.page.columns page.columns ≡ true
    → complete_batch now false (ok page) app ≡ ok app'
    → Mirrors app'.view (log ++ page.rows)
unfolding complete_batch
next_Mirrors now page app app' log m bound fits same e =
    let built = >>=-eq-ok (append_batch false page app.view) _ (rw same at e) in
    subst (λ (a : App). Mirrors a.view (log ++ page.rows)) (ok-injective built.2)
      (Rolled-Mirrors page app.view built.0 log m.0 m.1 bound
        (append_batch-Rolled false page app.view built.0 fits built.1))

-- What leaves the page and the count of evicted rows alone.
refused_view :
    (now : ℕ) (reset : Bool) (text : Text) (app app' : App)
    → complete_batch now reset (err text) app ≡ ok app'
    → app'.view ≡ app.view
unfolding complete_batch
refused_view now reset text app app' e = ap (λ (a : App). a.view) (sym (ok-injective e))

changed_view :
    (now : ℕ) (page : Page) (app app' : App)
    → same_columns app.view.page.columns page.columns ≡ false
    → complete_batch now false (ok page) app ≡ ok app'
    → app'.view ≡ app.view
unfolding complete_batch
changed_view now page app app' changed e =
    ap (λ (a : App). a.view) (sym (ok-injective (rw changed at e)))

queued_view :
    (reset : Bool) (app app' : App) → queue_follow reset app ≡ ok app' → app'.view ≡ app.view
unfolding queue_follow
queued_view reset app app' e =
    let alias = >>=-eq-ok (expect app.view.alias) _ e in
    ap (λ (a : App). a.view) (sym (ok-injective alias.2))

ticked_view : (now : ℕ) (app app' : App) → follow_tick now app ≡ ok app' → app'.view ≡ app.view
unfolding follow_tick
ticked_view now app app' e =
    elim (Bool-cases (app.following && not app.loading && is_due now app.follow_due)) [
      | inl h ↦ queued_view false app app' (rw h at e)
      | inr h ↦ ap (λ (a : App). a.view) (sym (ok-injective (rw h at e)))
    ]

sorted_Mirrors :
    (app app' : App) (log : List Row)
    → toggle_sort app ≡ ok app'
    → Mirrors app.view log
    → Mirrors app'.view log
unfolding toggle_sort
sorted_Mirrors app app' log e m =
    let view = app.view in
    let shown =
      >>=-eq-ok
        (reindex view.projections view.filter (toggled view.column view.sort) (selected_index view))
        _ e in
    subst (λ (a : App). Mirrors a.view log) (ok-injective shown.2) m

-- In every state of a followed stream the window holds the newest of the rows that were delivered
-- since the start, in their order, without those that the count of evicted rows says; and it is of
-- at most 100 rows and 1 MiB. The rows delivered are fewer than 2^64.
pub Followed-Mirrors :
    {app : App} {log : List Row} → Followed app log → length log < 2 ^ 64 → Mirrors app.view log
unfolding complete_follow
Followed-Mirrors (started now request answer {page} app {app'} r b e) bound =
    first_Mirrors now page app app' (batch_fits answer b) (rw (r, b) at e)
Followed-Mirrors (continued now request answer {page} {app} {app'} {log} h r b c e) bound =
    let before : length log < 2 ^ 64 = omega (arith, length-append log page.rows, bound) in
    next_Mirrors now page app app' log (Followed-Mirrors h before) before (batch_fits answer b) c
      (rw (r, b) at e)
Followed-Mirrors (columns_changed now request answer page {app} {app'} {log} h r b c e) bound =
    subst (λ view. Mirrors view log) (sym (changed_view now page app app' c (rw (r, b) at e)))
      (Followed-Mirrors h bound)
Followed-Mirrors (refused now request answer text {app} {app'} {log} h b e) bound =
    subst (λ view. Mirrors view log)
      (sym (refused_view now request.reset text app app' (rw b at e))) (Followed-Mirrors h bound)
Followed-Mirrors (ticked now {app} {app'} {log} h e) bound =
    subst (λ view. Mirrors view log) (sym (ticked_view now app app' e)) (Followed-Mirrors h bound)
Followed-Mirrors (sorted {app} {app'} {log} h e) bound =
    sorted_Mirrors app app' log e (Followed-Mirrors h bound)
Followed-Mirrors (interrupted h) bound = Followed-Mirrors h bound
