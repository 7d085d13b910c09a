-- ===== src/Tui/Session/Answers.antt =====
-- The answers that a session handles without a panic, and those that it drops.
use onetui.Base.{
  ℕ, ◌^◌, ◌≡◌, ◌⊎◌, ◌≤◌, ◌<◌, refl, sym, ap, subst, Bool, true, false, not, List, [], ◌∷◌, Option,
  none, some, length, All, Bool-cases, Outcome, ok, err, panicked, stuck, ensure, ltb, leb,
  if◌then◌else◌, >>=-eq-ok, ok-injective, Settles, Settles-bind, Settles-ensure, inl, inr, arith,
  ◌==◌,
}
use onetui.Text.{Text}
use onetui.Core.{Page, Row, page_bytes, page_size}
use onetui.Tui.Value.{projections}
use onetui.Tui.Table.Safe.{HasSort}
use onetui.Tui.Session.{
  Run, App, View, PageBookmark, Config, Answer, delivered, failed, Request, query_eq, received,
  with_message, rebuild, column_count, connections, connections_view, next_generation, expect,
  load_continuation, load,
}
use onetui.Tui.Session.Pages.{
  fetched, turn, popped, turned, opened, sort_in, sort_by_name, show_page, complete_load,
  complete_page, cancel, oversized_page,
}
use onetui.Tui.Session.Stream.{with_message-ok}
use onetui.Tui.Session.Safe.{rebuild-Settles, received-Settles, checked-Settles}
use onetui.Tui.Session.Bookmarks.{HeadAt, Fits, opened_same, not_below}
use onetui.Tui.Session.Reach.{Reach, Reach-Sound_lem}

fetched-Settles : (answer : Answer) → Settles (fetched answer)
unfolding fetched
fetched-Settles answer = Settles-bind (received answer) _ (received-Settles answer) (λ page e.
    Settles-bind (ensure (leb (page_size page) page_bytes) oversized_page) _ (Settles-ensure _ _)
      (λ u e'. checked-Settles page))

-- A row has a cell for each column of its page, in the view that the page is shown in.
abbrev pub GivesCells : Config → View → Answer → Type 0
GivesCells config view (failed text) = Unit
GivesCells config view (delivered page) =
    All (λ (row : Row). column_count config (record view { page = page }) ≤ length row.cells)
      page.rows

HasSort-sort_in :
    (count : ℕ) (sort : Option (ℕ × Bool)) (rows : List Row)
    → All (λ (row : Row). count ≤ length row.cells) rows
    → HasSort (sort_in count sort) rows
HasSort-sort_in count none rows h = tt
HasSort-sort_in count (some (column, descending)) rows h = elim (Bool-cases (leb count column)) [
  | inl out ↦ rw out tt
  | inr inside ↦ rw inside (all_below rows h (ground arith))
]
  where
    all_below :
        (rows : List Row)
        → All (λ (row : Row). count ≤ length row.cells) rows
        → column < count
        → All (λ (row : Row). column < length row.cells) rows
    all_below [] h k = tt
    all_below (row ∷ rows) h k = (omega (arith, h.0, k), all_below rows h.1 k)

fetched_page :
    (answer : Answer) {page : Page}
    → fetched answer ≡ ok page
    → (answer ≡ delivered page)
      × ((cells : List (List (Option Text))) × (projections page ≡ ok cells))
unfolding fetched
fetched_page (failed text) e = cc
fetched_page (delivered page) e =
    let size = >>=-eq-ok (ensure (leb (page_size page) page_bytes) oversized_page) _ e in
    let cells = >>=-eq-ok (with_message (projections page)) _ size.2 in
    subst
      (λ p.
        (delivered page ≡ delivered p)
        × ((cells : List (List (Option Text))) × (projections p ≡ ok cells)))
      (ok-injective cells.2) (refl, (cells.0, with_message-ok (projections page) cells.1))

popped-Settles :
    (offset : ℕ) (previous : List PageBookmark) → HeadAt offset previous → Settles (popped previous)
popped-Settles offset [] h = h
popped-Settles offset (b ∷ earlier) h = tt

turn-Settles :
    (request : Request) (view : View)
    → Fits request view
    → Settles (turn request.reset request.offset view)
unfolding turn
turn-Settles request view (inl (r, o)) = rw r tt
turn-Settles request view (inr (r, q, inl o)) =
    rw (r, not_below request.offset view.offset (omega (arith, o))) tt
turn-Settles request view (inr (r, q, inr o)) = elim (Bool-cases (ltb request.offset view.offset)) [
  | inl e ↦ rw (r, e) (popped-Settles request.offset view.previous o)
  | inr e ↦ rw (r, e) tt
]

Fits-opened :
    (request : Request) (app : App) → Fits request app.view → Fits request (opened request app).view
Fits-opened request app (inl first) = inl first
Fits-opened request app (inr (r, q, o)) =
    subst (λ (a : App). Fits request a.view) (sym (opened_same request app q)) (inr (r, q, o))

show_page-Settles :
    (config : Config) (request : Request) (page : Page) (view : View)
    {cells : List (List (Option Text))}
    → Fits request view
    → projections page ≡ ok cells
    → GivesCells config view (delivered page)
    → Settles (show_page config request page view)
unfolding show_page
show_page-Settles config request page view f e g =
    Settles-bind (turn request.reset request.offset view) _ (turn-Settles request view f)
      (λ bookmarks run.
        rebuild-Settles bookmarks.1 (turned config request page view bookmarks.0) e (
          HasSort-sort_in (column_count config (record view { page = page }))
            (sort_by_name view.page.columns page.columns view.sort) page.rows g))

-- The connections can be listed: their names are at most a page.
abbrev pub Lists : Config → Type 0
Lists config = Settles (rebuild none (connections_view config))

connections-Settles : (app : App) → Lists app.config → Settles (connections app)
unfolding connections
connections-Settles app l =
    Settles-bind (rebuild none (connections_view app.config)) _ l (λ view e. tt)

complete_load-Settles :
    (request : Request) (answer : Answer) (result : Outcome Text Page) (opening : Bool) (app : App)
    → Fits request app.view
    → GivesCells app.config (opened request app).view answer
    → Lists app.config
    → Settles result
    → ((page : Page)
        → result ≡ ok page
        → (answer ≡ delivered page)
          × ((cells : List (List (Option Text))) × (projections page ≡ ok cells)))
    → Settles (complete_load request result opening app)
unfolding complete_load
complete_load-Settles request answer (ok page) opening app f g l h k =
    let fetched = k page refl in
    Settles-bind (show_page app.config request page (opened request app).view) _
      (show_page-Settles app.config request page (opened request app).view
        (Fits-opened request app f) fetched.1.1
        (subst (GivesCells app.config (opened request app).view) fetched.0 g))
      (λ view e. tt)
complete_load-Settles request answer (err text) false app f g l h k = tt
complete_load-Settles request answer (err text) true app f g l h k =
    Settles-bind (connections app) _ (connections-Settles app l) (λ app e. tt)
complete_load-Settles request answer panicked opening app f g l h k = h
complete_load-Settles request answer stuck opening app f g l h k = h

opened_view :
    (request : Request) (app : App)
    → (opened request (record app { loading = false; opening = false })).view
      ≡ (opened request app).view
opened_view request app = elim (Bool-cases (query_eq request.query app.view.query)) [
  | inl same ↦ rw same refl
  | inr other ↦ rw other refl
]

else_Settles :
    (b : Bool) (then_run else_run : Run App)
    → b ≡ false
    → Settles else_run
    → Settles (if b then then_run else else_run)
else_Settles true t e h k = cc
else_Settles false t e h k = k

answered-Settles :
    (now : ℕ) (request : Request) (answer : Answer) (app : App)
    → Fits request app.view
    → request.follow ≡ false
    → GivesCells app.config (opened request app).view answer
    → Lists app.config
    → Settles (complete_page now request answer app)
unfolding complete_page
answered-Settles now request answer app f load g l =
    elim (Bool-cases (request.id == app.generation)) [
      | inl same ↦ else_Settles (not (request.id == app.generation)) _ _ (ap not same) (
          else_Settles request.follow _ _ load (
            complete_load-Settles request answer (fetched answer) app.opening
              (record app { loading = false; opening = false }) f
              (subst (λ view. GivesCells app.config view answer) (sym (opened_view request app)) g)
              l (fetched-Settles answer) (λ page e. fetched_page answer e)))
      | inr late ↦ rw late tt
    ]

awaited-Fits :
    (request : Request) (view : View)
    → (request.follow ≡ true) ⊎ Fits request view
    → request.follow ≡ false
    → Fits request view
awaited-Fits request view (inl follows) loads = cc
awaited-Fits request view (inr fits) loads = fits

-- In every state of a session the answer to the load that is awaited is handled without a panic,
-- whatever the answer is: where a page that it delivers has in each row a cell for each of the
-- page's columns, and the connections can be listed.
pub complete_page-Settles :
    {app : App} (now : ℕ) (request : Request) (answer : Answer)
    → Reach app
    → app.loading ≡ true
    → app.request ≡ some request
    → request.follow ≡ false
    → GivesCells app.config (opened request app).view answer
    → Lists app.config
    → Settles (complete_page now request answer app)
complete_page-Settles {app} now request answer r loading awaited load g l =
    let sound = Reach-Sound_lem r in
    answered-Settles now request answer app
      (awaited-Fits request app.view (rw (loading, awaited) at sound.1) load) load g l

-- After a new load or a cancel, an answer to the request of before changes nothing.
changed_generation :
    (generation : ℕ) → generation < 2 ^ 64 → (generation == next_generation generation) ≡ false
changed_generation generation h = ground arith

late_answer :
    (now : ℕ) (request : Request) (answer : Answer) (app : App)
    → (request.id == app.generation) ≡ false
    → complete_page now request answer app ≡ ok app
unfolding complete_page
late_answer now request answer app h = rw h refl

load_generation :
    (offset : ℕ) (reset : Bool) (app : App) {app' : App}
    → load offset reset app ≡ ok app'
    → app'.generation ≡ next_generation app.generation
unfolding load
load_generation offset reset app e =
    let alias = >>=-eq-ok (expect app.view.alias) _ e in
    let continuation = >>=-eq-ok (load_continuation offset reset app.view) _ alias.2 in
    ap (λ (a : App). a.generation) (sym (ok-injective continuation.2))

-- Once a request is cancelled or replaced by another load, its answer is dropped: the session
-- stays as it is, whatever the answer and whenever it comes before the next action. The generation
-- is a u64.
pub complete_page-late :
    (now : ℕ) (request : Request) (answer : Answer) (app : App)
    → request.id ≡ app.generation
    → app.generation < 2 ^ 64
    → (complete_page now request answer (cancel app) ≡ ok (cancel app))
      × ((offset : ℕ) (reset : Bool) (app' : App)
          → load offset reset app ≡ ok app'
          → complete_page now request answer app' ≡ ok app')
unfolding cancel
complete_page-late now request answer app same bound = (
  late_answer now request answer (cancel app) (rw same (changed_generation app.generation bound)),
  λ offset reset app' e.
      late_answer now request answer app'
        (rw (same, load_generation offset reset app e) (changed_generation app.generation bound)),
)
