-- ===== src/Tui/Session/Back.antt =====
-- The way back: a page that is shown again, and a sort that its rows do not have.
use onetui.Base.{
  ℕ, ◌+◌, ◌≡◌, refl, sym, ap, ◌∙◌, subst, Bool, true, false, ◌||◌, not, List, [], ◌∷◌, Option, none,
  some, length, Bool-cases, Outcome, ok, err, panicked, stuck, ltb, leb, if◌then◌else◌, >>=-eq-ok,
  ok-injective, inl, inr, arith, ◌==◌, ==_self,
}
use onetui.Core.{Page, page_bytes}
use onetui.Tui.Value.{projections}
use onetui.Tui.Table.{reindex}
use onetui.Tui.Table.Shows.{Shows, reindex-Shows}
use onetui.Tui.Session.{
  App, View, PageBookmark, Answer, Request, Run, expect, expect_ok, selected_index, rebuild,
  load_continuation, load,
}
use onetui.Tui.Session.Pages.{
  bookmark_limit, bookmark_bytes, token_bytes, next_offset, load_next, next_page, restored, restore,
  back_to, previous_page, forget_third, bookmark_of, turn, turned, opened, show_page, complete_load,
  complete_page, fetched,
}
use onetui.Tui.Session.Window.{rebuild-SamePage}
use onetui.Tui.Session.Sound.{next_offset-eq}
use onetui.Tui.Session.Bookmarks.{not_below, opened_same}

-- What `rebuild` shows of a page.
abbrev pub ShowsPage : Option ℕ → View → Type 0
ShowsPage keep view =
    (projections view.page ≡ ok view.projections)
    × Shows view.projections view.filter view.sort keep (view.visible, view.selected)

expect_ok_lem : {E A : Type 0} (m : Outcome E A) {a : A} → expect_ok m ≡ ok a → m ≡ ok a
expect_ok_lem (ok b) e = ap ok (ok-injective e)
expect_ok_lem (err x) e = cc
expect_ok_lem panicked e = cc
expect_ok_lem stuck e = cc

rebuild-ShowsPage :
    (keep : Option ℕ) (view : View) {view' : View}
    → rebuild keep view ≡ ok view'
    → ShowsPage keep view'
unfolding rebuild
rebuild-ShowsPage keep view e =
    let cells = >>=-eq-ok (expect_ok (projections view.page)) _ e in
    let shown = >>=-eq-ok (reindex cells.0 view.filter view.sort keep) _ cells.2 in
    subst (ShowsPage keep) (ok-injective shown.2) (
      expect_ok_lem (projections view.page) cells.1,
      reindex-Shows cells.0 view.filter view.sort keep shown.1,
    )

-- What is there of the page before, once it is shown again.
abbrev pub Restored : View → View → Type 0
Restored before after =
    (after.page ≡ before.page)
    × (after.offset ≡ before.offset)
    × (after.position ≡ before.position)
    × (length after.previous ≡ length before.previous)
    × ShowsPage (selected_index before) after

forget_third-head :
    (bookmark : PageBookmark) (previous : List PageBookmark)
    → (earlier : List PageBookmark) × (forget_third (bookmark ∷ previous) ≡ bookmark ∷ earlier)
      × (length earlier ≡ length previous)
forget_third-head bookmark [] = ([], refl, refl)
forget_third-head bookmark (b ∷ []) = (b ∷ [], refl, refl)
forget_third-head bookmark (b ∷ c ∷ earlier) = (b ∷ record c { page = none } ∷ earlier, refl, refl)

restore-Restored :
    (view : View) (earlier : List PageBookmark) (app : App) {app' : App}
    → length earlier ≡ length view.previous
    → restore (bookmark_of view) view.page earlier app ≡ ok app'
    → Restored view app'.view
unfolding restore
restore-Restored view earlier app l e =
    let start = restored (bookmark_of view) view.page earlier app.view in
    let built = >>=-eq-ok (rebuild (selected_index view) start) _ e in
    let same = rebuild-SamePage (selected_index view) start built.1 in
    subst (λ (a : App). Restored view a.view) (ok-injective built.2)
      (
        same.0,
        same.4,
        same.5,
        ap length same.3 ∙ l,
        rebuild-ShowsPage (selected_index view) start built.1,
      )

back-Restored :
    (view : View) (app app' : App)
    → app.view.previous ≡ forget_third (bookmark_of view ∷ view.previous)
    → previous_page app ≡ ok app'
    → Restored view app'.view
unfolding previous_page
back-Restored view app app' p e =
    let head = forget_third-head (bookmark_of view) view.previous in
    restore-Restored view head.0 app head.2
      (subst (λ previous. back_to previous app ≡ ok app') (p ∙ head.1) e)

turn-pushed :
    (request : Request) (view : View)
    → request.reset ≡ false
    → request.offset ≡ view.offset + 100
    → turn request.reset request.offset view
      ≡ ok (forget_third (bookmark_of view ∷ view.previous), none)
unfolding turn
turn-pushed request view r o = rw (r, not_below request.offset view.offset (omega (arith, o))) refl

show_page-pushed :
    (request : Request) (page : Page) (app : App) {view : View}
    → request.reset ≡ false
    → request.offset ≡ app.view.offset + 100
    → request.query ≡ app.view.query
    → show_page app.config request page (opened request app).view ≡ ok view
    → view.previous ≡ forget_third (bookmark_of app.view ∷ app.view.previous)
unfolding show_page
show_page-pushed request page app {view} r o q e =
    let e' =
      subst (λ (a : App). show_page app.config request page a.view ≡ ok view)
        (opened_same request app q) e in
    let bookmarks = >>=-eq-ok (turn request.reset request.offset app.view) _ e' in
    let same =
      rebuild-SamePage bookmarks.0.1 (turned app.config request page app.view bookmarks.0.0)
        bookmarks.2 in
    same.3
    ∙ ap (λ (b : List PageBookmark × Option ℕ). b.0)
        (ok-injective (sym bookmarks.1 ∙ turn-pushed request app.view r o))

-- The request that `next_page` queues.
abbrev Queued : App → Request → App → Type 0
Queued app request app' =
    (app'.view ≡ app.view)
    × (request.follow ≡ false)
    × (request.query ≡ app.view.query)
    × (request.offset ≡ app.view.offset + 100)
    × (request.reset ≡ false)
    × (request.id ≡ app'.generation)

abbrev QueuedIn : App → App → Option Request → Type 0
QueuedIn app app' none = ⊥
QueuedIn app app' (some request) = Queued app request app'

load-Queued :
    (offset : ℕ) (request : Request) (app app' : App)
    → offset ≡ app.view.offset + 100
    → load offset false app ≡ ok app'
    → app'.request ≡ some request
    → Queued app request app'
unfolding load
load-Queued offset request app app' o e r =
    let alias = >>=-eq-ok (expect app.view.alias) _ e in
    let continuation = >>=-eq-ok (load_continuation offset false app.view) _ alias.2 in
    subst (QueuedIn app app') r (
      subst (λ (a : App). QueuedIn app a a.request) (ok-injective continuation.2)
        (refl, refl, refl, o, refl, refl))

no_request :
    (app app' : App) (request : Request)
    → app.request ≡ none
    → app.request ≡ app'.request
    → app'.request ≡ some request
    → ⊥
no_request app app' request n same r = cc

load_next-Queued :
    (offset : Option ℕ) (request : Request) (app app' : App)
    → offset ≡ next_offset app.view.offset
    → app.request ≡ none
    → load_next offset app ≡ ok app'
    → app'.request ≡ some request
    → Queued app request app'
load_next-Queued none request app app' o n e r =
    absurd (no_request app app' request n (ap (λ (a : App). a.request) (ok-injective e)) r)
load_next-Queued (some offset) request app app' o n e r =
    load-Queued offset request app app' (next_offset-eq app.view.offset o) e r

next_page-Queued :
    (request : Request) (app app' : App)
    → app.request ≡ none
    → next_page app ≡ ok app'
    → app'.request ≡ some request
    → Queued app request app'
unfolding next_page
next_page-Queued request app app' n e r =
    elim (Bool-cases (
      leb bookmark_limit (length app.view.previous)
      || ltb page_bytes (bookmark_bytes app.view.previous + token_bytes app.view.position))) [
        | inl full ↦ absurd (
            no_request app app' request n
              (ap (λ (a : App). a.request) (ok-injective (rw full at e))) r)
        | inr room ↦
            load_next-Queued (next_offset app.view.offset) request app app' refl n (rw room at e) r
      ]

else_run :
    {A : Type 0} (b : Bool) (x y : Run A) {a : A}
    → b ≡ false
    → (if b then x else y) ≡ ok a
    → y ≡ ok a
else_run true x y h e = cc
else_run false x y h e = e

complete_page-pushed :
    (now : ℕ) (request : Request) (answer : Answer) (page : Page) (before app app' : App)
    → Queued before request app
    → fetched answer ≡ ok page
    → complete_page now request answer app ≡ ok app'
    → app'.view.previous ≡ forget_third (bookmark_of before.view ∷ before.view.previous)
unfolding complete_page complete_load
complete_page-pushed now request answer page before app app' (v, follow, query, offset, reset, id) f
      e =
    let same : (request.id == app.generation) ≡ true = rw id (==_self app.generation) in
    let e' =
      else_run request.follow _ _ follow
        (else_run (not (request.id == app.generation)) _ _ (ap not same) e) in
    let start = record app { loading = false; opening = false } in
    let loaded : complete_load request (ok page) app.opening start ≡ ok app' = rw f at e' in
    let built =
      >>=-eq-ok (show_page app.config request page (opened request start).view) _ loaded in
    let pushed =
      show_page-pushed request page start reset
        (offset ∙ ap (λ (view : View). view.offset + 100) (sym v))
        (query ∙ ap (λ (view : View). view.query) (sym v)) built.1 in
    ap (λ (a : App). a.view.previous) (sym (ok-injective built.2))
    ∙ pushed
    ∙ ap (λ view. forget_third (bookmark_of view ∷ view.previous)) v

-- The next page, and then back: the page before is shown again with its offset, its position and
-- as many bookmarks, and the row that was selected is selected where it is shown. This holds
-- whenever no request was queued, the page is accepted, and none of the steps panics.
pub next-previous_page :
    (now : ℕ) (request : Request) (answer : Answer) (page : Page) (app queued shown back : App)
    → app.request ≡ none
    → next_page app ≡ ok queued
    → queued.request ≡ some request
    → fetched answer ≡ ok page
    → complete_page now request answer queued ≡ ok shown
    → previous_page shown ≡ ok back
    → Restored app.view back.view
next-previous_page now request answer page app queued shown back none_yet next awaited accepted
      turned return =
    back-Restored app.view shown back
      (complete_page-pushed now request answer page app queued shown
        (next_page-Queued request app queued none_yet next awaited) accepted turned)
      return
