-- ===== src/Tui/Session/Sound.antt =====
-- Each action of the user, and the bookmarks that it leaves.
use onetui.Base.{
  ℕ, ◌+◌, ◌≡◌, ◌⊎◌, refl, subst, Bool, true, false, ◌||◌, List, [], ◌∷◌, Option, none, some, length,
  Bool-cases, ok, ltb, leb, >>=-eq-ok, ok-injective, inl, inr, arith,
}
use onetui.Core.{Page, page_bytes}
use onetui.Tui.Table.{reindex}
use onetui.Tui.Session.{
  App, View, PageBookmark, Request, expect, load_continuation, load, rebuild, selected_index,
}
use onetui.Tui.Session.Window.{rebuild-SamePage}
use onetui.Tui.Session.Pages.{
  bookmark_limit, bookmark_bytes, token_bytes, next_offset, load_next, restored, restore, go_to,
  back_to, toggled, next_page, previous_page, toggle_sort, move_column, move_row,
}
use onetui.Tui.Session.Bookmarks.{
  Bookmarked, HeadAt, Awaited, Sound, popped-Bookmarked, Bookmarked-eq,
}

pub load-Sound :
    (offset : ℕ) (reset : Bool) (app : App) {app' : App}
    → Bookmarked app.view.offset app.view.previous
    → ((reset ≡ true) × (offset ≡ 0))
      ⊎ ((reset ≡ false) × ((offset ≡ app.view.offset + 100) ⊎ HeadAt offset app.view.previous))
    → load offset reset app ≡ ok app'
    → Sound app'
unfolding load
load-Sound offset reset app h f e =
    let alias = >>=-eq-ok (expect app.view.alias) _ e in
    let continuation = >>=-eq-ok (load_continuation offset reset app.view) _ alias.2 in
    subst Sound (ok-injective continuation.2) (h, inr (fits f))
  where
    fits :
        ((reset ≡ true) × (offset ≡ 0))
          ⊎ ((reset ≡ false) × ((offset ≡ app.view.offset + 100) ⊎ HeadAt offset app.view.previous))
        → ((reset ≡ true) × (offset ≡ 0))
          ⊎ ((reset ≡ false)
              × (app.view.query ≡ app.view.query)
              × ((offset ≡ app.view.offset + 100) ⊎ HeadAt offset app.view.previous))
    fits (inl first) = inl first
    fits (inr (r, f)) = inr (r, refl, f)

pub next_offset-eq : (offset : ℕ) {next : ℕ} → some next ≡ next_offset offset → next ≡ offset + 100
next_offset-eq offset e = ground (arith, e)

load_next-Sound :
    (offset : Option ℕ) (app : App) {app' : App}
    → offset ≡ next_offset app.view.offset
    → Sound app
    → load_next offset app ≡ ok app'
    → Sound app'
load_next-Sound none app e h run = subst Sound (ok-injective run) h
load_next-Sound (some offset) app e h run =
    load-Sound offset false app h.0 (inr (refl, inl (next_offset-eq app.view.offset e))) run

pub next_page-Sound : (app : App) {app' : App} → Sound app → next_page app ≡ ok app' → Sound app'
unfolding next_page
next_page-Sound app h e =
    elim (Bool-cases (
      leb bookmark_limit (length app.view.previous)
      || ltb page_bytes (bookmark_bytes app.view.previous + token_bytes app.view.position))) [
        | inl full ↦ subst Sound (ok-injective (rw full at e)) h
        | inr room ↦ load_next-Sound (next_offset app.view.offset) app refl h (rw room at e)
      ]

restore-Sound :
    (bookmark : PageBookmark) (page : Page) (earlier : List PageBookmark) (app : App) {app' : App}
    → Bookmarked bookmark.offset earlier
    → restore bookmark page earlier app ≡ ok app'
    → Sound app'
unfolding restore
restore-Sound bookmark page earlier app h e =
    let view = restored bookmark page earlier app.view in
    let built = >>=-eq-ok (rebuild bookmark.selected view) _ e in
    let same = rebuild-SamePage bookmark.selected view built.1 in
    subst Sound (ok-injective built.2) (Bookmarked-eq same.4 same.3 h, tt)

go_to-Sound :
    (bookmark : PageBookmark) (page : Option Page) (earlier : List PageBookmark) (app : App)
    {app' : App}
    → app.view.previous ≡ bookmark ∷ earlier
    → Sound app
    → go_to bookmark page earlier app ≡ ok app'
    → Sound app'
go_to-Sound bookmark none earlier app p h e =
    load-Sound bookmark.offset false app h.0 (inr (refl, inr (rw p refl))) e
go_to-Sound bookmark (some page) earlier app p h e =
    restore-Sound bookmark page earlier app
      (popped-Bookmarked app.view.offset bookmark.offset (bookmark ∷ earlier) (rw p at h.0) refl
        refl)
      e

back_to-Sound :
    (previous : List PageBookmark) (app : App) {app' : App}
    → app.view.previous ≡ previous
    → Sound app
    → back_to previous app ≡ ok app'
    → Sound app'
back_to-Sound [] app p h e = subst Sound (ok-injective e) h
back_to-Sound (bookmark ∷ earlier) app p h e = go_to-Sound bookmark bookmark.page earlier app p h e

pub previous_page-Sound :
    (app : App) {app' : App} → Sound app → previous_page app ≡ ok app' → Sound app'
unfolding previous_page
previous_page-Sound app h e = back_to-Sound app.view.previous app refl h e

Awaited-table :
    (loading : Bool) (request : Option Request) (view : View) (sort : Option (ℕ × Bool))
    (visible : List ℕ) (selected : ℕ)
    → Awaited loading request view
    → Awaited loading request (record view { sort = sort; visible = visible; selected = selected })
Awaited-table false request view sort visible selected h = tt
Awaited-table true none view sort visible selected h = tt
Awaited-table true (some request) view sort visible selected h = h

Awaited-place :
    (loading : Bool) (request : Option Request) (view : View) (column selected : ℕ)
    → Awaited loading request view
    → Awaited loading request (record view { column = column; selected = selected })
Awaited-place false request view column selected h = tt
Awaited-place true none view column selected h = tt
Awaited-place true (some request) view column selected h = h

pub move_column-Sound : (left : Bool) (app : App) → Sound app → Sound (move_column left app)
move_column-Sound left app h = (
  h.0,
  Awaited-place app.loading app.request app.view (move_column left app).view.column
      app.view.selected h.1,
)

pub move_row-Sound : (up : Bool) (app : App) → Sound app → Sound (move_row up app)
move_row-Sound up app h = (
  h.0,
  Awaited-place app.loading app.request app.view app.view.column (move_row up app).view.selected
      h.1,
)

pub toggle_sort-Sound :
    (app : App) {app' : App} → Sound app → toggle_sort app ≡ ok app' → Sound app'
unfolding toggle_sort
toggle_sort-Sound app h e =
    let view = app.view in
    let shown =
      >>=-eq-ok
        (reindex view.projections view.filter (toggled view.column view.sort) (selected_index view))
        _ e in
    subst Sound (ok-injective shown.2) (
      h.0,
      Awaited-table app.loading app.request view (toggled view.column view.sort) shown.0.0 shown.0.1
          h.1,
    )
