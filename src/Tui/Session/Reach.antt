-- ===== src/Tui/Session/Reach.antt =====
-- The states of a session, as sequences of the user's actions and the provider's answers.
use onetui.Base.{
  ℕ, ◌*◌, ◌≡◌, refl, Bool, true, List, [], ◌∷◌, Option, some, length, drop, All, ok, inl, arith,
}
use onetui.Text.{Text}
use onetui.Core.{Resource}
use onetui.Tui.Session.{App, new_view, PageBookmark, Answer, Request, load}
use onetui.Tui.Session.Follow.{start_follow, follow_tick}
use onetui.Tui.Session.Pages.{
  next_page, previous_page, move_column, move_row, toggle_sort, refresh, cancel, complete_page,
}
use onetui.Tui.Session.Bookmarks.{Chain, NoPage, Awaited, Sound}
use onetui.Tui.Session.Sound.{
  move_column-Sound, move_row-Sound, next_page-Sound, previous_page-Sound, toggle_sort-Sound,
  load-Sound,
}
use onetui.Tui.Session.Taken.{
  refresh-Sound, start_follow-Sound, follow_tick-Sound, cancel-Sound, complete_page-Sound,
}

-- An action of the user, a tick, or an answer to the request that is awaited. More is reached than
-- by the program, which takes an action only where it is available.
pub data Step (app : App) : App → Type 0 where
  next : {app' : App} → next_page app ≡ ok app' → Step app app'
  back : {app' : App} → previous_page app ≡ ok app' → Step app app'
  refreshed : {app' : App} → refresh app ≡ ok app' → Step app app'
  sorted : {app' : App} → toggle_sort app ≡ ok app' → Step app app'
  column_moved : (left : Bool) → Step app (move_column left app)
  row_moved : (up : Bool) → Step app (move_row up app)
  followed : {app' : App} → start_follow app ≡ ok app' → Step app app'
  ticked : (now : ℕ) {app' : App} → follow_tick now app ≡ ok app' → Step app app'
  cancelled : Step app (cancel app)
  answered :
      (now : ℕ) (request : Request) (answer : Answer) {app' : App}
      → app.loading ≡ true
      → app.request ≡ some request
      → complete_page now request answer app ≡ ok app'
      → Step app app'

-- A session from the first page of a resource on.
pub data Reach : App → Type 0 where
  start :
      (app : App) (alias : Option Text) (resource : Resource) {app' : App}
      → app.view ≡ new_view alias resource
      → load 0 true app ≡ ok app'
      → Reach app'
  later : {app app' : App} → Reach app → Step app app' → Reach app'

Step-Sound : (app app' : App) → Sound app → Step app app' → Sound app'
Step-Sound app app' h (next e) = next_page-Sound app h e
Step-Sound app app' h (back e) = previous_page-Sound app h e
Step-Sound app app' h (refreshed e) = refresh-Sound app h e
Step-Sound app app' h (sorted e) = toggle_sort-Sound app h e
Step-Sound app app' h (column_moved left) = move_column-Sound left app h
Step-Sound app app' h (row_moved up) = move_row-Sound up app h
Step-Sound app app' h (followed e) = start_follow-Sound app h e
Step-Sound app app' h (ticked now e) = follow_tick-Sound now app h e
Step-Sound app app' h cancelled = cancel-Sound app h
Step-Sound app app' h (answered now request answer l r e) =
    complete_page-Sound now request answer app h l r e

pub Reach-Sound_lem : {app : App} → Reach app → Sound app
Reach-Sound_lem (start app alias resource new e) =
    load-Sound 0 true app (rw new (refl, tt)) (inl (refl, refl)) e
Reach-Sound_lem (later {app} {app'} r s) = Step-Sound app app' (Reach-Sound_lem r) s

Chain-offset :
    (offset : ℕ) (previous : List PageBookmark)
    → Chain offset previous
    → offset ≡ 100 * length previous
Chain-offset offset [] h = omega (arith, h)
Chain-offset offset (b ∷ earlier) h = omega (arith, h.0, Chain-offset b.offset earlier h.1)

-- In every state of a session the offset of the page is 100 for each bookmark, each bookmark is
-- the page before the one that follows it, only the two newest ones keep a page, and a request
-- that is awaited is one of a followed stream or asks for the first page, the next one or the one
-- before.
pub Reach-Sound :
    {app : App}
    → Reach app
    → (app.view.offset ≡ 100 * length app.view.previous)
      × Chain app.view.offset app.view.previous
      × All NoPage (drop 2 app.view.previous)
      × Awaited app.loading app.request app.view
Reach-Sound {app} r =
    let s = Reach-Sound_lem r in
    (Chain-offset app.view.offset app.view.previous s.0.0, s.0.0, s.0.1, s.1)
