-- ===== src/Tui/Session/Taken.antt =====
-- Followed streams, refreshing, and each answer of a provider, and the bookmarks that they leave.
use onetui.Base.{
  ℕ, ◌≡◌, ◌⊎◌, refl, ◌∙◌, subst, Bool, true, false, ◌&&◌, not, none, some, Bool-cases, Outcome, ok,
  err, panicked, stuck, >>=-eq-ok, ok-injective, inl, inr, ◌==◌,
}
use onetui.Text.{Text}
use onetui.Core.{Page}
use onetui.Tui.Session.{
  App, View, Answer, Request, query_eq, expect, load, rebuild, invalidate, connections_view,
  connections,
}
use onetui.Tui.Session.Window.{rebuild-SamePage, append_batch-pages}
use onetui.Tui.Session.Follow.{
  is_due, queue_follow, start_follow, follow_tick, same_columns, append_batch, follow_view, batch,
  complete_batch, complete_follow,
}
use onetui.Tui.Session.Pages.{
  is_connections, refresh_connections, refresh, cancel, complete_load, fetched, complete_page,
  opened, show_page,
}
use onetui.Tui.Session.Bookmarks.{Bookmarked, Fits, Sound, Bookmarked-eq, show_page-Bookmarked}
use onetui.Tui.Session.Sound.{load-Sound}

queue_follow-Sound :
    (reset : Bool) (app : App) {app' : App}
    → Bookmarked app.view.offset app.view.previous
    → queue_follow reset app ≡ ok app'
    → Sound app'
unfolding queue_follow
queue_follow-Sound reset app h e =
    let alias = >>=-eq-ok (expect app.view.alias) _ e in
    subst Sound (ok-injective alias.2) (h, inl refl)

pub start_follow-Sound :
    (app : App) {app' : App} → Sound app → start_follow app ≡ ok app' → Sound app'
unfolding start_follow
start_follow-Sound app h e =
    queue_follow-Sound true (record (invalidate app) { following = true }) h.0 e

pub follow_tick-Sound :
    (now : ℕ) (app : App) {app' : App} → Sound app → follow_tick now app ≡ ok app' → Sound app'
unfolding follow_tick
follow_tick-Sound now app h e =
    elim (Bool-cases (app.following && not app.loading && is_due now app.follow_due)) [
      | inl due ↦ queue_follow-Sound false app h.0 (rw due at e)
      | inr idle ↦ subst Sound (ok-injective (rw idle at e)) h
    ]

pub cancel-Sound : (app : App) → Sound app → Sound (cancel app)
unfolding cancel
cancel-Sound app h = (h.0, tt)

follow_view-Bookmarked :
    (reset : Bool) (view : View)
    → Bookmarked view.offset view.previous
    → Bookmarked (follow_view reset view).offset (follow_view reset view).previous
follow_view-Bookmarked false view h = h
follow_view-Bookmarked true view h = (refl, tt)

-- An answered request is no longer awaited.
abbrev Settled : App → Type 0
Settled app = Bookmarked app.view.offset app.view.previous × (app.loading ≡ false)

Settled-Sound : (app : App) → Settled app → Sound app
Settled-Sound app h = (h.0, rw h.1 tt)

complete_batch-Settled :
    (now : ℕ) (reset : Bool) (result : Outcome Text Page) (app : App) {app' : App}
    → Settled app
    → complete_batch now reset result app ≡ ok app'
    → Settled app'
unfolding complete_batch
complete_batch-Settled now reset (ok page) app h e =
    elim (Bool-cases (not reset && not (same_columns app.view.page.columns page.columns))) [
      | inl changed ↦ subst Settled (ok-injective (rw changed at e)) h
      | inr same ↦
          let built =
            >>=-eq-ok (append_batch reset page (follow_view reset app.view)) _ (rw same at e) in
          let pages = append_batch-pages reset page (follow_view reset app.view) built.1 in
          subst Settled (ok-injective built.2)
            (Bookmarked-eq pages.1 pages.0 (follow_view-Bookmarked reset app.view h.0), h.1)
    ]
complete_batch-Settled now reset (err text) app h e = subst Settled (ok-injective e) h
complete_batch-Settled now reset panicked app h e = cc
complete_batch-Settled now reset stuck app h e = cc

connections-Bookmarked : (app : App) {app' : App} → connections app ≡ ok app' → Settled app'
unfolding connections
connections-Bookmarked app e =
    let built = >>=-eq-ok (rebuild none (connections_view app.config)) _ e in
    let same = rebuild-SamePage none (connections_view app.config) built.1 in
    subst Settled (ok-injective built.2) (Bookmarked-eq same.4 same.3 (refl, tt), refl)

refresh_connections-Settled :
    (app : App) {app' : App} → refresh_connections app ≡ ok app' → Settled app'
unfolding refresh_connections
refresh_connections-Settled app e =
    let listed = >>=-eq-ok (connections app) _ e in
    let settled = connections-Bookmarked app listed.1 in
    let start = record listed.0.view { filter = app.view.filter; sort = app.view.sort } in
    let built = >>=-eq-ok (rebuild none start) _ listed.2 in
    let same = rebuild-SamePage none start built.1 in
    subst Settled (ok-injective built.2) (Bookmarked-eq same.4 same.3 settled.0, settled.1)

pub refresh-Sound : (app : App) {app' : App} → Sound app → refresh app ≡ ok app' → Sound app'
unfolding refresh
refresh-Sound app {app'} h e = elim (Bool-cases (is_connections app.view.resource)) [
  | inl listed ↦ Settled-Sound app' (refresh_connections-Settled app (rw listed at e))
  | inr other ↦ load-Sound 0 true app h.0 (inl (refl, refl)) (rw other at e)
]

opened_loading : (request : Request) (app : App) → (opened request app).loading ≡ app.loading
opened_loading request app = elim (Bool-cases (query_eq request.query app.view.query)) [
  | inl same ↦ rw same refl
  | inr other ↦ rw other refl
]

complete_load-Settled :
    (request : Request) (result : Outcome Text Page) (opening : Bool) (app : App) {app' : App}
    → Settled app
    → Fits request app.view
    → complete_load request result opening app ≡ ok app'
    → Settled app'
unfolding complete_load
complete_load-Settled request (ok page) opening app h f e =
    let built = >>=-eq-ok (show_page app.config request page (opened request app).view) _ e in
    subst Settled (ok-injective built.2)
      (show_page-Bookmarked request page app h.0 f built.1, opened_loading request app ∙ h.1)
complete_load-Settled request (err text) false app h f e = subst Settled (ok-injective e) h
complete_load-Settled request (err text) true app h f e =
    let listed = >>=-eq-ok (connections app) _ e in
    subst Settled (ok-injective listed.2) (connections-Bookmarked app listed.1)
complete_load-Settled request panicked opening app h f e = cc
complete_load-Settled request stuck opening app h f e = cc

answer_taken :
    (now : ℕ) (request : Request) (answer : Answer) (app : App) {app' : App}
    → Bookmarked app.view.offset app.view.previous
    → (request.follow ≡ true) ⊎ Fits request app.view
    → (request.id == app.generation) ≡ true
    → complete_page now request answer app ≡ ok app'
    → Settled app'
unfolding complete_page complete_follow
answer_taken now request answer app h f same e = elim (Bool-cases request.follow) [
  | inl follow ↦
      complete_batch-Settled now request.reset (batch answer) (record app { loading = false })
        (h, refl) (rw (same, follow) at e)
  | inr load ↦
      complete_load-Settled request (fetched answer) app.opening
        (record app { loading = false; opening = false }) (h, refl) (load_fits f load)
        (rw (same, load) at e)
]
  where
    load_fits :
        (request.follow ≡ true) ⊎ Fits request app.view
        → request.follow ≡ false
        → Fits request app.view
    load_fits (inl follows) loads = cc
    load_fits (inr fits) loads = fits

pub complete_page-Sound :
    (now : ℕ) (request : Request) (answer : Answer) (app : App) {app' : App}
    → Sound app
    → app.loading ≡ true
    → app.request ≡ some request
    → complete_page now request answer app ≡ ok app'
    → Sound app'
unfolding complete_page
complete_page-Sound now request answer app {app'} h loading awaited e =
    elim (Bool-cases (request.id == app.generation)) [
      | inl same ↦
          Settled-Sound app'
            (answer_taken now request answer app h.0 (rw (loading, awaited) at h.1) same e)
      | inr late ↦ subst Sound (ok-injective (rw late at e)) h
    ]
