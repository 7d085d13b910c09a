-- ===== src/Tui/Session/Pages.antt =====
-- `complete_page`, `next_page`, `previous_page`, `toggle_sort` and `refresh` of
-- `crates/tui/src/app.rs`: the pages of a view and the bookmarks that lead back.
use onetui.Base.{
  ℕ, suc, ◌+◌, ◌-◌, ◌^◌, Bool, true, false, ◌&&◌, ◌||◌, not, List, [], ◌∷◌, Option, none, some,
  length, get_elem?, leb, ltb, ◌==◌, if◌then◌else◌, Outcome, ok, err, panicked, stuck, ◌>>=◌, ◌>>◌,
  ensure,
}
use onetui.Text.{Text, str, text_eq, byte_len}
use onetui.Core.{Column, Page, Resource, page_bytes, page_size}
use onetui.Core.Display.{display}
use onetui.Tui.Value.{projections}
use onetui.Tui.Table.{reindex}
use onetui.Tui.Session.{
  Config, PageBookmark, Request, App, View, Answer, Run, new_view, selected_index, rebuild,
  invalidate, load, column_count, connections_resource, connections, with_message, received,
  query_eq,
}
use onetui.Tui.Session.Follow.{complete_follow}

abbrev pub bookmark_limit : ℕ
bookmark_limit = 4096

abbrev pub token_bytes : Option Text → ℕ
token_bytes none = 0
token_bytes (some token) = byte_len token

abbrev pub bookmark_bytes : List PageBookmark → ℕ
bookmark_bytes [] = 0
bookmark_bytes (bookmark ∷ later) = token_bytes bookmark.position + bookmark_bytes later

abbrev pub limit_reached : Text
limit_reached =
    str "Page bookmark limit reached (4096 bookmarks / 1 MiB tokens); go back or refresh to restart"

-- `checked_add(PAGE_SIZE)` of an `i64`.
abbrev pub next_offset : ℕ → Option ℕ
next_offset offset = if ltb (offset + 100) (2 ^ 63) then some (offset + 100) else none

abbrev pub load_next : Option ℕ → App → Run App
load_next none app = ok app
load_next (some offset) app = load offset false app

unfoldable pub next_page : App → Run App
unfolding load
next_page app =
    if leb bookmark_limit (length app.view.previous)
      || ltb page_bytes (bookmark_bytes app.view.previous + token_bytes app.view.position)
    then ok (record app { error = some limit_reached })
    else load_next (next_offset app.view.offset) app

abbrev pub restored : PageBookmark → Page → List PageBookmark → View → View
restored bookmark page earlier view = record view {
  offset = bookmark.offset;
  position = bookmark.position;
  page = page;
  previous = earlier;
}

-- Back to a page that its bookmark keeps.
unfoldable pub restore : PageBookmark → Page → List PageBookmark → App → Run App
unfolding rebuild
restore bookmark page earlier app =
    let app = invalidate app in
    rebuild bookmark.selected (restored bookmark page earlier app.view) >>= λ view.
    ok (record app { view = view })

-- Back to the page before, which its bookmark keeps or which is loaded again.
abbrev pub go_to : PageBookmark → Option Page → List PageBookmark → App → Run App
go_to bookmark none earlier app = load bookmark.offset false app
go_to bookmark (some page) earlier app = restore bookmark page earlier app

abbrev pub back_to : List PageBookmark → App → Run App
back_to [] app = ok app
back_to (bookmark ∷ earlier) app = go_to bookmark bookmark.page earlier app

unfoldable pub previous_page : App → Run App
unfolding restore load
previous_page app = back_to app.view.previous app

abbrev pub toggled : ℕ → Option (ℕ × Bool) → Option (ℕ × Bool)
toggled column none = some (column, false)
toggled column (some (sorted, false)) =
    if sorted == column then some (column, true) else some (column, false)
toggled column (some (sorted, true)) = if sorted == column then none else some (column, false)

unfoldable pub toggle_sort : App → Run App
unfolding reindex
toggle_sort app =
    let view = app.view in
    let sort = toggled view.column view.sort in
    reindex view.projections view.filter sort (selected_index view) >>= λ shown.
    ok (record app { view = record view { sort = sort; visible = shown.0; selected = shown.1 } })

abbrev min : ℕ → ℕ → ℕ
min a b = if leb a b then a else b

-- Left or right, without a detail that is open.
abbrev pub move_column : Bool → App → App
move_column left app =
    let view = app.view in
    let column =
      if left then view.column - 1 else min (view.column + 1) (column_count app.config view - 1) in
    record app { view = record view { column = column } }

-- Up or down among the rows.
abbrev pub move_row : Bool → App → App
move_row up app =
    let view = app.view in
    let selected =
      if up then view.selected - 1 else min (view.selected + 1) (length view.visible - 1) in
    record app { view = record view { selected = selected } }

abbrev pub is_connections : Resource → Bool
is_connections resource = text_eq resource.id connections_resource.id && length resource.path == 0

-- The connections keep their filter and their sort.
unfoldable pub refresh_connections : App → Run App
unfolding connections rebuild
refresh_connections app = connections app >>= λ listed.
    rebuild none (record listed.view { filter = app.view.filter; sort = app.view.sort }) >>= λ view.
    ok (record listed { view = view })

unfoldable pub refresh : App → Run App
unfolding refresh_connections load
refresh app = if is_connections app.view.resource then refresh_connections app else load 0 true app

-- `cancel` while loading.
unfoldable pub cancel : App → App
cancel app = record (invalidate app) {
  error = some (str "Request cancelled; displayed data retained");
}

abbrev pub oversized_page : Text
oversized_page = str "Page exceeds the 1 MiB value limit; current page retained"

-- The checks of a page.
unfoldable pub fetched : Answer → Outcome Text Page
fetched answer = received answer >>= λ page.
    ensure (leb (page_size page) page_bytes) oversized_page
    >> (with_message (projections page) >>= λ cells. ok page)

abbrev name_of : Option Column → Option Text
name_of none = none
name_of (some column) = some column.name

-- A sort is kept while its column has the same name.
abbrev pub sort_by_name : List Column → List Column → Option (ℕ × Bool) → Option (ℕ × Bool)
sort_by_name old new none = none
sort_by_name old new (some (column, descending)) =
    if query_eq (name_of (get_elem? old column)) (name_of (get_elem? new column))
    then some (column, descending)
    else none

-- A sort is kept while its column is one of the page's.
abbrev pub sort_in : ℕ → Option (ℕ × Bool) → Option (ℕ × Bool)
sort_in count none = none
sort_in count (some (column, descending)) =
    if leb count column then none else some (column, descending)

-- A third bookmark with a page gives it up.
abbrev pub forget_third : List PageBookmark → List PageBookmark
forget_third [] = []
forget_third (a ∷ []) = a ∷ []
forget_third (a ∷ b ∷ []) = a ∷ b ∷ []
forget_third (a ∷ b ∷ c ∷ earlier) = a ∷ b ∷ record c { page = none } ∷ earlier

abbrev pub bookmark_of : View → PageBookmark
bookmark_of view = record {
  offset = view.offset;
  position = view.position;
  selected = selected_index view;
  page = some view.page;
}

abbrev pub popped : List PageBookmark → Run (List PageBookmark × Option ℕ)
popped [] = panicked
popped (bookmark ∷ earlier) = ok (earlier, bookmark.selected)

-- The bookmarks after a page, and the row to select.
unfoldable pub turn : Bool → ℕ → View → Run (List PageBookmark × Option ℕ)
turn true offset view = ok ([], none)
turn false offset view =
    if ltb offset view.offset
    then popped view.previous
    else ok (forget_third (bookmark_of view ∷ view.previous), none)

-- A new query is a view of its own, above the view it was asked from.
abbrev pub opened : Request → App → App
opened request app = if query_eq request.query app.view.query then app else record app {
  view = record (new_view (some request.alias) request.resource) { query = request.query };
  parents = parents_with app.view app.view.query app.parents;
}
  where
    parents_with : View → Option Text → List View → List View
    parents_with view none parents = view ∷ parents
    parents_with view (some query) parents = parents

abbrev pub turned : Config → Request → Page → View → List PageBookmark → View
turned config request page view previous =
    let sort = sort_by_name view.page.columns page.columns view.sort in
    let view = record view {
      live = false;
      live_evicted = 0;
      page = page;
      previous = previous;
      position = request.continuation;
      offset = request.offset;
      selected = 0;
    } in
    let count = column_count config view in
    record view { column = min view.column (count - 1); sort = sort_in count sort }

-- The view with a page that was loaded; a single value's detail is not opened here.
unfoldable pub show_page : Config → Request → Page → View → Run View
unfolding turn rebuild
show_page config request page view = turn request.reset request.offset view >>= λ bookmarks.
    rebuild bookmarks.1 (turned config request page view bookmarks.0)

abbrev alias_place : Text → ℕ → List (Text × Text × Text) → ℕ
alias_place alias place [] = 0
alias_place alias place (entry ∷ entries) =
    let later = alias_place alias (suc place) entries in
    if text_eq entry.0 alias then place else later

-- What a result of a load does; a connection that never gave a page goes back to the connections.
unfoldable pub complete_load : Request → Outcome Text Page → Bool → App → Run App
unfolding show_page connections
complete_load request (ok page) opening app =
    let parent = opened request app in
    show_page app.config request page parent.view >>= λ view.
    ok (record parent { view = view; error = none })
complete_load request (err text) false app = ok (record app { error = some (display text) })
complete_load request (err text) true app = connections app >>= λ app. ok (record app {
  view = record app.view { selected = alias_place request.alias 0 app.config.aliases };
  connect_error = some (request.alias, display text);
})
complete_load request panicked opening app = panicked
complete_load request stuck opening app = stuck

-- `complete_page`, at a time in milliseconds: an answer to a request that is no longer the latest
-- is dropped.
unfoldable pub complete_page : ℕ → Request → Answer → App → Run App
unfolding complete_follow complete_load fetched
complete_page now request answer app =
    if not (request.id == app.generation)
    then ok app
    else if request.follow
    then complete_follow now request answer (record app { loading = false })
    else complete_load request (fetched answer) app.opening
        (record app { loading = false; opening = false })
