-- ===== src/Tui/Session/Follow.antt =====
-- `crates/tui/src/app/follow.rs`: the rolling window of a followed stream.
use onetui.Base.{
  ℕ, suc, ◌+◌, ◌-◌, ◌^◌, Bool, true, false, ◌&&◌, ◌||◌, not, List, [], ◌∷◌, ◌++◌, Option, none,
  some, length, leb, ltb, ◌==◌, if◌then◌else◌, Outcome, ok, err, panicked, stuck, ◌>>=◌, ◌>>◌,
  ensure,
}
use onetui.Text.{Text, str, is_empty, byte_len, text_eq}
use onetui.Core.{Row, Column, Page, page_rows, page_bytes, page_size}
use onetui.Core.Display.{display}
use onetui.Tui.Value.{projections}
use onetui.Tui.Session.{
  Request, App, View, Answer, Run, expect, no_page, selected_index, rebuild, next_generation,
  invalidate, with_message, received,
}

unfoldable pub queue_follow : Bool → App → Run App
queue_follow reset app =
    let generation = next_generation app.generation in
    expect app.view.alias >>= λ alias. ok (record app {
      generation = generation;
      loading = true;
      follow_due = none;
      request = some (record {
        follow = true;
        query = none;
        id = generation;
        alias = alias;
        resource = app.view.resource;
        offset = 0;
        continuation = if reset then none else app.view.page.continuation;
        reset = reset;
      });
    })

unfoldable pub start_follow : App → Run App
unfolding queue_follow
start_follow app = queue_follow true (record (invalidate app) { following = true })

abbrev pub is_due : ℕ → Option ℕ → Bool
is_due now none = false
is_due now (some due) = leb due now

-- A tick, at a time in milliseconds.
unfoldable pub follow_tick : ℕ → App → Run App
unfolding queue_follow
follow_tick now app =
    if app.following && not app.loading && is_due now app.follow_due
    then queue_follow false app
    else ok app

abbrev pub bounded_token : Option Text → Bool
bounded_token none = false
bounded_token (some token) = not (is_empty token) && leb (byte_len token) 4096

abbrev pub oversized : Text
oversized = str "Live batch exceeds 100 rows or 1 MiB; following stopped"

abbrev pub no_token : Text
no_token = str "Live batch is missing a bounded continuation; following stopped"

-- The checks of a batch.
unfoldable pub batch : Answer → Outcome Text Page
batch answer = received answer >>= λ page.
    ensure (leb (length page.rows) page_rows && leb (page_size page) page_bytes) oversized
    >> (ensure (bounded_token page.continuation) no_token
        >> (with_message (projections page) >>= λ cells. ok page))

unfoldable pub same_columns : List Column → List Column → Bool
unfolding text_eq
same_columns [] [] = true
same_columns [] (d ∷ ds) = false
same_columns (c ∷ cs) [] = false
same_columns (c ∷ cs) (d ∷ ds) =
    text_eq c.name d.name && text_eq c.datatype d.datatype && same_columns cs ds

abbrev pub is_ok : {E : Type 0} {A : Type 0} → Outcome E A → Bool
is_ok (ok a) = true
is_ok (err e) = false
is_ok panicked = false
is_ok stuck = false

-- The condition of the loop that drops the oldest rows.
unfoldable pub too_much : Page → Bool
too_much page =
    ltb page_rows (length page.rows)
    || ltb page_bytes (page_size page)
    || not (is_ok (projections page))

-- The rows that are left, and how many were removed; `remove(0)` of no rows panics.
unfoldable pub trim : Page → List Row → Run (List Row × ℕ)
unfolding too_much
trim page [] = if too_much (record page { rows = [] }) then panicked else ok ([], 0)
trim page (row ∷ rows) =
    let later = trim page rows in
    if too_much (record page { rows = row ∷ rows })
    then (later >>= λ kept. ok (kept.0, suc kept.1))
    else ok (row ∷ rows, 0)

-- `saturating_add` of a `usize`.
abbrev pub saturating_add : ℕ → ℕ → ℕ
saturating_add a b = if ltb (a + b) (2 ^ 64) then a + b else 2 ^ 64 - 1

abbrev pub checked_sub : Option ℕ → ℕ → Option ℕ
checked_sub none removed = none
checked_sub (some i) removed = if leb removed i then some (i - removed) else none

-- What a first batch leaves of the view.
abbrev pub follow_view : Bool → View → View
follow_view false view = view
follow_view true view = record view {
  page = no_page;
  previous = [];
  position = none;
  offset = 0;
  live_evicted = 0;
  sort = none;
  filter = [];
}

abbrev pub at_last : Bool → View → View
at_last false view = view
at_last true view = record view { selected = length view.visible - 1 }

-- Rebuilt if it changed, with the selection on the last row if it was there.
unfoldable pub show_batch : Bool → Option ℕ → Bool → View → Run View
unfolding rebuild
show_batch false keep was_last view = ok view
show_batch true keep was_last view = rebuild keep view >>= λ view. ok (at_last was_last view)

-- The view with a batch appended.
unfoldable pub append_batch : Bool → Page → View → Run View
unfolding trim show_batch
append_batch reset page view =
    let changed = reset || not (length page.rows == 0) in
    let was_last = leb (length view.visible) (view.selected + 1) in
    let page' = record page { next = false } in
    trim page' (view.page.rows ++ page.rows) >>= λ kept.
    show_batch (changed || ltb 0 kept.1) (checked_sub (selected_index view) kept.1) was_last
      (record view {
        live_evicted = saturating_add view.live_evicted kept.1;
        live = true;
        page = record page' { rows = kept.0 };
      })

abbrev columns_changed : Text
columns_changed = str "Live columns changed; following stopped, displayed data retained"

-- `complete_follow`, at a time in milliseconds.
unfoldable pub complete_batch : ℕ → Bool → Outcome Text Page → App → Run App
unfolding append_batch same_columns
complete_batch now reset (ok page) app =
    if not reset && not (same_columns app.view.page.columns page.columns)
    then ok (record app { following = false; error = some columns_changed })
    else (append_batch reset page (follow_view reset app.view) >>= λ view.
        ok (record app { view = view; error = none; follow_due = some (now + 1000) }))
complete_batch now reset (err text) app =
    ok (record app { following = false; follow_due = none; error = some (display text) })
complete_batch now reset panicked app = panicked
complete_batch now reset stuck app = stuck

unfoldable pub complete_follow : ℕ → Request → Answer → App → Run App
unfolding batch complete_batch
complete_follow now request answer app = complete_batch now request.reset (batch answer) app
