-- ===== src/Tui/Tests.antt =====
-- The terminal interface on concrete inputs.
use onetui.Base.{
  ℕ, ◌≡◌, ◌↔◌, ◌<◌, ◌^◌, refl, ap, List, Bool, true, false, [], ◌∷◌, Option, none, some, ok, err,
  panicked, stuck, Settles, arith, if◌then◌else◌, leb, ◌*◌, length, drop, All,
}
use onetui.Text.{Text, str, byte_len}
use onetui.Core.{Row, Column, Page, Resource, page_bytes}
use onetui.Tui.Value.{projection, bytes_too_long}
use onetui.Tui.Value.Laws.{displayed, projection-display}
use onetui.Tui.Table.{Cells}
use onetui.Tui.Table.Shows.{Shows}
use onetui.Tui.Session.{
  App, View, Config, Request, Answer, delivered, failed, Run, new_view, no_page, load, PageBookmark,
}
use onetui.Tui.Session.Follow.{complete_follow, start_follow}
use onetui.Tui.Session.Pages.{next_page, previous_page, complete_page, cancel}
use onetui.Tui.Session.Stream.{Followed, started, Mirrors, Followed-Mirrors}
use onetui.Tui.Session.Safe.{complete_follow-Settles}
use onetui.Tui.Value.{projections}
use onetui.Tui.Session.Pages.{opened, fetched}
use onetui.Tui.Session.Bookmarks.{Chain, NoPage, Awaited}
use onetui.Tui.Session.Reach.{Reach, start, later, answered, next, Reach-Sound}
use onetui.Tui.Session.Answers.{GivesCells, Lists, complete_page-Settles, complete_page-late}
use onetui.Tui.Session.Back.{Restored, next-previous_page}
use onetui.Tui.Table.Panics.{Clashes}
use onetui.Tui.Session.Panics.{previous_page-panics}
use onetui.Tui.History.{Editing, browse, submit}
use onetui.Tui.Editor.{Editor, KeyEvent}
use onetui.Tui.Editor.Cursor.{Between, Between-end, concat}
use onetui.Tui.Editor.Keys.{Stands, key-Stands}
use onetui.Tui.Session.Filter.{
  Filtering, open_filter, key_filter, escape, Typed, more, Unfiltered, escape-Unfiltered,
}
use onetui.Tui.History.Browse.{Back, here, step, forth, forth-Back}
use onetui.Tui.History.Record.{Recorded, submit-Recorded}

abbrev cell_bytes : onetui.Core.Value
cell_bytes = onetui.Core.Value.bytes (7 ∷ 255 ∷ [])

projection-display_example : projection cell_bytes ≡ (
    if leb (byte_len (displayed cell_bytes)) page_bytes
    then ok (displayed cell_bytes)
    else err bytes_too_long)
projection-display_example = projection-display cell_bytes (omega arith, (omega arith, tt))

-- Three rows, of which two match.
abbrev fruit : Cells
fruit = (some (str "pear") ∷ []) ∷ (some (str "fig") ∷ []) ∷ (some (str "pea") ∷ []) ∷ []

abbrev resource : Resource
resource = record { id = str "rows"; path = [] }

abbrev config : Config
config = record { aliases = (str "db", str "sql", str "rows") ∷ []; columns = λ alias resource. 2 }

abbrev cell : Text → Option onetui.Core.Value
cell s = some (onetui.Core.Value.text s)

abbrev one_row : Page
one_row = record {
  rows = record { cells = cell (str "a") ∷ cell (str "b") ∷ []; target = none } ∷ [];
  next = true;
  columns = [];
  continuation = some (str "t");
  notice = [];
}

abbrev session : App
session = record {
  config = config;
  following = false;
  follow_due = none;
  generation = 1;
  request = none;
  loading = false;
  opening = false;
  parents = [];
  view = new_view (some (str "db")) resource;
  error = none;
  connect_error = none;
}

abbrev state_of : App → Run App → App
state_of app (ok reached) = reached
state_of app (err e) = app
state_of app panicked = app
state_of app stuck = app

abbrev after : Run App → App
after run = state_of session run

abbrev no_request : Request
no_request = record {
  follow = false;
  query = none;
  id = 0;
  alias = [];
  resource = resource;
  offset = 0;
  continuation = none;
  reset = false;
}

abbrev request_in : Option Request → Request
request_in none = no_request
request_in (some request) = request

abbrev request_of : App → Request
request_of app = request_in app.request

abbrev following : App
following = after (start_follow session)

abbrev live : App
live = after (complete_follow 0 (request_of following) (delivered one_row) following)

started_live : Followed live (one_row.rows)
unfolding start_follow onetui.Tui.Session.Follow.batch onetui.Core.page_size byte_len projections
    onetui.Tui.Value.unsafe_char complete_follow
started_live = started 0 (request_of following) (delivered one_row) following refl refl refl

Followed-Mirrors_example : Mirrors live.view one_row.rows
Followed-Mirrors_example = Followed-Mirrors started_live (omega arith)

complete_follow-Settles_example : Settles (
    complete_follow 1000 (record (request_of following) { reset = false }) (delivered one_row) live)
unfolding complete_follow onetui.Core.page_size byte_len projections onetui.Tui.Value.unsafe_char
    start_follow
complete_follow-Settles_example =
    complete_follow-Settles 1000 (record (request_of following) { reset = false })
      (delivered one_row) live tt tt

-- The first page, the next one, and back.
abbrev asked : App
asked = after (load 0 true session)

abbrev shown : App
shown = after (complete_page 0 (request_of asked) (delivered one_row) asked)

abbrev turning : App
turning = after (next_page shown)

Reach-turning : Reach turning
unfolding load complete_page onetui.Core.page_size byte_len projections onetui.Tui.Value.unsafe_char
    next_page
Reach-turning =
    later
      (later (start session (some (str "db")) resource refl refl)
        (answered 0 (request_of asked) (delivered one_row) refl refl refl))
      (next refl)

Reach-Sound_example :
    (turning.view.offset ≡ 100 * length turning.view.previous)
    × Chain turning.view.offset turning.view.previous
    × All NoPage (drop 2 turning.view.previous)
    × Awaited turning.loading turning.request turning.view
Reach-Sound_example = Reach-Sound Reach-turning

turning_loads :
    (turning.loading ≡ true)
    × (turning.request ≡ some (request_of turning))
    × ((request_of turning).follow ≡ false)
unfolding next_page complete_page onetui.Core.page_size byte_len projections
    onetui.Tui.Value.unsafe_char
turning_loads = (refl, refl, refl)

one_row_cells : GivesCells config (opened (request_of turning) turning).view (delivered one_row)
one_row_cells = (omega arith, tt)

listed : Lists config
unfolding onetui.Tui.Session.rebuild projections byte_len onetui.Tui.Value.unsafe_char
listed = tt

complete_page-Settles_example :
    Settles (complete_page 0 (request_of turning) (delivered one_row) turning)
unfolding next_page complete_page onetui.Core.page_size byte_len projections
    onetui.Tui.Value.unsafe_char
complete_page-Settles_example =
    complete_page-Settles 0 (request_of turning) (delivered one_row) Reach-turning turning_loads.0
      turning_loads.1 turning_loads.2 one_row_cells listed

first_id : (request_of asked).id ≡ asked.generation
unfolding load
first_id = refl

generation_fits : asked.generation < 2 ^ 64
unfolding load
generation_fits = omega arith

complete_page-late_example :
    (complete_page 0 (request_of asked) (delivered one_row) (cancel asked) ≡ ok (cancel asked))
    × ((offset : ℕ) (reset : Bool) (app' : App)
        → load offset reset asked ≡ ok app'
        → complete_page 0 (request_of asked) (delivered one_row) app' ≡ ok app')
complete_page-late_example =
    complete_page-late 0 (request_of asked) (delivered one_row) asked first_id generation_fits

abbrev idle : App
idle = record shown { request = none }

abbrev queued : App
queued = after (next_page idle)

abbrev second : App
second = after (complete_page 0 (request_of queued) (delivered one_row) queued)

abbrev back_again : App
back_again = after (previous_page second)

there : next_page idle ≡ ok queued
unfolding next_page complete_page onetui.Core.page_size byte_len projections
    onetui.Tui.Value.unsafe_char
there = refl

awaited : queued.request ≡ some (request_of queued)
unfolding next_page complete_page onetui.Core.page_size byte_len projections
    onetui.Tui.Value.unsafe_char
awaited = refl

accepted : fetched (delivered one_row) ≡ ok one_row
unfolding fetched onetui.Core.page_size byte_len projections onetui.Tui.Value.unsafe_char
accepted = refl

turned_page : complete_page 0 (request_of queued) (delivered one_row) queued ≡ ok second
unfolding complete_page next_page onetui.Core.page_size byte_len projections
    onetui.Tui.Value.unsafe_char
turned_page = refl

returned : previous_page second ≡ ok back_again
unfolding previous_page complete_page next_page onetui.Core.page_size byte_len projections
    onetui.Tui.Value.unsafe_char
returned = refl

next-previous_page_example : Restored idle.view back_again.view
next-previous_page_example =
    next-previous_page 0 (request_of queued) (delivered one_row) one_row idle queued second
      back_again refl there awaited accepted turned_page returned

-- A sort by the second column, over a page whose second row has one cell.
abbrev ragged : Page
ragged = record one_row {
  rows =
      record { cells = cell (str "a") ∷ cell (str "b") ∷ []; target = none }
      ∷ record { cells = cell (str "c") ∷ []; target = none }
      ∷ [];
}

abbrev ragged_cells : Cells
ragged_cells = (some (str "a") ∷ some (str "b") ∷ []) ∷ (some (str "c") ∷ []) ∷ []

abbrev bookmark : PageBookmark
bookmark = record { offset = 0; position = none; selected = none; page = some ragged }

abbrev sorted_session : App
sorted_session = record session {
  view = record session.view { sort = some (1, false); previous = bookmark ∷ []; offset = 100 };
}

ragged_projections : projections ragged ≡ ok ragged_cells
unfolding projections byte_len onetui.Tui.Value.unsafe_char
ragged_projections = refl

previous_page-panics_example :
    (previous_page sorted_session ≡ panicked) ↔ Clashes ragged_cells [] (some (1, false))
previous_page-panics_example =
    previous_page-panics sorted_session bookmark ragged [] refl refl ragged_projections

-- Two queries of a connection, and a draft.
abbrev draft : Editing
draft = record {
  query_history = (str "db", str "a") ∷ (str "other", str "x") ∷ (str "db", str "b") ∷ [];
  history_position = none;
  history_current = none;
  text = str "draft";
}

abbrev edited : Run Editing → Editing
edited (ok reached) = reached
edited (err e) = draft
edited panicked = draft
edited stuck = draft

abbrev once : Editing
once = edited (browse (str "db") true draft)

abbrev twice : Editing
twice = edited (browse (str "db") true once)

two-Back : Back (str "db") draft 2 twice
unfolding onetui.Tui.History.moved browse
two-Back = step 2 refl refl (step 0 refl refl here)

forth-Back_example : forth (str "db") 2 twice ≡ ok draft
forth-Back_example = forth-Back (str "db") 2 draft twice refl two-Back

submit-Recorded_example :
    Recorded (str "db", str "c") (submit (str "db") (str "c") draft).query_history
submit-Recorded_example = submit-Recorded (str "db") (str "c") draft (omega arith)

-- An editor whose graphemes are the characters.
abbrev characters : Text → List Text
characters [] = []
characters (c ∷ s) = (c ∷ []) ∷ characters s

characters-concat : (s : Text) → concat (characters s) ≡ s
characters-concat [] = refl
characters-concat (c ∷ s) = ap (λ t. c ∷ t) (characters-concat s)

abbrev two_lines : Editor
two_lines = onetui.Tui.Editor.new (str "é1\n2")

abbrev up_key : KeyEvent
up_key = record { code = onetui.Tui.Editor.up; control = false; alt = false }

one_up :
    onetui.Tui.Editor.key characters up_key two_lines
    ≡ ok (record { text = str "é1\n2"; cursor = 2 })
unfolding onetui.Tui.Editor.key
one_up = refl

at_end : Between two_lines.text two_lines.cursor
at_end = Between-end (str "é1\n2")

key-Stands_example : Stands (onetui.Tui.Editor.key characters up_key two_lines)
key-Stands_example = key-Stands characters characters-concat up_key two_lines at_end

-- A filter that is typed and left by Escape.
abbrev unfiltered : Filtering
unfiltered = record {
  view = record session.view { projections = fruit; visible = 0 ∷ 1 ∷ 2 ∷ []; selected = 1 };
  filter_input = none;
  filter_restore = none;
}

abbrev filtering : Run Filtering → Filtering
filtering (ok state) = state
filtering (err e) = unfiltered
filtering panicked = unfiltered
filtering stuck = unfiltered

abbrev p_typed : Filtering
p_typed =
    filtering (key_filter (onetui.Tui.Session.Filter.char b'p' false) (open_filter unfiltered))

abbrev escaped_again : Filtering
escaped_again = filtering (key_filter escape p_typed)

typed_p : Typed unfiltered p_typed
unfolding key_filter
typed_p = more (onetui.Tui.Session.Filter.char b'p' false) onetui.Tui.Session.Filter.opened tt refl

left_filter : key_filter escape p_typed ≡ ok escaped_again
unfolding key_filter
left_filter = refl

escape-Unfiltered_example : Unfiltered unfiltered escaped_again
escape-Unfiltered_example = escape-Unfiltered unfiltered p_typed escaped_again typed_p left_filter
