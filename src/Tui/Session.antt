-- ===== src/Tui/Session.antt =====
-- The session of `crates/tui/src/app.rs`: the view of a resource, the requests that fill it, and
-- what a new request invalidates.
pub mod Follow
pub mod Window
pub mod Stream
pub mod Safe
pub mod Bookmarks
pub mod Sound
pub mod Taken
pub mod Filter
pub mod Reach
pub mod Answers
pub mod Back
pub mod Panics
pub mod Pages
use onetui.Base.{
  ℕ, zero, suc, ◌+◌, ◌%◌, ◌^◌, ◌≡◌, Bool, true, false, ◌&&◌, not, List, [], ◌∷◌, Option, none, some,
  length, get_elem?, leb, ltb, ◌==◌, if◌then◌else◌, map, Outcome, ok, err, panicked, stuck, ◌>>=◌,
}
use onetui.Text.{Text, str, text_eq}
use onetui.Core.{Resource, Row, Column, Page, page_bytes, page_size}
use onetui.Tui.Value.{ValueError, projections}
use onetui.Tui.Table.{reindex}

pub record PageBookmark : Type 0 where
  pub offset : ℕ
  pub position : Option Text
  pub selected : Option ℕ
  pub page : Option Page

-- A view without the draft of a query and the previews that are drawn.
pub record View : Type 0 where
  pub live : Bool
  pub live_evicted : ℕ
  pub query : Option Text
  pub alias : Option Text
  pub resource : Resource
  pub page : Page
  pub selected : ℕ
  pub offset : ℕ
  pub column : ℕ
  pub visible : List ℕ
  pub filter : Text
  pub sort : Option (ℕ × Bool)
  pub projections : List (List (Option Text))
  pub position : Option Text
  -- The newest bookmark first.
  pub previous : List PageBookmark

pub record Request : Type 0 where
  pub follow : Bool
  pub query : Option Text
  pub id : ℕ
  pub alias : Text
  pub resource : Resource
  pub offset : ℕ
  pub continuation : Option Text
  pub reset : Bool

-- The aliases with their kinds and how they are browsed, and how many columns the registered
-- descriptor of a resource names.
pub record Config : Type 0 where
  pub aliases : List (Text × Text × Text)
  pub columns : Option Text → Resource → ℕ

-- What pages and streams have to do with; menus, dialogs, details and the terminal are left out.
pub record App : Type 0 where
  pub config : Config
  pub following : Bool
  pub follow_due : Option ℕ
  pub generation : ℕ
  pub request : Option Request
  pub loading : Bool
  pub opening : Bool
  pub parents : List View
  pub view : View
  pub error : Option Text
  pub connect_error : Option (Text × Text)

-- What a provider answers.
pub data Answer : Type 0 where
  delivered : Page → Answer
  failed : Text → Answer

-- A handler gives the next state, or panics.
abbrev pub Run : Type 0 → Type 0
Run A = Outcome ⊥ A

abbrev pub expect {ℓ} : {A : Type ℓ} → Option A → Outcome ⊥ A
expect none = panicked
expect (some a) = ok a

abbrev pub expect_ok : {E : Type 0} {A : Type 0} → Outcome E A → Run A
expect_ok (ok a) = ok a
expect_ok (err e) = panicked
expect_ok panicked = panicked
expect_ok stuck = stuck

abbrev pub no_page : Page
no_page = record { rows = []; next = false; columns = []; continuation = none; notice = [] }

abbrev pub new_view : Option Text → Resource → View
new_view alias resource = record {
  live = false;
  live_evicted = 0;
  query = none;
  alias = alias;
  resource = resource;
  page = no_page;
  selected = 0;
  offset = 0;
  column = 0;
  visible = [];
  filter = [];
  sort = none;
  projections = [];
  position = none;
  previous = [];
}

abbrev pub selected_index : View → Option ℕ
selected_index view = get_elem? view.visible view.selected

-- `rebuild`.
unfoldable pub rebuild : Option ℕ → View → Run View
unfolding reindex
rebuild keep view = expect_ok (projections view.page) >>= λ cells.
    reindex cells view.filter view.sort keep >>= λ shown.
    ok (record view { projections = cells; visible = shown.0; selected = shown.1 })

abbrev pub next_generation : ℕ → ℕ
next_generation generation = (generation + 1) % 2 ^ 64

abbrev pub invalidate : App → App
invalidate app = record app {
  following = false;
  follow_due = none;
  generation = next_generation app.generation;
  request = none;
  loading = false;
  error = none;
  opening = false;
}

abbrev pub newest : List PageBookmark → Option PageBookmark
newest [] = none
newest (bookmark ∷ later) = some bookmark

-- The continuation that a request of `load` starts from.
unfoldable pub load_continuation : ℕ → Bool → View → Run (Option Text)
load_continuation offset true view = ok none
load_continuation offset false view =
    if ltb offset view.offset
    then (expect (newest view.previous) >>= λ bookmark. ok bookmark.position)
    else ok view.page.continuation

unfoldable pub load : ℕ → Bool → App → Run App
unfolding load_continuation
load offset reset app =
    let app = invalidate app in
    expect app.view.alias >>= λ alias. load_continuation offset reset app.view >>= λ continuation.
    ok (record app {
      loading = true;
      request = some (record {
        follow = false;
        query = app.view.query;
        id = app.generation;
        alias = alias;
        resource = app.view.resource;
        offset = offset;
        continuation = continuation;
        reset = reset;
      });
    })

-- `column_count`.
abbrev pub column_count : Config → View → ℕ
column_count config view =
    let count = length view.page.columns in
    if count == 0 then config.columns view.alias view.resource else count

abbrev pub connections_resource : Resource
connections_resource = record { id = str "connections"; path = [] }

abbrev connection_row : Text × Text × Text → Row
connection_row (alias, kind, browsing) = record {
  cells =
      some (onetui.Core.Value.text alias)
      ∷ some (onetui.Core.Value.text kind)
      ∷ some (onetui.Core.Value.text browsing)
      ∷ [];
  target = none;
}

-- The list of connections.
abbrev pub connections_view : Config → View
connections_view config = record (new_view none connections_resource) {
  page = record no_page { rows = map connection_row config.aliases };
}

-- `connections`: no parents are left.
unfoldable pub connections : App → Run App
unfolding rebuild
connections app =
    let app = invalidate app in
    rebuild none (connections_view app.config) >>= λ view.
    ok (record app { parents = []; view = view })

abbrev pub message : ValueError → Text
message onetui.Tui.Value.text_too_long = str "Text formatting exceeds 1 MiB; use hex/binary"
message onetui.Tui.Value.bytes_too_long = str "Byte preview exceeds 1 MiB"
message onetui.Tui.Value.previews_too_long = str "Page previews exceed 1 MiB; current page retained"

-- An `anyhow` result with the error's text.
abbrev pub with_message : {A : Type 0} → Outcome ValueError A → Outcome Text A
with_message (ok a) = ok a
with_message (err e) = err (message e)
with_message panicked = panicked
with_message stuck = stuck

abbrev pub received : Answer → Outcome Text Page
received (delivered page) = ok page
received (failed text) = err text

abbrev pub query_eq : Option Text → Option Text → Bool
query_eq none none = true
query_eq none (some t) = false
query_eq (some s) none = false
query_eq (some s) (some t) = text_eq s t
