-- ===== src/Tui/Session/Bookmarks.antt =====
-- The bookmarks of a view: the pages that lead back to the first one.
use onetui.Base.{
  ℕ, ◌+◌, ◌≡◌, ◌⊎◌, ◌≤◌, ◌<◌, refl, sym, subst, Bool, true, false, List, [], ◌∷◌, Option, none,
  some, drop, All, ok, ltb, >>=-eq-ok, ok-injective, inl, inr, arith,
}
use onetui.Text.{Text, text_eq_self}
use onetui.Core.{Page}
use onetui.Tui.Session.{App, View, PageBookmark, Request, query_eq}
use onetui.Tui.Session.Window.{rebuild-SamePage}
use onetui.Tui.Session.Pages.{forget_third, bookmark_of, popped, turn, opened, turned, show_page}

-- Each bookmark is a page before the one that follows it, and the oldest is the first page.
abbrev pub Chain : ℕ → List PageBookmark → Type 0
Chain offset [] = offset ≡ 0
Chain offset (bookmark ∷ earlier) = (offset ≡ bookmark.offset + 100) × Chain bookmark.offset earlier

abbrev pub NoPage : PageBookmark → Type 0
NoPage bookmark = bookmark.page ≡ none

abbrev pub Bookmarked : ℕ → List PageBookmark → Type 0
Bookmarked offset previous = Chain offset previous × All NoPage (drop 2 previous)

abbrev pub HeadAt : ℕ → List PageBookmark → Type 0
HeadAt offset [] = ⊥
HeadAt offset (bookmark ∷ earlier) = offset ≡ bookmark.offset

-- A request for the first page, for the next one, or for the one before.
abbrev pub Fits : Request → View → Type 0
Fits request view =
    ((request.reset ≡ true) × (request.offset ≡ 0))
    ⊎ ((request.reset ≡ false)
        × (request.query ≡ view.query)
        × ((request.offset ≡ view.offset + 100) ⊎ HeadAt request.offset view.previous))

-- The request that is awaited.
abbrev pub Awaited : Bool → Option Request → View → Type 0
Awaited false request view = Unit
Awaited true none view = Unit
Awaited true (some request) view = (request.follow ≡ true) ⊎ Fits request view

abbrev pub Sound : App → Type 0
Sound app = Bookmarked app.view.offset app.view.previous × Awaited app.loading app.request app.view

-- What the answer does to the bookmarks.
forget_third-NoPage :
    (previous : List PageBookmark)
    → All NoPage (drop 2 previous)
    → (b : PageBookmark) → All NoPage (drop 2 (forget_third (b ∷ previous)))
forget_third-NoPage [] h b = tt
forget_third-NoPage (c ∷ []) h b = tt
forget_third-NoPage (c ∷ d ∷ earlier) h b = (refl, h)

forget_third-Chain :
    (offset : ℕ) (previous : List PageBookmark)
    → Chain offset previous
    → Chain offset (forget_third previous)
forget_third-Chain offset [] h = h
forget_third-Chain offset (a ∷ []) h = h
forget_third-Chain offset (a ∷ b ∷ []) h = h
forget_third-Chain offset (a ∷ b ∷ c ∷ earlier) h = h

pub not_below : (a b : ℕ) → b ≤ a → ltb a b ≡ false
not_below a b h = ground arith

below : (a b : ℕ) → a < b → ltb a b ≡ true
below a b h = ground arith

turn-next :
    (view : View) (offset : ℕ) {bookmarks : List PageBookmark × Option ℕ}
    → Bookmarked view.offset view.previous
    → offset ≡ view.offset + 100
    → turn false offset view ≡ ok bookmarks
    → Bookmarked offset bookmarks.0
unfolding turn
turn-next view offset h e run =
    let pushed = ok-injective (rw (not_below offset view.offset (omega (arith, e))) at run) in
    subst (λ (b : List PageBookmark × Option ℕ). Bookmarked offset b.0) pushed
      (
        forget_third-Chain offset (bookmark_of view ∷ view.previous) (e, h.0),
        forget_third-NoPage view.previous h.1 (bookmark_of view),
      )

NoPage-drop :
    (earlier : List PageBookmark) → All NoPage (drop 1 earlier) → All NoPage (drop 2 earlier)
NoPage-drop [] h = tt
NoPage-drop (a ∷ []) h = tt
NoPage-drop (a ∷ b ∷ earlier) h = h.1

pub popped-Bookmarked :
    (last offset : ℕ) (previous : List PageBookmark) {bookmarks : List PageBookmark × Option ℕ}
    → Bookmarked last previous
    → HeadAt offset previous
    → popped previous ≡ ok bookmarks
    → Bookmarked offset bookmarks.0
popped-Bookmarked last offset [] h e run = absurd e
popped-Bookmarked last offset (b ∷ earlier) h e run =
    subst (λ (b : List PageBookmark × Option ℕ). Bookmarked offset b.0) (ok-injective run)
      (subst (λ (o : ℕ). Chain o earlier) (sym e) h.0.1, NoPage-drop earlier h.1)

back_is_below :
    (last offset : ℕ) (previous : List PageBookmark)
    → Chain last previous
    → HeadAt offset previous
    → offset < last
back_is_below last offset [] c e = absurd e
back_is_below last offset (b ∷ earlier) c e = omega (arith, c.0, e)

turn-back :
    (view : View) (offset : ℕ) {bookmarks : List PageBookmark × Option ℕ}
    → Bookmarked view.offset view.previous
    → HeadAt offset view.previous
    → turn false offset view ≡ ok bookmarks
    → Bookmarked offset bookmarks.0
unfolding turn
turn-back view offset h e run =
    popped-Bookmarked view.offset offset view.previous h e
      (rw (below offset view.offset (back_is_below view.offset offset view.previous h.0 e)) at run)

-- The view that a page is shown in has the bookmarks of the turn.
pub query_eq_self : (query : Option Text) → query_eq query query ≡ true
query_eq_self none = refl
query_eq_self (some s) = text_eq_self s

pub opened_same :
    (request : Request) (app : App) → request.query ≡ app.view.query → opened request app ≡ app
opened_same request app e = rw (e, query_eq_self app.view.query) refl

turn-opened :
    (request : Request) (app : App) {bookmarks : List PageBookmark × Option ℕ}
    → Bookmarked app.view.offset app.view.previous
    → Fits request app.view
    → turn request.reset request.offset (opened request app).view ≡ ok bookmarks
    → Bookmarked request.offset bookmarks.0
unfolding turn
turn-opened request app h (inl (reset, first)) run =
    subst (λ (b : List PageBookmark × Option ℕ). Bookmarked request.offset b.0)
      (ok-injective (rw reset at run)) (first, tt)
turn-opened request app h (inr (reset, query, inl e)) run =
    turn-next app.view request.offset h e (rw (reset, opened_same request app query) at run)
turn-opened request app h (inr (reset, query, inr e)) run =
    turn-back app.view request.offset h e (rw (reset, opened_same request app query) at run)

pub Bookmarked-eq :
    {o o' : ℕ} {p p' : List PageBookmark} → o ≡ o' → p ≡ p' → Bookmarked o' p' → Bookmarked o p
Bookmarked-eq e f h = rw (e, f) h

pub show_page-Bookmarked :
    (request : Request) (page : Page) (app : App) {view : View}
    → Bookmarked app.view.offset app.view.previous
    → Fits request app.view
    → show_page app.config request page (opened request app).view ≡ ok view
    → Bookmarked view.offset view.previous
unfolding show_page
show_page-Bookmarked request page app h f e =
    let start = (opened request app).view in
    let bookmarks = >>=-eq-ok (turn request.reset request.offset start) _ e in
    let same =
      rebuild-SamePage bookmarks.0.1 (turned app.config request page start bookmarks.0.0)
        bookmarks.2 in
    Bookmarked-eq same.4 same.3 (turn-opened request app h f bookmarks.1)
