-- ===== src/Tui/Session/Window.antt =====
-- The window of a followed stream, next to all the rows that the stream delivered.
use onetui.Base.{
  ℕ, suc, ◌≡◌, ◌≤◌, refl, sym, ap, ◌∙◌, subst, Bool, true, false, List, [], ◌∷◌, ◌++◌, Option,
  length, drop, Bool-cases, ok, >>=-eq-ok, ok-injective, inl, inr, arith,
}
use onetui.Core.{Row, Page}
use onetui.Tui.Session.{View, expect_ok, rebuild}
use onetui.Tui.Value.{projections}
use onetui.Tui.Table.{reindex}
use onetui.Tui.Session.Follow.{too_much, trim, at_last, show_batch, append_batch, saturating_add}

abbrev pub with_rows : Page → List Row → Page
with_rows page rows = record page { rows = rows }

-- What the loop leaves: the rows without the oldest ones, which are not too much.
abbrev pub Trimmed : Page → ℕ → List Row → List Row × ℕ → Type 0
Trimmed page old rows (kept, removed) =
    (removed ≤ old) × (kept ≡ drop removed rows) × (too_much (with_rows page kept) ≡ false)

pub trim_lem :
    (page : Page) (old new : List Row)
    → too_much (with_rows page new) ≡ false
    → (kept : List Row × ℕ) × (trim page (old ++ new) ≡ ok kept)
      × Trimmed page (length old) (old ++ new) kept
unfolding trim
trim_lem page [] [] h = (([], 0), rw h refl, (omega arith, refl, h))
trim_lem page [] (row ∷ new) h = ((row ∷ new, 0), rw h refl, (omega arith, refl, h))
trim_lem page (row ∷ old) new h = elim (Bool-cases (too_much (with_rows page (row ∷ old ++ new)))) [
  | inl e ↦
      let later = trim_lem page old new h in
      (
        (later.0.0, suc later.0.1),
        rw (e, later.1) refl,
        (omega (arith, later.2.0), later.2.1, later.2.2),
      )
  | inr e ↦ ((row ∷ old ++ new, 0), rw e refl, (omega arith, refl, e))
]

-- `rebuild` gives the same page and leaves what is not shown alone.
abbrev pub SamePage : View → View → Type 0
SamePage view view' =
    (view'.page ≡ view.page)
    × (view'.live_evicted ≡ view.live_evicted)
    × (view'.sort ≡ view.sort)
    × (view'.previous ≡ view.previous)
    × (view'.offset ≡ view.offset)
    × (view'.position ≡ view.position)
    × (view'.alias ≡ view.alias)
    × (view'.query ≡ view.query)

pub rebuild-SamePage :
    (keep : Option ℕ) (view : View) {view' : View}
    → rebuild keep view ≡ ok view'
    → SamePage view view'
unfolding rebuild
rebuild-SamePage keep view e =
    let cells = >>=-eq-ok (expect_ok (projections view.page)) _ e in
    let shown = >>=-eq-ok (reindex cells.0 view.filter view.sort keep) _ cells.2 in
    subst (SamePage view) (ok-injective shown.2) (refl, refl, refl, refl, refl, refl, refl, refl)

at_last_same :
    (was_last : Bool) (old view : View)
    → view.page ≡ old.page
    → view.live_evicted ≡ old.live_evicted
    → ((at_last was_last view).page ≡ old.page)
      × ((at_last was_last view).live_evicted ≡ old.live_evicted)
at_last_same false old view p l = (p, l)
at_last_same true old view p l = (p, l)

show_batch-page :
    (changed : Bool) (keep : Option ℕ) (was_last : Bool) (view : View) {view' : View}
    → show_batch changed keep was_last view ≡ ok view'
    → (view'.page ≡ view.page) × (view'.live_evicted ≡ view.live_evicted)
unfolding show_batch
show_batch-page false keep was_last view e = (
  ap (λ (v : View). v.page) (sym (ok-injective e)),
  ap (λ (v : View). v.live_evicted) (sym (ok-injective e)),
)
show_batch-page true keep was_last view e =
    let built = >>=-eq-ok (rebuild keep view) _ e in
    let same = rebuild-SamePage keep view built.1 in
    subst (λ v. (v.page ≡ view.page) × (v.live_evicted ≡ view.live_evicted)) (ok-injective built.2)
      (at_last_same was_last view built.0 same.0 same.1)

abbrev pub batch_page : Page → Page
batch_page page = record page { next = false }

-- The rows that a batch leaves are the newest of those before and its own.
abbrev pub Rolled : Page → List Row → ℕ → View → Type 0
Rolled page rows evicted view =
    (removed : ℕ) × (removed ≤ length rows)
    × (view.page.rows ≡ drop removed (rows ++ page.rows))
    × (view.live_evicted ≡ saturating_add evicted removed)
    × (view.page.columns ≡ page.columns)
    × (too_much view.page ≡ false)

Rolled-by :
    (page : Page) (rows : List Row) (evicted : ℕ) (kept : List Row × ℕ) (view view' : View)
    → Trimmed (batch_page page) (length rows) (rows ++ page.rows) kept
    → view.page ≡ with_rows (batch_page page) kept.0
    → view.live_evicted ≡ saturating_add evicted kept.1
    → view'.page ≡ view.page
    → view'.live_evicted ≡ view.live_evicted
    → Rolled page rows evicted view'
Rolled-by page rows evicted kept view view' t p l e e' =
    let same = e ∙ p in
    (
      kept.1,
      t.0,
      ap (λ (q : Page). q.rows) same ∙ t.1,
      e' ∙ l,
      ap (λ (q : Page). q.columns) same,
      rw (same) t.2,
    )

at_last_pages :
    (was_last : Bool) (old view : View)
    → view.previous ≡ old.previous
    → view.offset ≡ old.offset
    → ((at_last was_last view).previous ≡ old.previous)
      × ((at_last was_last view).offset ≡ old.offset)
at_last_pages false old view p l = (p, l)
at_last_pages true old view p l = (p, l)

show_batch-pages :
    (changed : Bool) (keep : Option ℕ) (was_last : Bool) (view : View) {view' : View}
    → show_batch changed keep was_last view ≡ ok view'
    → (view'.previous ≡ view.previous) × (view'.offset ≡ view.offset)
unfolding show_batch
show_batch-pages false keep was_last view e = (
  ap (λ (v : View). v.previous) (sym (ok-injective e)),
  ap (λ (v : View). v.offset) (sym (ok-injective e)),
)
show_batch-pages true keep was_last view e =
    let built = >>=-eq-ok (rebuild keep view) _ e in
    let same = rebuild-SamePage keep view built.1 in
    subst (λ v. (v.previous ≡ view.previous) × (v.offset ≡ view.offset)) (ok-injective built.2)
      (at_last_pages was_last view built.0 same.3 same.4)

-- A batch leaves the bookmarks alone.
pub append_batch-pages :
    (reset : Bool) (page : Page) (view : View) {view' : View}
    → append_batch reset page view ≡ ok view'
    → (view'.previous ≡ view.previous) × (view'.offset ≡ view.offset)
unfolding append_batch
append_batch-pages reset page view e =
    let kept = >>=-eq-ok (trim (batch_page page) (view.page.rows ++ page.rows)) _ e in
    show_batch-pages _ _ _
      (record view {
        live_evicted = saturating_add view.live_evicted kept.0.1;
        live = true;
        page = with_rows (batch_page page) kept.0.0;
      })
      kept.2

pub append_batch-Rolled :
    (reset : Bool) (page : Page) (view view' : View)
    → too_much (batch_page page) ≡ false
    → append_batch reset page view ≡ ok view'
    → Rolled page view.page.rows view.live_evicted view'
unfolding append_batch
append_batch-Rolled reset page view view' h e =
    let kept = trim_lem (batch_page page) view.page.rows page.rows h in
    let run = >>=-eq-ok (trim (batch_page page) (view.page.rows ++ page.rows)) _ e in
    let whole = ok-injective (sym run.1 ∙ kept.1) in
    let trimmed =
      subst (Trimmed (batch_page page) (length view.page.rows) (view.page.rows ++ page.rows))
        (sym whole) kept.2 in
    let after = record view {
      live_evicted = saturating_add view.live_evicted run.0.1;
      live = true;
      page = with_rows (batch_page page) run.0.0;
    } in
    let same = show_batch-page _ _ _ after run.2 in
    Rolled-by page view.page.rows view.live_evicted run.0 after view' trimmed refl refl same.0
      same.1
