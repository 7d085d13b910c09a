-- ===== src/Core.antt =====
-- `crates/core/src/lib.rs` and `value.rs`: values, pages, and text made safe for a terminal.
pub mod Display
pub mod Tests
use onetui.Base.{ℕ, ◌+◌, ◌*◌, List, [], ◌∷◌, Bool, true, false, Option, none, some, length}
use onetui.Text.{Text, as_bytes, byte_len}

pub data Value : Type 0 where
  text json : Text → Value
  bytes : List ℕ → Value

abbrev pub page_rows : ℕ
page_rows = 100

abbrev pub page_bytes : ℕ
page_bytes = 1024 * 1024

-- `Value::bytes(..).len()`.
unfoldable pub value_bytes : Value → ℕ
value_bytes (text s) = byte_len s
value_bytes (json s) = byte_len s
value_bytes (bytes b) = length b

pub record Resource : Type 0 where
  pub id : Text
  pub path : List Text

pub record Row : Type 0 where
  pub cells : List (Option Value)
  pub target : Option Resource

pub record Column : Type 0 where
  pub name : Text
  pub datatype : Text

pub record Page : Type 0 where
  pub rows : List Row
  pub next : Bool
  pub columns : List Column
  pub continuation : Option Text
  pub notice : Text

abbrev pub sum_of {ℓ} : {A : Type ℓ} → (A → ℕ) → List A → ℕ
sum_of f [] = 0
sum_of f (x ∷ xs) = f x + sum_of f xs

abbrev or_zero {ℓ} : {A : Type ℓ} → (A → ℕ) → Option A → ℕ
or_zero f none = 0
or_zero f (some a) = f a

unfoldable pub row_bytes : Row → ℕ
unfolding value_bytes
row_bytes row =
    sum_of (or_zero value_bytes) (Row.cells row)
    + or_zero (λ target. sum_of byte_len (Resource.path target)) (Row.target row)

-- `Page::bytes`.
unfoldable pub page_size : Page → ℕ
unfolding row_bytes
page_size page =
    sum_of row_bytes (Page.rows page)
    + sum_of (λ c. byte_len (Column.name c) + byte_len (Column.datatype c)) (Page.columns page)
    + or_zero byte_len (Page.continuation page)
    + byte_len (Page.notice page)
