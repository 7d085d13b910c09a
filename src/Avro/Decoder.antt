-- ===== src/Avro/Decoder.antt =====
-- `decode` of crates/avro/src/avro.rs, the scan and then the native reader; and of `Decoder::decode`
-- in lib.rs the bound on the text of a resolution error.
pub mod Results
use onetui.Base.{
  ℕ, zero, suc, ◌+◌, ◌-◌, ◌≤◌, ◌<◌, Bool, true, false, not, ◌&&◌, List, [], ◌∷◌, ◌++◌, Option, none,
  some, length, get_elem?, Outcome, ok, err, ensure, ◌>>=◌, ◌>>◌, leb, ltb, if◌then◌else◌,
}
use onetui.Base
use onetui.Avro.{Error, trailing_bytes, max_error_bytes}
use onetui.Avro.Budget.{Budget, fresh}
use onetui.Avro.Schema.{Schema, Names, Text}
use onetui.Avro.Scan.{scan}

-- `apache_avro`: resolving a schema with its references, and reading a datum.
pub record Library : Type 1 where
  pub Value : Type 0
  pub names_of : List Schema → Schema → Outcome Error Names
  pub read_value : List Schema → Schema → List ℕ → Outcome Error (Value × List ℕ)

abbrev pub is_empty {ℓ} : {A : Type ℓ} → List A → Bool
is_empty [] = true
is_empty (x ∷ xs) = false

-- `str::floor_char_boundary` on bytes: the last index up to `i` that starts a character or ends the
-- text. A byte from 0x80 to 0xbf continues a character.
abbrev pub continues : Option ℕ → Bool
continues none = false
continues (some b) = leb 128 b && ltb b 192

unfoldable pub floor_char_boundary : Text → ℕ → ℕ
floor_char_boundary text zero = 0
floor_char_boundary text (suc i) =
    let below = floor_char_boundary text i in
    if leb (length text) (suc i)
    then length text
    else if continues (get_elem? text (suc i))
    then below
    else suc i

-- The three dots of `...`.
abbrev pub dots : Text
dots = b'.' ∷ b'.' ∷ b'.' ∷ []

-- The bounded text of a resolution error.
unfoldable pub bound_error : Text → Text
bound_error text =
    if ltb max_error_bytes (length text)
    then Base.take (floor_char_boundary text (max_error_bytes - 3)) text ++ dots
    else text

module _ (lib : Library) where
  open lib use {Value, names_of, read_value}

  unfoldable pub decode : Schema → List Schema → List ℕ → Outcome Error Value
  decode schema references bytes = do
    names ← names_of references schema
    scanned ← scan names 34 schema none 0 (record { input = bytes; budget = fresh })
    ensure (is_empty (scanned.1).input) trailing_bytes
    read ← read_value references schema bytes
    ensure (is_empty read.1) trailing_bytes
    ok read.0
