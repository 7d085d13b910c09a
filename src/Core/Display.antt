-- ===== src/Core/Display.antt =====
-- `display` of `crates/core/src/lib.rs`: escapes the characters that would steer a terminal.
pub mod Safe
use onetui.Base.{
  ℕ, zero, suc, ◌+◌, ◌-◌, ◌*◌, ◌/◌, ◌%◌, ◌≤◌, ◌<◌, ◌≡◌, refl, ◌∙◌, Bool, true, false, ◌&&◌, ◌||◌,
  not, List, [], ◌∷◌, ◌++◌, All, leb, ltb, ◌==◌, if◌then◌else◌, arith, Bool-cases, inl, inr,
}
use onetui.Text.{Text, is_control}
use onetui.Text.Payload.{hex_digit_of}

-- The bidirectional controls and line separators that are escaped too.
abbrev steers : ℕ → Bool
steers c =
    c == 0x61c
    || c == 0x200e
    || c == 0x200f
    || (leb 0x2028 c && leb c 0x202e)
    || (leb 0x2066 c && leb c 0x2069)

unfoldable pub unsafe_char : ℕ → Bool
unsafe_char c = is_control c || steers c

-- The digits in base 16 of a code point, which has six at most.
unfoldable pub hex_digits : ℕ → ℕ → Text
unfolding hex_digit_of
hex_digits zero n = []
hex_digits (suc fuel) n =
    let front = hex_digits fuel (n / 16) in
    if ltb n 16 then hex_digit_of n ∷ [] else front ++ hex_digit_of (n % 16) ∷ []

-- `char::escape_default`.
unfoldable pub escape_default : ℕ → Text
unfolding hex_digits
escape_default c =
    if c == 9
    then b'\\' ∷ b't' ∷ []
    else if c == 13
    then b'\\' ∷ b'r' ∷ []
    else if c == 10
    then b'\\' ∷ b'n' ∷ []
    else if c == b'\'' || c == b'"' || c == b'\\'
    then b'\\' ∷ c ∷ []
    else if leb 32 c && leb c 126
    then c ∷ []
    else b'\\' ∷ b'u' ∷ b'{' ∷ (hex_digits 6 c ++ b'}' ∷ [])

unfoldable pub display : Text → Text
unfolding unsafe_char escape_default
display [] = []
display (c ∷ s) =
    let rest = display s in if unsafe_char c then escape_default c ++ rest else c ∷ rest
