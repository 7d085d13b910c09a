-- ===== src/Text/Payload.antt =====
-- How the statement editors of RabbitMQ and NATS turn payload text into bytes.
pub mod Hex
use onetui.Base.{
  ℕ, zero, suc, ◌+◌, ◌-◌, ◌*◌, ◌/◌, ◌%◌, ◌≤◌, ◌<◌, ◌≡◌, refl, ap, ◌∙◌, Bool, true, false, ◌&&◌,
  ◌||◌, List, [], ◌∷◌, ◌++◌, Option, none, some, All, length, ltb, leb, ◌==◌, if◌then◌else◌,
  Outcome, ok, err, panicked, ensure, ◌>>=◌, ◌>>◌, arith, ok_or, >>=-eq-ok, ok-injective,
  Bool-cases, inl, inr, leb→le,
}
use onetui.Text.{Text, str, text_eq, as_bytes, byte_len, to_ascii_lowercase}
use onetui.Text.Words.{split_whitespace}

pub data PayloadError : Type 0 where
  base64 odd_hex hex_digit unknown_encoding : PayloadError

abbrev pub concat : List Text → Text
concat [] = []
concat (w ∷ ws) = w ++ concat ws

-- `payload.split_whitespace().collect()`.
abbrev pub compact : Text → Text
compact payload = concat (split_whitespace payload)

unfoldable pub digit : ℕ → Option ℕ
digit c =
    if leb b'0' c && leb c b'9'
    then some (c - b'0')
    else if leb b'a' c && leb c b'f'
    then some (c - b'a' + 10)
    else if leb b'A' c && leb c b'F'
    then some (c - b'A' + 10)
    else none

abbrev two_digits : Option ℕ → Option ℕ → Option ℕ
two_digits none low = none
two_digits (some high) none = none
two_digits (some high) (some low) = some (high * 16 + low)

-- `u8::from_str_radix` on two bytes, which takes a plus sign and one digit too.
unfoldable pub hex_pair : ℕ → ℕ → Option ℕ
unfolding digit
hex_pair a b = if a == b'+' then digit b else two_digits (digit a) (digit b)

-- A byte inside a character, where `str` cannot be sliced.
abbrev pub continues : ℕ → Bool
continues b = leb 128 b && ltb b 192

abbrev pub starts_inside : List ℕ → Bool
starts_inside [] = false
starts_inside (b ∷ bs) = continues b

-- The bytes of the text in steps of two. `&compact[i..i + 2]` panics where either end is inside a
-- character, and past the end of the text.
unfoldable pub hex_bytes : List ℕ → Outcome PayloadError (List ℕ)
hex_bytes [] = ok []
hex_bytes (a ∷ []) = panicked
hex_bytes (a ∷ b ∷ rest) =
    let later = hex_bytes rest in
    if continues a || starts_inside rest
    then panicked
    else ok_or (hex_pair a b) hex_digit >>= λ byte. later >>= λ bytes. ok (byte ∷ bytes)

unfoldable pub decode_hex : Text → Outcome PayloadError (List ℕ)
decode_hex text = do ensure (byte_len text % 2 == 0) odd_hex; hex_bytes (as_bytes text)

-- How a payload is written.
pub data Encoding : Type 0 where
  plain base64_text hex_text other : Encoding

unfoldable pub encoding_named : Text → Encoding
encoding_named name =
    if text_eq name (str "utf-8") || text_eq name (str "utf8") || text_eq name (str "none")
    then plain
    else if text_eq name (str "base64")
    then base64_text
    else if text_eq name (str "hex")
    then hex_text
    else other

abbrev pub decode_as : (Text → Option (List ℕ)) → Text → Encoding → Outcome PayloadError (List ℕ)
decode_as base64_decode payload plain = ok (as_bytes payload)
decode_as base64_decode payload base64_text = ok_or (base64_decode (compact payload)) base64
decode_as base64_decode payload hex_text = decode_hex (compact payload)
decode_as base64_decode payload other = err unknown_encoding

-- `base64_decode` is the `base64` crate's, on the text without whitespace.
unfoldable pub decode_payload :
    (Text → Option (List ℕ)) → Text → Option Text → Outcome PayloadError (List ℕ)
unfolding encoding_named
decode_payload base64_decode payload none = ok (as_bytes payload)
decode_payload base64_decode payload (some encoding) =
    decode_as base64_decode payload (encoding_named (to_ascii_lowercase encoding))

-- Bytes as lower-case hex digits.
unfoldable pub hex_digit_of : ℕ → ℕ
hex_digit_of n = if ltb n 10 then n + b'0' else n - 10 + b'a'

unfoldable pub hex_of : List ℕ → Text
hex_of [] = []
hex_of (b ∷ bs) = hex_digit_of (b / 16) ∷ hex_digit_of (b % 16) ∷ hex_of bs
