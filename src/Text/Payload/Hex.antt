-- ===== src/Text/Payload/Hex.antt =====
-- Hex payloads: bytes as digits, and where a text is sliced inside a character.
use onetui.Base.{
  ℕ, ◌+◌, ◌*◌, ◌/◌, ◌%◌, ◌≤◌, ◌<◌, ◌≡◌, refl, ap, ◌∙◌, false, List, [], ◌∷◌, some, All, length,
  length-append, ◌==◌, ok, panicked, arith,
}
use onetui.Text.{Text, as_bytes, byte_len, utf8, utf8_len}
use onetui.Text.Payload.{
  digit, hex_pair, continues, starts_inside, hex_bytes, decode_hex, hex_digit_of, hex_of,
}

digit-hex_digit_of : (n : ℕ) → n < 16 → digit (hex_digit_of n) ≡ some n
unfolding digit hex_digit_of
digit-hex_digit_of n h = ground arith

hex_digit_of_range : (n : ℕ) → n < 16 → (48 ≤ hex_digit_of n) × (hex_digit_of n < 128)
unfolding hex_digit_of
hex_digit_of_range n h = ground arith

hex_pair-digits :
    (a b h l : ℕ)
    → (a == b'+') ≡ false
    → digit a ≡ some h
    → digit b ≡ some l
    → hex_pair a b ≡ some (h * 16 + l)
unfolding hex_pair
hex_pair-digits a b h l no_plus ea eb = rw (no_plus, ea, eb)

hex_pair-hex_digit_of :
    (n : ℕ) → n < 256 → hex_pair (hex_digit_of (n / 16)) (hex_digit_of (n % 16)) ≡ some n
hex_pair-hex_digit_of n h =
    let whole : n / 16 * 16 + n % 16 ≡ n = omega arith in
    let above = (hex_digit_of_range (n / 16) (omega arith)).0 in
    hex_pair-digits (hex_digit_of (n / 16)) (hex_digit_of (n % 16)) (n / 16) (n % 16) (ground arith)
      (digit-hex_digit_of (n / 16) (omega arith)) (digit-hex_digit_of (n % 16) (omega arith))
    ∙ ap some whole

-- Digits are ASCII, so their bytes are themselves.
pub as_bytes-ascii : (s : Text) → All (λ c. c < 128) s → as_bytes s ≡ s
unfolding as_bytes
as_bytes-ascii [] h = refl
as_bytes-ascii (c ∷ s) h = ground (arith, h.0, as_bytes-ascii s h.1)

pub byte_len-as_bytes : (s : Text) → length (as_bytes s) ≡ byte_len s
unfolding as_bytes byte_len
byte_len-as_bytes [] = refl
byte_len-as_bytes (c ∷ s) =
    let one : length (utf8 c) ≡ utf8_len c = ground arith in
    omega (arith, length-append (utf8 c) (as_bytes s), byte_len-as_bytes s)

hex_of-ascii : (bs : List ℕ) → All (λ b. b < 256) bs → All (λ c. c < 128) (hex_of bs)
unfolding hex_of
hex_of-ascii [] h = tt
hex_of-ascii (b ∷ bs) h = (
  (hex_digit_of_range (b / 16) (omega arith)).1,
  ((hex_digit_of_range (b % 16) (omega arith)).1, hex_of-ascii bs h.1),
)

length-hex_of : (bs : List ℕ) → length (hex_of bs) ≡ 2 * length bs
unfolding hex_of
length-hex_of [] = refl
length-hex_of (b ∷ bs) = omega (arith, length-hex_of bs)

pub byte_len-hex_of : (bs : List ℕ) → All (λ b. b < 256) bs → byte_len (hex_of bs) ≡ 2 * length bs
byte_len-hex_of bs h =
    let ascii = as_bytes-ascii (hex_of bs) (hex_of-ascii bs h) in
    omega (arith, byte_len-as_bytes (hex_of bs), ap length ascii, length-hex_of bs)

pub starts_inside-ascii : (s : List ℕ) → All (λ c. c < 128) s → starts_inside s ≡ false
starts_inside-ascii [] h = refl
starts_inside-ascii (c ∷ s) h = ground arith

hex_bytes-hex_of : (bs : List ℕ) → All (λ b. b < 256) bs → hex_bytes (hex_of bs) ≡ ok bs
unfolding hex_bytes hex_of
hex_bytes-hex_of [] h = refl
hex_bytes-hex_of (b ∷ bs) h =
    let low = (hex_digit_of_range (b / 16) (omega arith)).1 in
    let outside : continues (hex_digit_of (b / 16)) ≡ false = ground arith in
    rw (
      outside,
      starts_inside-ascii (hex_of bs) (hex_of-ascii bs h.1),
      hex_pair-hex_digit_of b h.0,
      hex_bytes-hex_of bs h.1,
    )

-- Bytes written as hex digits decode to themselves.
pub decode_hex-hex_of : (bs : List ℕ) → All (λ b. b < 256) bs → decode_hex (hex_of bs) ≡ ok bs
unfolding decode_hex
decode_hex-hex_of bs h =
    let ascii = as_bytes-ascii (hex_of bs) (hex_of-ascii bs h) in
    let size = byte_len-hex_of bs h in
    let even : byte_len (hex_of bs) % 2 ≡ 0 = omega arith in
    rw (even, ascii) (hex_bytes-hex_of bs h)

-- A text whose first character is one byte and whose second is two panics the hex decoder when its
-- length in bytes is even, since the slice of the first two bytes ends inside the second character.
pub decode_hex_panics :
    (a c : ℕ) (rest : Text)
    → a < 128
    → 128 ≤ c
    → c < 2048
    → byte_len (a ∷ c ∷ rest) % 2 ≡ 0
    → decode_hex (a ∷ c ∷ rest) ≡ panicked
unfolding decode_hex hex_bytes as_bytes
decode_hex_panics a c rest ha hc hc' even = rw even (ground arith)
