-- ===== src/Text/Tests.antt =====
-- The text routines on concrete inputs.
use onetui.Base.{◌≡◌, refl, [], ◌∷◌, some, ok, panicked, arith}
use onetui.Text.{Text, str, trim, lines, split_once, rsplit_once, split_dots, parse_unsigned}
use onetui.Text.Payload.{decode_hex, decode_payload, hex_of}
use onetui.Text.Payload.Hex.{decode_hex-hex_of, decode_hex_panics}

trimmed : trim (str "  a b ") ≡ str "a b"
unfolding trim
trimmed = refl

broken_lines : lines (str "a\r\n\nb") ≡ str "a" ∷ [] ∷ str "b" ∷ []
unfolding lines
broken_lines = refl

last_slash : rsplit_once b'/' (str "a/b/3") ≡ some (str "a/b", str "3")
unfolding rsplit_once
last_slash = refl

plus_three : parse_unsigned 100 (str "+3") ≡ some 3
unfolding parse_unsigned
plus_three = refl

-- `u8::from_str_radix` takes a sign, so a plus sign stands for a high digit of zero.
signed_hex : decode_hex (str "+f") ≡ ok (15 ∷ [])
unfolding decode_hex onetui.Text.byte_len onetui.Text.Payload.hex_bytes onetui.Text.as_bytes
    onetui.Text.Payload.hex_pair
signed_hex = refl

decode_hex-hex_of_example : decode_hex (hex_of (255 ∷ 0 ∷ 10 ∷ [])) ≡ ok (255 ∷ 0 ∷ 10 ∷ [])
decode_hex-hex_of_example =
    decode_hex-hex_of (255 ∷ 0 ∷ 10 ∷ []) (omega arith, (omega arith, (omega arith, tt)))

decode_hex_panics_example : decode_hex (b'a' ∷ 233 ∷ b'b' ∷ []) ≡ panicked
unfolding onetui.Text.byte_len
decode_hex_panics_example =
    decode_hex_panics b'a' 233 (b'b' ∷ []) (omega arith) (omega arith) (omega arith) refl
