-- ===== src/Kafka/Statement.antt =====
-- The data of `crates/kafka/src/statement.rs`, its records and their decoded keys and values.
use onetui.Base.{
  ℕ, Bool, ◌&&◌, ◌||◌, not, List, [], Option, none, some, ℤ, ◌==◌, leb, all, Outcome, ok, ◌>>=◌,
  ok_or,
}
use onetui.Text.{Text, str, text_eq, as_bytes, byte_len}
use onetui.Text.Payload.{PayloadError, compact, decode_hex}

pub data Encoding : Type 0 where
  utf8 base64 hex : Encoding

pub data Payload : Type 0 where
  absent null : Payload
  text : Text → Payload

pub record Record : Type 0 where
  pub key : Option Text
  pub value : Payload
  pub partition : Option ℤ
  pub headers : Option (List (Text × Text))
  pub key_encoding : Option Encoding
  pub value_encoding : Option Encoding

pub record Target : Type 0 where
  pub topic : Text
  pub partition : Option ℤ

pub record Replay : Type 0 where
  pub offset : Option ℤ
  pub timestamp_ms : Option ℤ
  pub end_offset : Option ℤ

pub data Statement : Type 0 where
  replay : Target → Replay → Statement
  produce : Target → List Record → Statement

abbrev is_alphanumeric : ℕ → Bool
is_alphanumeric c =
    (leb b'0' c && leb c b'9') || (leb b'A' c && leb c b'Z') || (leb b'a' c && leb c b'z')

unfoldable pub valid_topic : Text → Bool
valid_topic topic =
    not (text_eq topic [] || text_eq topic (str ".") || text_eq topic (str ".."))
    && leb (byte_len topic) 249
    && all (λ b. is_alphanumeric b || b == b'.' || b == b'_' || b == b'-') (as_bytes topic)

-- `Encoding::decode`, where `base64_decode` is the `base64` crate's.
unfoldable pub decode : (Text → Option (List ℕ)) → Encoding → Text → Outcome PayloadError (List ℕ)
unfolding decode_hex
decode base64_decode utf8 s = ok (as_bytes s)
decode base64_decode base64 s = ok_or (base64_decode (compact s)) PayloadError.base64
decode base64_decode hex s = decode_hex (compact s)

abbrev or_utf8 : Option Encoding → Encoding
or_utf8 none = utf8
or_utf8 (some encoding) = encoding

abbrev kept : Outcome PayloadError (List ℕ) → Outcome PayloadError (Option (List ℕ))
kept decoded = decoded >>= λ bytes. ok (some bytes)

abbrev key_of :
    (Text → Option (List ℕ))
    → Option Encoding
    → Option Text
    → Outcome PayloadError (Option (List ℕ))
key_of base64_decode encoding none = ok none
key_of base64_decode encoding (some s) = kept (decode base64_decode (or_utf8 encoding) s)

abbrev value_of :
    (Text → Option (List ℕ)) → Option Encoding → Payload → Outcome PayloadError (Option (List ℕ))
value_of base64_decode encoding absent = ok none
value_of base64_decode encoding null = ok none
value_of base64_decode encoding (text s) = kept (decode base64_decode (or_utf8 encoding) s)

-- `Record::key`: no bytes for a record without a key.
unfoldable pub key_bytes :
    (Text → Option (List ℕ)) → Record → Outcome PayloadError (Option (List ℕ))
unfolding decode
key_bytes base64_decode record_ =
    key_of base64_decode (Record.key_encoding record_) (Record.key record_)

-- `Record::value`: no bytes for a tombstone.
unfoldable pub value_bytes :
    (Text → Option (List ℕ)) → Record → Outcome PayloadError (Option (List ℕ))
unfolding decode
value_bytes base64_decode record_ =
    value_of base64_decode (Record.value_encoding record_) (Record.value record_)
