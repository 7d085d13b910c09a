-- ===== src/Kafka/Parse.antt =====
-- `parse` of `crates/kafka/src/statement.rs`.
pub mod Valid
use onetui.Base.{
  ℕ, zero, suc, ◌≡◌, Bool, true, false, ◌&&◌, ◌||◌, not, List, [], ◌∷◌, Option, none, some, ℤ, ◌==◌,
  leb, if◌then◌else◌, length, Outcome, ok, err, panicked, stuck, ◌>>=◌, ◌>>◌, ensure, ok_or,
}
use onetui.Text.{Text, str, text_eq, is_empty, first_line, trim, lines}
use onetui.Text.Words.{split_whitespace}
use onetui.Text.Headers.{body}
use onetui.Text.Payload.{PayloadError}
use onetui.Kafka.Statement.{
  Record, Payload, absent, null, text, Target, Statement, replay, produce, key_bytes, value_bytes,
}
use onetui.Kafka.Range.{
  Parsed, StatementError, no_verb, unknown_verb, no_topic, no_blank_line, unwanted_body,
  no_partition, negative, extra_words, bad_json, empty_record, keyless_tombstone, no_records,
  too_many, payload_error, nonnegative, range, target_of,
}

abbrev pub produce_records : ℕ
produce_records = 100

-- The crates the parser calls: `base64`, and `serde_json` into a record.
pub record Crates : Type 0 where
  pub base64_decode : Text → Option (List ℕ)
  pub from_str : Text → Option Record

abbrev pub from_payload : {A : Type 0} → Outcome PayloadError A → Parsed A
from_payload (ok a) = ok a
from_payload (err e) = err (payload_error e)
from_payload panicked = panicked
from_payload stuck = stuck

abbrev pub given : {A : Type 0} → Option A → Bool
given none = false
given (some a) = true

abbrev pub is_absent : Payload → Bool
is_absent absent = true
is_absent null = false
is_absent (text s) = false

abbrev pub is_null : Payload → Bool
is_null absent = false
is_null null = true
is_null (text s) = false

abbrev pub partition_ok : Option ℤ → Bool
partition_ok none = true
partition_ok (some p) = nonnegative p

-- A key or a value, and a key for a tombstone.
abbrev pub has_content : Record → Bool
has_content r = given (Record.key r) || not (is_absent (Record.value r))

abbrev pub is_keyed : Record → Bool
is_keyed r = not (not (given (Record.key r)) && is_null (Record.value r))

-- The checks of one record, decoding its key and value included.
unfoldable pub check_record : Crates → Record → Parsed Record
unfolding key_bytes value_bytes
check_record crates r =
    ensure (has_content r) empty_record
    >> (ensure (is_keyed r) keyless_tombstone
        >> (from_payload (key_bytes (Crates.base64_decode crates) r) >>= λ key.
            from_payload (value_bytes (Crates.base64_decode crates) r) >>= λ value.
            ensure (partition_ok (Record.partition r)) negative >> ok r))

unfoldable pub records_of : Crates → List Text → Parsed (List Record)
unfolding check_record
records_of crates [] = ok []
records_of crates (line ∷ rest) =
    let later = records_of crates rest in
    if is_empty (trim line)
    then later
    else (ok_or (Crates.from_str crates line) bad_json >>= λ r.
        check_record crates r >>= λ checked. later >>= λ records. ok (checked ∷ records))

abbrev pub nothing_left : List Text → Bool
nothing_left [] = true
nothing_left (word ∷ words) = false

unfoldable pub parse_produce : Crates → Target → List Text → Text → Parsed Statement
unfolding records_of lines
parse_produce crates target words text_ =
    ensure (nothing_left words) extra_words
    >> (records_of crates (lines text_) >>= λ records.
        ensure (not (length records == 0)) no_records
        >> (ensure (leb (length records) produce_records) too_many >> ok (produce target records)))

unfoldable pub parse_consume : Target → List Text → Text → Parsed Statement
unfolding range
parse_consume target words text_ = range words >>= λ read.
    ensure (is_empty (trim text_)) unwanted_body
    >> (ensure (given (Target.partition target)) no_partition >> ok (replay target read))

pub data Verb : Type 0 where
  consumes produces unknown : Verb

abbrev pub verb_of : Text → Verb
verb_of word =
    if text_eq word (str "CONSUME")
    then consumes
    else if text_eq word (str "PRODUCE")
    then produces
    else unknown

abbrev pub parse_verb : Crates → Verb → Target → List Text → Text → Parsed Statement
parse_verb crates consumes target words text_ = parse_consume target words text_
parse_verb crates produces target words text_ = parse_produce crates target words text_
parse_verb crates unknown target words text_ = err unknown_verb

unfoldable pub parse_words : Crates → List Text → Text → Parsed Statement
unfolding target_of parse_consume parse_produce
parse_words crates [] rest = err no_verb
parse_words crates (verb ∷ []) rest = err no_topic
parse_words crates (verb ∷ topic ∷ words) rest = target_of topic >>= λ target.
    body no_blank_line rest >>= λ text_. parse_verb crates (verb_of verb) target words text_

unfoldable pub parse : Crates → Text → Parsed Statement
unfolding parse_words split_whitespace
parse crates text_ = parse_words crates (split_whitespace (first_line text_).0) (first_line text_).1
