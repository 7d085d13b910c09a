-- ===== src/Kafka/Range.antt =====
-- `range` and `target_of` of `crates/kafka/src/statement.rs`: what the verb line addresses.
pub mod Valid
use onetui.Base.{
  ℕ, zero, suc, ◌+◌, ◌≡◌, ◌^◌, Bool, true, false, ◌&&◌, ◌||◌, not, List, [], ◌∷◌, Option, none,
  some, ℤ, pos, negsuc, ◌==◌, leb, if◌then◌else◌, Outcome, ok, err, panicked, stuck, ◌>>=◌, ◌>>◌,
  ensure, ok_or,
}
use onetui.Text.{Text, str, text_eq, is_empty, parse_signed, rsplit_once, split_dots}
use onetui.Text.Payload.{PayloadError}
use onetui.Kafka.Statement.{Target, Replay, valid_topic}

pub data StatementError : Type 0 where
  no_verb unknown_verb no_topic bad_partition bad_topic no_blank_line unwanted_body : StatementError
  no_partition no_span extra_words not_a_span bad_bound negative unknown_range : StatementError
  start_exceeds_end bad_json empty_record keyless_tombstone no_records too_many : StatementError
  payload_error : PayloadError → StatementError

abbrev pub Parsed : Type 0 → Type 0
Parsed A = Outcome StatementError A

abbrev pub nonnegative : ℤ → Bool
nonnegative (pos n) = true
nonnegative (negsuc n) = false

-- A bound of a range: an `i64` that is not negative, or none.
unfoldable pub bound : Text → Parsed (Option ℤ)
unfolding parse_signed
bound [] = ok none
bound (c ∷ s) = ok_or (parse_signed (2 ^ 63) (c ∷ s)) bad_bound >>= λ value.
    ensure (nonnegative value) negative >> ok (some value)

abbrev pub leq : ℤ → ℤ → Bool
leq (pos m) (pos n) = leb m n
leq (pos m) (negsuc n) = false
leq (negsuc m) (pos n) = true
leq (negsuc m) (negsuc n) = leb n m

abbrev pub ordered : Option ℤ → Option ℤ → Bool
ordered (some start) (some end) = leq start end
ordered none end = true
ordered (some start) none = true

-- The range of a kind, once its last offset is read.
abbrev pub replay_of : Text → Text → Option ℤ → Parsed Replay
replay_of kind start end_offset =
    if text_eq kind (str "offsets")
    then (bound start >>= λ offset.
        ok record { offset = offset; timestamp_ms = none; end_offset = end_offset })
    else if text_eq kind (str "time")
    then (bound start >>= λ timestamp.
        ok record { offset = none; timestamp_ms = timestamp; end_offset = end_offset })
    else err unknown_range

abbrev pub span_of : Text → Text × Text → Parsed Replay
span_of kind (start, end) = bound end >>= λ end_offset.
    replay_of kind start end_offset >>= λ replay.
    ensure (ordered (Replay.offset replay) (Replay.end_offset replay)) start_exceeds_end
    >> ok replay

abbrev pub whole : Replay
whole = record { offset = none; timestamp_ms = none; end_offset = none }

-- The words behind the target: none for the whole partition, or a kind and a span.
unfoldable pub range : List Text → Parsed Replay
unfolding bound split_dots
range [] = ok whole
range (kind ∷ []) = err no_span
range (kind ∷ span ∷ []) = ok_or (split_dots span) not_a_span >>= span_of kind
range (kind ∷ span ∷ word ∷ words) = err extra_words

abbrev pub topic_and_partition : Text → Option (Text × Text) → Parsed (Text × Option ℤ)
topic_and_partition whole_text none = ok (whole_text, none)
topic_and_partition whole_text (some (topic, digits)) =
    ok_or (parse_signed (2 ^ 31) digits) bad_partition >>= λ partition.
    ensure (nonnegative partition) negative >> ok (topic, some partition)

unfoldable pub target_of : Text → Parsed Target
unfolding rsplit_once valid_topic
target_of s = topic_and_partition s (rsplit_once b'/' s) >>= λ named.
    ensure (valid_topic named.0) bad_topic >> ok record { topic = named.0; partition = named.1 }
