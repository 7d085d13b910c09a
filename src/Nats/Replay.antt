-- ===== src/Nats/Replay.antt =====
-- `validate_subject` of `crates/nats/src/core_subscription.rs` and `Replay::parse` of `replay.rs`.
pub mod Valid
use onetui.Base.{
  ℕ, zero, suc, ◌+◌, ◌≡◌, ◌^◌, Bool, true, false, ◌&&◌, ◌||◌, not, List, [], ◌∷◌, Option, none,
  some, ◌==◌, ltb, leb, if◌then◌else◌, any, Outcome, ok, err, panicked, stuck, ◌>>=◌, ◌>>◌, ensure,
  ok_or,
}
use onetui.Text.{
  Text, str, text_eq, is_empty, byte_len, is_whitespace, is_control, parse_unsigned, split_dots,
}
use onetui.Text.Payload.{PayloadError}

pub data StatementError : Type 0 where
  no_verb unknown_verb no_stream no_subject subject_text subject_wildcard : StatementError
  no_span extra_words not_a_span bad_sequence no_start_time bad_time unknown_range : StatementError
  start_zero end_before_start no_blank_line unwanted_body : StatementError
  header_line header_name header_value repeated_encoding : StatementError
  payload_error : PayloadError → StatementError

abbrev pub Parsed : Type 0 → Type 0
Parsed A = Outcome StatementError A

abbrev extend_token : ℕ → List Text → List Text
extend_token c [] = (c ∷ []) ∷ []
extend_token c (token ∷ later) = (c ∷ token) ∷ later

-- `subject.split('.')`, which gives a token for no text as well.
unfoldable pub tokens : Text → List Text
tokens [] = [] ∷ []
tokens (c ∷ s) = let later = tokens s in if c == b'.' then [] ∷ later else extend_token c later

abbrev pub is_last : List Text → Bool
is_last [] = true
is_last (token ∷ later) = false

abbrev pub is_wild : ℕ → Bool
is_wild c = c == b'*' || c == b'>'

unfoldable pub token_ok : Text → List Text → Bool
token_ok token later =
    not (is_empty token)
    && (text_eq token (str "*")
        || text_eq token (str ">") && is_last later
        || not (any is_wild token))

abbrev pub tokens_ok : List Text → Bool
tokens_ok [] = true
tokens_ok (token ∷ later) = token_ok token later && tokens_ok later

abbrev pub subject_ok : Text → Bool
subject_ok subject =
    not (is_empty subject)
    && leb (byte_len subject) 1024
    && not (any (λ c. is_whitespace c || is_control c) subject)

unfoldable pub validate_subject : Text → Parsed (Unit {0})
unfolding tokens token_ok
validate_subject subject =
    ensure (subject_ok subject) subject_text >> ensure (tokens_ok (tokens subject)) subject_wildcard

pub record Replay : Type 0 where
  pub subject : Text
  pub start_sequence : Option ℕ
  pub end_sequence : Option ℕ
  pub start_time : Option Text

-- A `u64`, or none for no text.
unfoldable pub sequence : Text → Parsed (Option ℕ)
unfolding parse_unsigned
sequence [] = ok none
sequence (c ∷ s) = ok_or (parse_unsigned (2 ^ 64) (c ∷ s)) bad_sequence >>= λ n. ok (some n)

-- `is_rfc3339` is the `async_nats` crate's reader of a time.
abbrev pub replay_of : (Text → Bool) → Text → Text → Text → Option ℕ → Parsed Replay
replay_of is_rfc3339 subject kind start end_sequence =
    if text_eq kind (str "seq")
    then (sequence start >>= λ start_sequence. ok record {
      subject = subject;
      start_sequence = start_sequence;
      end_sequence = end_sequence;
      start_time = none;
    })
    else if text_eq kind (str "time")
    then ensure (not (is_empty start)) no_start_time
      >> (ensure (is_rfc3339 start) bad_time
          >> ok record {
            subject = subject;
            start_sequence = none;
            end_sequence = end_sequence;
            start_time = some start;
          })
    else err unknown_range

abbrev pub span_of : (Text → Bool) → Text → Text → Text × Text → Parsed Replay
span_of is_rfc3339 subject kind (start, end) =
    sequence end >>= λ end_sequence. replay_of is_rfc3339 subject kind start end_sequence

unfoldable pub range_of : (Text → Bool) → Text → List Text → Parsed Replay
unfolding sequence split_dots
range_of is_rfc3339 subject [] =
    ok record { subject = subject; start_sequence = none; end_sequence = none; start_time = none }
range_of is_rfc3339 subject (kind ∷ []) = err no_span
range_of is_rfc3339 subject (kind ∷ span ∷ []) =
    ok_or (split_dots span) not_a_span >>= span_of is_rfc3339 subject kind
range_of is_rfc3339 subject (kind ∷ span ∷ word ∷ words) = err extra_words

abbrev pub positive : Option ℕ → Bool
positive none = true
positive (some n) = ltb 0 n

abbrev pub or_zero : Option ℕ → ℕ
or_zero none = 0
or_zero (some n) = n

abbrev pub exceeds : Option ℕ → Option ℕ → Bool
exceeds none start = true
exceeds (some n) start = ltb (or_zero start) n

abbrev pub checked : Replay → Parsed Replay
checked replay =
    ensure (positive (Replay.start_sequence replay)) start_zero
    >> (ensure (exceeds (Replay.end_sequence replay) (Replay.start_sequence replay))
          end_before_start
        >> ok replay)

abbrev pub subject_and_rest : List Text → Text × List Text
subject_and_rest [] = (str ">", [])
subject_and_rest (subject ∷ words) = (subject, words)

abbrev pub parse_subject : (Text → Bool) → Text × List Text → Parsed Replay
parse_subject is_rfc3339 (subject, words) =
    validate_subject subject >> (range_of is_rfc3339 subject words >>= checked)

-- `Replay::parse` on the words behind the stream.
unfoldable pub parse : (Text → Bool) → List Text → Parsed Replay
unfolding validate_subject range_of
parse is_rfc3339 words = parse_subject is_rfc3339 (subject_and_rest words)
