-- ===== src/Kafka/Tests.antt =====
-- Kafka statements on concrete inputs.
use onetui.Base.{◌≡◌, refl, [], ◌∷◌, none, some, pos, ok, err}
use onetui.Text.{Text, str}
use onetui.Kafka.Statement.{Record, text, null, Target, Replay, produce}
use onetui.Kafka.Range.{range, target_of, start_exceeds_end, keyless_tombstone, no_partition}
use onetui.Kafka.Range.Valid.{IsTarget, target_of-IsTarget}
use onetui.Kafka.Parse.{Crates, parse}
use onetui.Kafka.Parse.Valid.{IsValid, parse-IsStatement}

abbrev offsets : Replay
offsets = record { offset = some (pos 123); timestamp_ms = none; end_offset = some (pos 250) }

offset_range : range (str "offsets" ∷ str "123..250" ∷ []) ≡ ok offsets
unfolding range onetui.Text.text_eq
offset_range = refl

reversed_range : range (str "offsets" ∷ str "9..2" ∷ []) ≡ err start_exceeds_end
unfolding range onetui.Text.text_eq
reversed_range = refl

abbrev events : Target
events = record { topic = str "events"; partition = some (pos 3) }

events_target : target_of (str "events/3") ≡ ok events
unfolding target_of onetui.Text.parse_signed onetui.Text.text_eq onetui.Text.byte_len
    onetui.Text.as_bytes
events_target = refl

target_of-IsTarget_example : IsTarget events
target_of-IsTarget_example = target_of-IsTarget (str "events/3") events_target

abbrev value_only : Record
value_only = record {
  key = none;
  value = text (str "1");
  partition = none;
  headers = none;
  key_encoding = none;
  value_encoding = none;
}

abbrev tombstone : Record
tombstone = record {
  key = none;
  value = null;
  partition = none;
  headers = none;
  key_encoding = none;
  value_encoding = none;
}

abbrev crates : Crates
crates = record { base64_decode = λ s. none; from_str = λ s. some value_only }

abbrev events_only : Target
events_only = record { topic = str "events"; partition = none }

two_records :
    parse crates (str "PRODUCE events\n\n{}\n\n{}\n")
    ≡ ok (produce events_only (value_only ∷ value_only ∷ []))
unfolding parse onetui.Text.split_once onetui.Text.text_eq onetui.Text.byte_len onetui.Text.as_bytes
    onetui.Text.trim
two_records = refl

parse-IsStatement_example : IsValid crates (produce events_only (value_only ∷ value_only ∷ []))
parse-IsStatement_example =
    parse-IsStatement crates (str "PRODUCE events\n\n{}\n\n{}\n") two_records

abbrev null_crates : Crates
null_crates = record { base64_decode = λ s. none; from_str = λ s. some tombstone }

unkeyed : parse null_crates (str "PRODUCE events\n\n{}") ≡ err keyless_tombstone
unfolding parse onetui.Text.split_once onetui.Text.text_eq onetui.Text.byte_len onetui.Text.as_bytes
    onetui.Text.trim
unkeyed = refl

no_place : parse crates (str "CONSUME events") ≡ err no_partition
unfolding parse onetui.Text.split_once onetui.Text.text_eq onetui.Text.byte_len onetui.Text.as_bytes
    onetui.Text.trim
no_place = refl
