-- ===== src/Nats/Tests.antt =====
-- NATS statements on concrete inputs.
use onetui.Base.{◌≡◌, refl, Bool, true, [], ◌∷◌, none, some, ok, err}
use onetui.Text.{Text, str}
use onetui.Nats.Replay.{Replay, validate_subject, start_zero, end_before_start, subject_wildcard}
use onetui.Nats.Replay.Valid.{IsSubject, validate_subject-IsSubject}
use onetui.Nats.Parse.{Statement, produce, Crates, parse}
use onetui.Nats.Parse.Headers.{IsValid, parse-IsFit}

abbrev dated : Text → Bool
dated s = true

abbrev orders : Replay
orders = record {
  subject = str "orders.*";
  start_sequence = some 1;
  end_sequence = some 500;
  start_time = none;
}

orders_accepted : validate_subject (str "orders.*") ≡ ok tt
unfolding validate_subject onetui.Text.byte_len onetui.Text.text_eq
orders_accepted = refl

inner_wildcard : validate_subject (str "a.>.b") ≡ err subject_wildcard
unfolding validate_subject onetui.Text.byte_len onetui.Text.text_eq
inner_wildcard = refl

validate_subject-IsSubject_example : IsSubject (str "orders.*")
validate_subject-IsSubject_example = validate_subject-IsSubject (str "orders.*") orders_accepted

orders_replay :
    onetui.Nats.Replay.parse dated (str "orders.*" ∷ str "seq" ∷ str "1..500" ∷ []) ≡ ok orders
unfolding onetui.Nats.Replay.parse onetui.Text.byte_len onetui.Text.text_eq
orders_replay = refl

empty_range :
    onetui.Nats.Replay.parse dated (str "orders.*" ∷ str "seq" ∷ str "2..2" ∷ [])
    ≡ err end_before_start
unfolding onetui.Nats.Replay.parse onetui.Text.byte_len onetui.Text.text_eq
empty_range = refl

abbrev crates : Crates
crates = record { base64_decode = λ s. none; is_rfc3339 = dated }

abbrev sent : Statement
sent =
    produce (str "EVENTS") (str "orders.created") ((str "src", str "onetui") ∷ []) (104 ∷ 105 ∷ [])

two_headers :
    parse crates (str "PRODUCE EVENTS orders.created\nsrc: onetui\nOnetui-Encoding: hex\n\n6869")
    ≡ ok sent
unfolding parse onetui.Text.split_once onetui.Text.text_eq onetui.Text.trim onetui.Text.as_bytes
    onetui.Text.to_ascii_lowercase onetui.Text.Payload.decode_hex onetui.Text.byte_len
    onetui.Text.Payload.hex_bytes onetui.Text.Payload.hex_pair
two_headers = refl

parse-IsFit_example : IsValid sent
parse-IsFit_example =
    parse-IsFit crates
      (str "PRODUCE EVENTS orders.created\nsrc: onetui\nOnetui-Encoding: hex\n\n6869") two_headers
