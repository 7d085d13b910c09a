-- ===== src/RabbitMq/Tests.antt =====
-- RabbitMQ statements, requests and responses on concrete inputs.
use onetui.Base.{
  ◌≡◌, ◌≤◌, refl, true, false, List, [], ◌∷◌, none, some, ok, panicked, Settles, arith, length, sym,
  ap, Option,
}
use onetui.Text.{byte_len, Text, str, text_eq, as_bytes, is_whitespace}
use onetui.RabbitMq.Statement.{Statement, publish, get, declare, delete, purge, raw, payload_error}
use onetui.RabbitMq.Parse.{parse}
use onetui.RabbitMq.Parse.Written.{Command, declare_object, written, parse-written}
use onetui.RabbitMq.Parse.Total.{parse-Settles}
use onetui.RabbitMq.Request.{Host, domain, outbound, outbound_to, Outbound, publish_body}
use onetui.RabbitMq.Request.Paths.{pushed_to, IsLawful, outbound_to-IsLawful}
use onetui.RabbitMq.Response.{
  Response, receive, body_limit, outcome, page, write, applied, rejected, QueryExecution,
  write_result,
}
use onetui.RabbitMq.Response.Answers.{Answers, receive-bounded, received-Answers}

abbrev crates : onetui.RabbitMq.Parse.Crates
crates = record { base64_decode = λ s. none; method_from_bytes = λ s. some s }

empty_key :
    parse crates (str "PUBLISH / amq.fanout \"\"\nonetui-encoding: hex\n\n68 69")
    ≡ ok (publish (str "/") (str "amq.fanout") [] (104 ∷ 105 ∷ []))
unfolding parse onetui.Text.split_once text_eq onetui.Text.to_ascii_lowercase onetui.Text.trim
    onetui.Text.Payload.decode_hex onetui.Text.byte_len onetui.Text.Payload.hex_bytes as_bytes
    onetui.Text.Payload.hex_pair
empty_key = refl

read_two : parse crates (str "GET / jobs 2 ack") ≡ ok (get (str "/") (str "jobs") 2 false)
unfolding parse onetui.Text.split_once text_eq onetui.Text.parse_unsigned onetui.Text.trim
read_two = refl

-- Two digits of hex text that a character of two bytes straddles.
straddled : parse crates (str "PUBLISH / e k\nonetui-encoding: hex\n\naéb") ≡ panicked
unfolding parse onetui.Text.split_once text_eq onetui.Text.to_ascii_lowercase onetui.Text.trim
    onetui.Text.Payload.decode_hex onetui.Text.byte_len onetui.Text.Payload.hex_bytes as_bytes
straddled = refl

abbrev policy : Command
policy = declare_object (str "policy") (str "/") (str "ha") (str "{}")

parse-written_example :
    parse crates (written policy) ≡ ok (declare (str "policy") (str "/") (str "ha") (str "{}"))
unfolding onetui.RabbitMq.Statement.scoped text_eq
parse-written_example =
    parse-written crates policy
      ((refl, (refl, (refl, (refl, (refl, (refl, tt)))))), (refl, tt), (refl, (refl, tt)), refl)

parse-Settles_example : Settles (parse crates (str "GET a"))
parse-Settles_example =
    parse-Settles crates (str "GET a")
      (omega arith, (omega arith, (omega arith, (omega arith, (omega arith, tt)))))

-- URLs held as the list of their segments.
abbrev web : onetui.RabbitMq.Request.Crates
web = record {
  Url = List Text;
  parse = λ s. some [];
  join = λ url path. some (path ∷ []);
  clear = λ url. some [];
  push = pushed_to;
  host = λ url. some (domain (str "localhost"));
  scheme = λ url. str "http";
  username = λ url. [];
  password = λ url. none;
  path = λ url. str "/";
  query = λ url. none;
  fragment = λ url. none;
  same_origin = λ url other. true;
  base64_encode = λ bytes. bytes;
}

abbrev purged : Outbound (List Text)
purged = record {
  method = str "DELETE";
  url = str "api" ∷ str "queues" ∷ str "jobs" ∷ str "contents" ∷ [];
  body = none;
}

-- The vhost `.` is ignored by `url`, so that the request names a queue `contents`.
abbrev dotted : Statement
dotted = purge (str ".") (str "jobs")

abbrev whole_path : List Text → List Text
whole_path url = url

abbrev or_root : Option (List Text) → List Text
or_root none = []
or_root (some url) = url

cleared :
    (url empty : List Text)
    → onetui.RabbitMq.Request.Crates.clear web url ≡ some empty
    → whole_path empty ≡ []
cleared url empty e = ap (λ (o : Option (List Text)). or_root o) (sym e)

purge_request : outbound_to web [] dotted ≡ ok purged
unfolding outbound_to byte_len text_eq
purge_request = refl

outbound_to-IsLawful_example :
    IsLawful web whole_path cleared (λ u name. refl) [] dotted (Outbound.url purged)
outbound_to-IsLawful_example =
    outbound_to-IsLawful web whole_path cleared (λ u name. refl) [] dotted purge_request

abbrev received : Response
received = record { status = 200; body = 1 ∷ 2 ∷ 3 ∷ [] }

two_chunks : receive 200 none (some (1 ∷ []) ∷ some (2 ∷ 3 ∷ []) ∷ []) ≡ ok received
unfolding receive
two_chunks = refl

receive-bounded_example : length (Response.body received) ≤ body_limit
receive-bounded_example =
    receive-bounded 200 none (some (1 ∷ []) ∷ some (2 ∷ 3 ∷ []) ∷ []) two_chunks

abbrev display_crates : onetui.RabbitMq.Response.Crates
display_crates = record {
  status_text = λ status. str "status";
  lossy = λ bytes. bytes;
  unrouted = λ body. false;
  from_slice = λ body. some [];
  base64_decode = λ s. none;
}

abbrev refused : Response
refused = record { status = 404; body = [] }

abbrev refusal : QueryExecution
refusal = write (write_result display_crates (purge (str "/") (str "jobs")) 404 [])

refused_empty : receive 404 none [] ≡ ok refused
unfolding receive
refused_empty = refl

refused_purge : outcome display_crates (purge (str "/") (str "jobs")) refused ≡ ok refusal
unfolding outcome
refused_purge = refl

status_fits : byte_len (str "status") ≤ 1005
unfolding byte_len
status_fits = omega arith

received-Answers_example : Answers display_crates (purge (str "/") (str "jobs")) 404 refusal
received-Answers_example =
    received-Answers display_crates (purge (str "/") (str "jobs")) 404 none [] status_fits
      refused_empty refused_purge
