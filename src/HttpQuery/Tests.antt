-- ===== src/HttpQuery/Tests.antt =====
-- HTTP queries on concrete inputs.
use onetui.Base.{◌≡◌, ◌≤◌, refl, true, [], ◌∷◌, Option, none, some, ok, err, arith}
use onetui.Text.{Text, str, is_empty, byte_len}
use onetui.Core.{page_size, page_bytes}
use onetui.HttpQuery.{Request, parse, Urls, target, response_page, receive, invalid_path}
use onetui.HttpQuery.Bounds.{IsLocal, StaysAt, target-IsLocal, receive_fits}

abbrev named : Text → Option Text
named s = some s

abbrev search : Request
search = record { method = str "GET"; path = str "/a"; content = str "{}" }

search_read : parse named (str "GET /a\n\n{}") ≡ ok search
unfolding parse onetui.Text.split_once
search_read = refl

other_host : parse named (str "GET //host/a") ≡ err invalid_path
unfolding parse onetui.Text.split_once
other_host = refl

-- A URL is its path here.
abbrev urls : Urls
urls = record {
  Url = Text;
  join = λ base path. some path;
  same_origin = λ url base. true;
  fragment = λ url. none;
  username = λ url. [];
  password = λ url. none;
}

search_target : target urls (str "/") search ≡ ok (str "/a")
unfolding target
search_target = refl

target-IsLocal_example : IsLocal search × StaysAt urls (str "/") (str "/a")
target-IsLocal_example =
    target-IsLocal urls named (str "GET /a\n\n{}") (str "/") search_read search_target

three_bytes :
    receive (str "200 OK") (some 3) (some (1 ∷ 2 ∷ 3 ∷ []) ∷ [])
    ≡ ok (response_page (str "200 OK") (1 ∷ 2 ∷ 3 ∷ []))
unfolding receive
three_bytes = refl

short_status : byte_len (str "200 OK") ≤ 1005
unfolding byte_len
short_status = omega arith

receive_fits_example : page_size (response_page (str "200 OK") (1 ∷ 2 ∷ 3 ∷ [])) ≤ page_bytes
receive_fits_example =
    receive_fits (str "200 OK") (some 3) (some (1 ∷ 2 ∷ 3 ∷ []) ∷ []) short_status three_bytes
