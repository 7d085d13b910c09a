-- ===== src/Protobuf/Tests.antt =====
-- The Protobuf scan and the source check on concrete inputs, and the theorems at concrete inputs.
use onetui.Base.{
  ℕ, ◌+◌, ◌/◌, ◌%◌, ◌≤◌, ◌≡◌, refl, true, false, Option, none, some, List, [], ◌∷◌, ◌++◌, ◌==◌,
  if◌then◌else◌, ok, err, arith, Settles, ap,
}
use onetui.Reader.{State}
use onetui.Protobuf.{truncated_group, unterminated_comment, max_nodes, max_depth}
use onetui.Protobuf.Budget.{Budget, fresh}
use onetui.Protobuf.Scan.{
  WireType, varint, sixty_four_bit, length_delimited, start_group, end_group, thirty_two_bit, int32,
  message, Wire, scan,
}
use onetui.Protobuf.Scan.Safe.{Takes}
use onetui.Protobuf.Scan.Accounts.{scan_message-Settles, scan_message_accounts}
use onetui.Protobuf.Source.{is_open, is_close, preflight_loop, preflight}
use onetui.Protobuf.Source.Preflight.{preflight-Settles}
use onetui.Protobuf.Source.Depth.{
  plain, escaped, done, string_is_opaque, count, declares, accepted_bounds,
}

-- Keys and varints of one byte, and a descriptor that holds itself in field 1 and a packed list of
-- integers in field 2.
abbrev kind_of : ℕ → WireType
kind_of code =
    if code == 0
    then varint
    else if code == 1
    then sixty_four_bit
    else if code == 2
    then length_delimited
    else if code == 3
    then start_group
    else if code == 4
    then end_group
    else thirty_two_bit

abbrev small_key : List ℕ → Option ((ℕ × WireType) × List ℕ)
small_key [] = none
small_key (b ∷ rest) = some ((b / 8, kind_of (b % 8)), rest)

abbrev small_varint : List ℕ → Option (ℕ × List ℕ)
small_varint [] = none
small_varint (b ∷ rest) = some (b, rest)

small_key-Takes : Takes small_key
small_key-Takes [] r e = cc
small_key-Takes (b ∷ rest) r e =
    let left : rest ≡ r.1 = ap (λ (o : Option ((ℕ × WireType) × List ℕ)). rest_of o) e in
    (b ∷ [], ap (λ (l : List ℕ). b ∷ l) left, omega arith)
  where
    rest_of : Option ((ℕ × WireType) × List ℕ) → List ℕ
    rest_of none = []
    rest_of (some p) = p.1

small_varint-Takes : Takes small_varint
small_varint-Takes [] r e = cc
small_varint-Takes (b ∷ rest) r e =
    let left : rest ≡ r.1 = ap (λ (o : Option (ℕ × List ℕ)). rest_of o) e in
    (b ∷ [], ap (λ (l : List ℕ). b ∷ l) left, omega arith)
  where
    rest_of : Option (ℕ × List ℕ) → List ℕ
    rest_of none = []
    rest_of (some p) = p.1

abbrev small_wire : Wire (Unit {0})
small_wire = record {
  decode_key = small_key;
  decode_varint = small_varint;
  get_field = λ d n.
      if n == 1 then some (message tt, false) else if n == 2 then some (int32, true) else none;
  get_extension = λ d n. none;
}

abbrev at : List ℕ → State Budget
at input = record { input = input; budget = fresh }

-- A message in field 1 that holds a packed list of three elements.
abbrev nested : List ℕ
nested = 10 ∷ 5 ∷ 18 ∷ 3 ∷ 7 ∷ 8 ∷ 9 ∷ []

nested-scan :
    scan small_wire 34 (some tt) 0 none (at nested)
    ≡ ok (tt, record { input = []; budget = record { nodes = 7 } })
unfolding scan
nested-scan = refl

open_group : scan small_wire 34 (some tt) 0 none (at (11 ∷ [])) ≡ err truncated_group
unfolding scan
open_group = refl

scan_message-Settles_example : Settles (scan small_wire 34 (some tt) 0 none (at (11 ∷ 11 ∷ [])))
scan_message-Settles_example =
    scan_message-Settles small_wire small_key-Takes small_varint-Takes (some tt) (at (11 ∷ 11 ∷ []))
      (omega arith)

scan_message_accounts_example : (◌≡◌ {A = List ℕ} [] []) × (0 ≤ 7) × (7 ≤ max_nodes)
scan_message_accounts_example =
    scan_message_accounts small_wire small_key-Takes small_varint-Takes (some tt) (at nested)
      (tt, record { input = []; budget = record { nodes = 7 } }) (omega arith) nested-scan

-- `a{"{"}`
abbrev quoted : List ℕ
quoted = b'a' ∷ b'{' ∷ b'"' ∷ b'{' ∷ b'"' ∷ b'}' ∷ []

quoted_passes : preflight quoted ≡ ok tt
unfolding preflight
quoted_passes = refl

open_comment : preflight (b'/' ∷ b'*' ∷ b'/' ∷ []) ≡ err unterminated_comment
unfolding preflight
open_comment = refl

preflight-Settles_example : Settles (preflight quoted)
preflight-Settles_example = preflight-Settles quoted

-- The string `"{\"{"`.
abbrev opens : List ℕ
opens = b'{' ∷ b'\\' ∷ b'"' ∷ b'{' ∷ []

string_is_opaque_example :
    preflight_loop 9 (b'"' ∷ (opens ++ b'"' ∷ b'}' ∷ [])) 32 0 ≡ preflight_loop 9 (b'}' ∷ []) 32 0
string_is_opaque_example =
    string_is_opaque 9 b'"' opens (b'}' ∷ []) 32 0 refl
      (plain b'{' (refl, refl) (escaped b'"' (plain b'{' (refl, refl) done))) (omega arith)

abbrev braces : List ℕ
braces = b'{' ∷ b';' ∷ b'}' ∷ []

braces_pass : preflight_loop 9 (braces ++ b'"' ∷ []) 0 0 ≡ ok tt
unfolding preflight_loop
braces_pass = refl

accepted_bounds_example :
    (0 + count is_open braces ≤ count is_close braces + max_depth)
    × (0 + count declares braces ≤ max_nodes)
accepted_bounds_example =
    accepted_bounds 9 braces (b'"' ∷ []) 0 0 (omega arith) (omega arith) (refl, (refl, (refl, tt)))
      braces_pass
