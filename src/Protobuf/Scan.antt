-- ===== src/Protobuf/Scan.antt =====
-- `scan` and `decode` of crates/protobuf/src/protobuf.rs: a walk over the wire format that counts
-- every occurrence of a field, and goes down into declared messages and packed lists.
pub mod Safe
pub mod Accounts
use onetui.Base.{
  ℕ, zero, suc, ◌+◌, Option, none, some, Bool, true, false, ◌==◌, List, if◌then◌else◌, stuck,
  ensure, ok, err, Outcome, panicked,
}
use onetui.Reader.{
  Reads, ◌>>=◌, ◌>>◌, pure, lift, charge, within, take, until_done, when_empty, foreign,
}
use onetui.Protobuf.{Error, truncated, unexpected_end_group, truncated_group, library}
use onetui.Protobuf.Budget.{Budget, node}

-- `prost::encoding::WireType`.
pub data WireType : Type 0 where
  varint sixty_four_bit length_delimited start_group end_group thirty_two_bit : WireType

-- `prost_reflect::Kind`, where a message names its descriptor.
pub data Kind (D : Type 0) : Type 0 where
  double float int32 int64 uint32 uint64 sint32 sint64 : Kind D
  fixed32 fixed64 sfixed32 sfixed64 bool string bytes enum : Kind D
  message : D → Kind D

-- What the scan asks of `prost` and `prost_reflect`: a key and a varint from the front of the input,
-- and a descriptor's field or extension of a number, with whether it is a list.
pub record Wire (D : Type 0) : Type 0 where
  pub decode_key : List ℕ → Option ((ℕ × WireType) × List ℕ)
  pub decode_varint : List ℕ → Option (ℕ × List ℕ)
  pub get_field : D → ℕ → Option (Kind D × Bool)
  pub get_extension : D → ℕ → Option (Kind D × Bool)

abbrev pub Scan : Type 0
Scan = Reads Budget Error (Unit {0})

-- How the loop over fields is left: at an end of group, or at the end of the input.
pub data Ending : Type 0 where
  ended exhausted : Ending

-- The width of a fixed-size element of a packed list.
abbrev fixed_width : {D : Type 0} → Kind D → Option ℕ
fixed_width double = some 8
fixed_width fixed64 = some 8
fixed_width sfixed64 = some 8
fixed_width float = some 4
fixed_width fixed32 = some 4
fixed_width sfixed32 = some 4
fixed_width _ = none

-- `matches!(kind, Kind::String | Kind::Bytes)`.
abbrev is_text : {D : Type 0} → Kind D → Bool
is_text string = true
is_text bytes = true
is_text _ = false

abbrev same_group : Option ℕ → ℕ → Bool
same_group none number = false
same_group (some g) number = g == number

abbrev no_group : Option ℕ → Bool
no_group none = true
no_group (some g) = false

abbrev skip : ℕ → Scan
skip size = take truncated size >>= λ part. pure tt

module _ {D : Type 0} (wire : Wire D) where
  abbrev key : Reads Budget Error (ℕ × WireType)
  key = foreign wire.decode_key library

  abbrev number_of : Reads Budget Error ℕ
  number_of = foreign wire.decode_varint library

  -- `get_field(number).or_else(get_extension(number))` of a descriptor, if there is one.
  unfoldable pub field_of : Option D → ℕ → Option (Kind D × Bool)
  field_of none number = none
  field_of (some d) number = elim (wire.get_field d number) [
    | none ↦ wire.get_extension d number
    | some f ↦ some f
  ]

  -- An element of a packed list: a fixed width, or a varint.
  abbrev element : Option ℕ → Scan
  element none = number_of >>= λ n. pure tt
  element (some width) = skip width

  -- A round of the loop over a packed list charges a node for its element.
  abbrev packed_round : Kind D → ℕ → Reads Budget Error (Option (Unit {0}))
  packed_round kind depth = charge (node (depth + 1)) >> (element (fixed_width kind) >> pure none)

  unfoldable pub scan_packed : Kind D → ℕ → Scan
  unfolding until_done take node
  scan_packed kind depth = until_done (when_empty (pure (some tt)) (packed_round kind depth))

  -- `visit` is the recursive call of `scan`, at a descriptor, a depth and a group.
  module _ (visit : Option D → ℕ → Option ℕ → Scan) where
    -- What follows the length of a length-delimited field, in its body.
    unfoldable pub scan_body : Option (Kind D × Bool) → ℕ → List ℕ → Scan
    unfolding scan_packed
    scan_body none depth body = pure tt
    scan_body (some (message child, is_list)) depth body =
        within body (visit (some child) (depth + 1) none)
    scan_body (some (kind, is_list)) depth body =
        if is_list
        then (if is_text kind then pure tt else within body (scan_packed kind depth))
        else pure tt

    -- The message of a group, if the field is declared as one.
    unfoldable pub child_of : Option (Kind D × Bool) → Option D
    child_of (some (message child, is_list)) = some child
    child_of _ = none

    -- The payload of a field of a wire type; `end_group` has been handled before.
    unfoldable pub scan_value : Option (Kind D × Bool) → ℕ → ℕ → WireType → Scan
    unfolding scan_body child_of take
    scan_value field depth number varint = number_of >>= λ n. pure tt
    scan_value field depth number sixty_four_bit = skip 8
    scan_value field depth number thirty_two_bit = skip 4
    scan_value field depth number length_delimited = do
      len ← number_of
      body ← take truncated len
      scan_body field depth body
    scan_value field depth number start_group = visit (child_of field) (depth + 1) (some number)
    scan_value field depth number end_group = lift Outcome.panicked

    abbrev is_end : WireType → Bool
    is_end end_group = true
    is_end _ = false

    -- What follows a key.
    unfoldable pub scan_field :
        Option D → ℕ → Option ℕ → ℕ × WireType → Reads Budget Error (Option Ending)
    unfolding scan_value field_of node
    scan_field descriptor depth group (number, kind) =
        if is_end kind
        then lift (ensure (same_group group number) unexpected_end_group) >> pure (some ended)
        else charge (node depth)
          >> (scan_value (field_of descriptor number) depth number kind >> pure none)

    unfoldable pub scan_fields : Option D → ℕ → Option ℕ → Reads Budget Error Ending
    unfolding scan_field until_done
    scan_fields descriptor depth group =
        until_done (when_empty (pure (some exhausted)) (key >>= scan_field descriptor depth group))

  -- After the loop a group must have been ended.
  abbrev leave : Option ℕ → Ending → Scan
  leave group ended = pure tt
  leave group exhausted = lift (ensure (no_group group) truncated_group)

  -- A node deeper than `max_depth` is refused, so a fuel of `max_depth + 2` is enough at depth 0.
  unfoldable pub scan : ℕ → Option D → ℕ → Option ℕ → Scan
  unfolding scan_fields node
  scan zero descriptor depth group = λ s. stuck
  scan (suc f) descriptor depth group = do
    charge (node depth)
    ending ← scan_fields (λ d n g. scan f d n g) descriptor depth group
    leave group ending
