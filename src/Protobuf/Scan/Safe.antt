-- ===== src/Protobuf/Scan/Safe.antt =====
-- The parts of the scan of a message: panics, fuel, and what they take and spend.
use onetui.Base.{
  ℕ, zero, suc, ◌+◌, ◌≤◌, ◌<◌, ◌≡◌, Option, none, some, Bool, true, false, List, ◌++◌, length, leb,
  lt→leb, if◌then◌else◌, arith, Bool-cases, inl, inr, Settles-ensure,
}
use onetui.Reader.{Reads, ◌>>=◌, ◌>>◌, pure, charge, within, take}
use onetui.Reader.Safe.{
  IsSafe, IsSafe-pure, IsSafe-bind, IsSafe-lift, IsSafe-charge, IsSafe-within, IsSafe-take,
  IsSafe-when_empty, IsSafe-foreign, Consumes, Consumes-take, Consumes-foreign, Consumes-answer,
}
use onetui.Reader.Loop.{Shrinks, Shrinks-bind, Shrinks-then, Shrinks-when_empty, IsSafe-until_done}
use onetui.Protobuf.{Error, truncated, unexpected_end_group, truncated_group, library, max_depth}
use onetui.Protobuf.Budget.{Budget, spending, node, node-Settles, node_spends}
use onetui.Protobuf.Scan.{
  WireType, varint, sixty_four_bit, length_delimited, start_group, end_group, thirty_two_bit, Kind,
  double, fixed64, sfixed64, float, fixed32, sfixed32, message, Wire, Scan, Ending, ended,
  exhausted, fixed_width, is_text, same_group, no_group, skip, key, number_of, field_of, element,
  packed_round, scan_packed, scan_body, child_of, scan_value, is_end, scan_field, scan_fields,
  leave, scan,
}

-- `prost` takes a byte at least for a key and for a varint, from the front of the input.
abbrev pub Takes : {A : Type 0} → (List ℕ → Option (A × List ℕ)) → Type 0
Takes {A} decode =
    (input : List ℕ) (r : A × List ℕ)
    → decode input ≡ some r
    → (used : List ℕ) × (input ≡ used ++ r.1) × (0 < length used)

abbrev pub Safe : {A : Type 0} → Reads Budget Error A → Type 0
Safe m = IsSafe spending m

node-Safe : (depth : ℕ) → Safe (charge (node depth))
node-Safe depth =
    IsSafe-charge spending (node depth) (λ b h. node-Settles depth b) (node_spends depth)

skip-Safe : (size : ℕ) → Safe (skip size)
skip-Safe size =
    IsSafe-bind spending _ _ (IsSafe-take spending truncated size) (λ p. IsSafe-pure spending tt)

skip-Consumes : (size : ℕ) → 0 < size → Consumes (skip size)
skip-Consumes size h = Consumes-answer (take truncated size) tt (Consumes-take truncated size h)

-- Below the depth bound nothing is visited, whatever would follow.
too_deep : (k : Scan) (depth : ℕ) → max_depth < depth → Safe (charge (node depth) >> k)
unfolding node
too_deep k depth deep =
    let refused = lt→leb depth max_depth deep in
    record { settles = λ s h. rw refused tt; advances = λ s h. rw refused tt }

module _ {D : Type 0} (wire : Wire D) (key_takes : Takes wire.decode_key)
    (varint_takes : Takes wire.decode_varint) where
  number_of-Safe : Safe (number_of wire)
  number_of-Safe =
      IsSafe-foreign spending wire.decode_varint library
        (λ input r e. let t = varint_takes input r e in (t.0, t.1))

  key-Safe : Safe (key wire)
  key-Safe =
      IsSafe-foreign spending wire.decode_key library
        (λ input r e. let t = key_takes input r e in (t.0, t.1))

  element-Safe : (width : Option ℕ) → Safe (element wire width)
  element-Safe none = IsSafe-bind spending _ _ number_of-Safe (λ n. IsSafe-pure spending tt)
  element-Safe (some width) = skip-Safe width

  varint-Consumes : Consumes (number_of wire >>= λ n. pure tt)
  varint-Consumes =
      Consumes-answer (number_of wire) tt (Consumes-foreign wire.decode_varint library varint_takes)

  element-Consumes : (kind : Kind D) → Consumes (element wire (fixed_width kind))
  element-Consumes double = skip-Consumes 8 (omega arith)
  element-Consumes fixed64 = skip-Consumes 8 (omega arith)
  element-Consumes sfixed64 = skip-Consumes 8 (omega arith)
  element-Consumes float = skip-Consumes 4 (omega arith)
  element-Consumes fixed32 = skip-Consumes 4 (omega arith)
  element-Consumes sfixed32 = skip-Consumes 4 (omega arith)
  element-Consumes _ = varint-Consumes

  packed_round-Safe : (kind : Kind D) (depth : ℕ) → Safe (packed_round wire kind depth)
  packed_round-Safe kind depth = IsSafe-bind spending _ _ (node-Safe (depth + 1)) λ u.
      IsSafe-bind spending _ _ (element-Safe (fixed_width kind)) (λ u. IsSafe-pure spending none)

  packed_round-Shrinks :
      (kind : Kind D) (depth : ℕ) → Shrinks spending (packed_round wire kind depth)
  packed_round-Shrinks kind depth = Shrinks-then spending _ _ (node-Safe (depth + 1)) λ u.
      Shrinks-bind spending (element wire (fixed_width kind)) (λ u. pure none)
        (element-Safe (fixed_width kind)) (λ u. IsSafe-pure spending none) (element-Consumes kind)

  scan_packed-Safe : (kind : Kind D) (depth : ℕ) → Safe (scan_packed wire kind depth)
  unfolding scan_packed
  scan_packed-Safe kind depth =
      IsSafe-until_done spending _
        (IsSafe-when_empty spending _ _ (IsSafe-pure spending (some tt))
          (packed_round-Safe kind depth))
        (Shrinks-when_empty spending tt _ (packed_round-Shrinks kind depth))

  module _ (visit : Option D → ℕ → Option ℕ → Scan) (depth : ℕ)
      (visit_safe : (d : Option D) (g : Option ℕ) → Safe (visit d (depth + 1) g)) where
    packed_body-Safe :
        (kind : Kind D) (is_list : Bool) (body : List ℕ)
        → Safe (
            if is_list
            then (if is_text kind then pure tt else within body (scan_packed wire kind depth))
            else pure tt)
    packed_body-Safe kind false body = IsSafe-pure spending tt
    packed_body-Safe kind true body = elim (Bool-cases (is_text kind)) [
      | inl text ↦ rw text (IsSafe-pure spending tt)
      | inr packed ↦ rw packed (IsSafe-within spending body _ (scan_packed-Safe kind depth))
    ]

    scan_body-Safe :
        (field : Option (Kind D × Bool)) (body : List ℕ)
        → Safe (scan_body wire visit field depth body)
    unfolding scan_body
    scan_body-Safe none body = IsSafe-pure spending tt
    scan_body-Safe (some (message child, is_list)) body =
        IsSafe-within spending body _ (visit_safe (some child) none)
    scan_body-Safe (some (kind, is_list)) body = packed_body-Safe kind is_list body

    scan_value-Safe :
        (field : Option (Kind D × Bool)) (number : ℕ) (kind : WireType)
        → is_end wire visit kind ≡ false
        → Safe (scan_value wire visit field depth number kind)
    unfolding scan_value
    scan_value-Safe field number varint h =
        IsSafe-bind spending _ _ number_of-Safe (λ n. IsSafe-pure spending tt)
    scan_value-Safe field number sixty_four_bit h = skip-Safe 8
    scan_value-Safe field number thirty_two_bit h = skip-Safe 4
    scan_value-Safe field number length_delimited h = IsSafe-bind spending _ _ number_of-Safe λ len.
        IsSafe-bind spending _ _ (IsSafe-take spending truncated len)
          λ body. scan_body-Safe field body
    scan_value-Safe field number start_group h =
        visit_safe (child_of wire visit field) (some number)
    scan_value-Safe field number end_group h = cc

    scan_field-Safe :
        (descriptor : Option D) (group : Option ℕ) (k : ℕ × WireType)
        → Safe (scan_field wire visit descriptor depth group k)
    unfolding scan_field
    scan_field-Safe descriptor group (number, kind) = elim (Bool-cases (is_end wire visit kind)) [
      | inl last ↦ rw last (
          IsSafe-bind spending _ _
            (IsSafe-lift spending _ (Settles-ensure (same_group group number) unexpected_end_group))
            (λ u. IsSafe-pure spending (some ended)))
      | inr more ↦ rw more (
          IsSafe-bind spending _ _ (node-Safe depth) λ u.
            IsSafe-bind spending _ _
              (scan_value-Safe (field_of wire descriptor number) number kind more)
              (λ u. IsSafe-pure spending none))
    ]

    scan_fields-Safe :
        (descriptor : Option D) (group : Option ℕ)
        → Safe (scan_fields wire visit descriptor depth group)
    unfolding scan_fields
    scan_fields-Safe descriptor group =
        IsSafe-until_done spending _
          (IsSafe-when_empty spending _ _ (IsSafe-pure spending (some exhausted))
            (IsSafe-bind spending _ _ key-Safe (scan_field-Safe descriptor group)))
          (Shrinks-when_empty spending exhausted _ (
            Shrinks-bind spending (key wire) (scan_field wire visit descriptor depth group) key-Safe
              (scan_field-Safe descriptor group)
              (Consumes-foreign wire.decode_key library key_takes)))

  leave-Safe : (group : Option ℕ) (ending : Ending) → Safe (leave wire group ending)
  leave-Safe group ended = IsSafe-pure spending tt
  leave-Safe group exhausted =
      IsSafe-lift spending _ (Settles-ensure (no_group group) truncated_group)

  pub scan-Safe :
      (f : ℕ) (descriptor : Option D) (depth : ℕ) (group : Option ℕ)
      → depth ≤ max_depth + 1
      → max_depth + 1 < f + depth
      → Safe (scan wire f descriptor depth group)
  unfolding scan
  scan-Safe zero descriptor depth group hd hf = absurd (omega arith)
  scan-Safe (suc f) descriptor depth group hd hf = elim (Bool-cases (leb depth max_depth)) [
    | inl shallow ↦ IsSafe-bind spending _ _ (node-Safe depth) λ u.
        IsSafe-bind spending _ _
          (scan_fields-Safe (λ d n g. scan wire f d n g) depth
            (λ d g. scan-Safe f d (depth + 1) g (ground arith) (omega arith)) descriptor group)
          (leave-Safe group)
    | inr deep ↦ too_deep _ depth (ground arith)
  ]
