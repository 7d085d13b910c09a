-- ===== src/Avro/Scan/Sound.antt =====
-- The parts of the scan: panics, fuel, the budget, and the bytes they look at.
use onetui.Base.{
  ℤ, pos, negsuc, ℕ, zero, suc, ◌+◌, ◌≤◌, ◌<◌, Option, none, some, length, get_elem?, leb,
  if◌then◌else◌, lt→leb, err, ok_or, arith, Bool-cases, inl, inr, Settles, Settles-ok_or,
  Settles-ensure, Ensures-map,
}
use onetui.Reader.{Reads, ◌>>=◌, ◌>>◌, pure, lift, charge}
use onetui.Reader.Laws.{
  IsSound, IsSound-bind, IsSound-lift, IsSound-take, IsSound-pure, IsSound-charge, IsSound-counting,
}
use onetui.Reader.Loop.{Shrinks, Shrinks-bind, IsSound-until_done}
use onetui.Avro.{
  Error, truncated, enum_index, union_index, unresolved_reference, block_size, max_depth,
}
use onetui.Avro.Budget.{
  Budget, spending, node, collection, name, node-Settles, node_spends, collection-Settles,
  collection_spends, name-Settles, name_spends,
}
use onetui.Avro.Long.{long, usize}
use onetui.Avro.Long.Bounds.{long-IsSound, bytes-IsSound, usize-Settles, long_takes}
use onetui.Avro.Schema.{
  Schema, Fields, Names, Text, get_variant, count_fields, DecimalInner, UuidSchema, null, boolean,
  float, double, duration, decimal, big_decimal, uuid, enum, union, record_of, ref, array,
  no_fields, field,
}
use onetui.Avro.Scan.{
  Scan, magnitude, block_bytes, size_matches, is_zero, scan_items, scan_block, scan_round,
  scan_blocks, scan_fields, map_entry, scan_schema, scan, skip,
}

abbrev pub Sound : {A : Type 0} → Reads Budget Error A → Type 0
Sound m = IsSound spending m

node-Sound : (depth : ℕ) → Sound (charge (node depth))
node-Sound depth =
    IsSound-charge spending (node depth) (λ b h. node-Settles depth b)
      (λ b h. Ensures-map _ _ (node depth b) (node_spends depth b h) (λ c p. (p.1, p.2)))

collection-Sound : (count : ℕ) → Sound (charge (collection count))
collection-Sound count =
    IsSound-charge spending (collection count) (collection-Settles count) (collection_spends count)

name-Sound : (len : ℕ) → Sound (charge (name len))
name-Sound len = IsSound-charge spending (name len) (λ b h. name-Settles len b) (name_spends len)

skip-Sound : (size : ℕ) → Sound (skip size)
skip-Sound size =
    IsSound-bind spending _ _ (IsSound-take spending truncated size) (λ p. IsSound-pure spending tt)

magnitude-Settles : (z : ℤ) → Settles (magnitude z)
unfolding magnitude
magnitude-Settles (pos n) = tt
magnitude-Settles (negsuc n) = ground arith

block_bytes-Sound : (z : ℤ) → Sound (block_bytes z)
unfolding block_bytes
block_bytes-Sound (pos n) = IsSound-pure spending none
block_bytes-Sound (negsuc n) = IsSound-bind spending _ _ long-IsSound λ len.
    IsSound-bind spending _ _ (IsSound-lift spending (usize len) (usize-Settles len))
      λ size. IsSound-pure spending (some size)

module _ (visit : Schema → Option Text → ℕ → Scan) (entry : Scan) (child : Schema)
    (ns : Option Text) (depth : ℕ) (entry_sound : Sound entry)
    (visit_sound : Sound (visit child ns (depth + 1))) where
  scan_items-Sound : (count : ℕ) → Sound (scan_items visit entry child ns depth count)
  unfolding scan_items
  scan_items-Sound zero = IsSound-pure spending tt
  scan_items-Sound (suc count) = IsSound-bind spending entry _ entry_sound λ _.
      IsSound-bind spending (visit child ns (depth + 1)) _ visit_sound λ _. scan_items-Sound count

  scan_block-Sound : (count : ℤ) → Sound (scan_block visit entry child ns depth count)
  unfolding scan_block
  scan_block-Sound count =
      IsSound-bind spending (block_bytes count) _ (block_bytes-Sound count) λ size.
        IsSound-bind spending _ _
          (IsSound-lift spending (magnitude count) (magnitude-Settles count))
          λ n. IsSound-bind spending _ _ (collection-Sound n) λ _.
            IsSound-bind spending _ _
              (IsSound-counting spending (scan_items visit entry child ns depth n)
                (scan_items-Sound n))
              λ items.
                IsSound-lift spending _ (Settles-ensure (size_matches size items.1) block_size)

  -- What follows the count of a block.
  abbrev after_count : ℤ → Reads Budget Error (Option (Unit {0}))
  after_count count =
      if is_zero count
      then pure (some tt)
      else scan_block visit entry child ns depth count >> pure none

  after_count-Sound : (count : ℤ) → Sound (after_count count)
  after_count-Sound count = elim (Bool-cases (is_zero count)) [
    | inl last ↦ rw last (IsSound-pure spending (some tt))
    | inr more ↦
        rw more
          (IsSound-bind spending _ _ (scan_block-Sound count) (λ _. IsSound-pure spending none))
  ]

  scan_round-Sound : Sound (scan_round visit entry child ns depth)
  unfolding scan_round
  scan_round-Sound = IsSound-bind spending long after_count long-IsSound after_count-Sound

  scan_round-Shrinks : Shrinks spending (scan_round visit entry child ns depth)
  unfolding scan_round
  scan_round-Shrinks =
      Shrinks-bind spending long after_count long-IsSound.safe (λ c. (after_count-Sound c).safe)
        (λ s r e. (long_takes s r e).1)

  scan_blocks-Sound : Sound (scan_blocks visit entry child ns depth)
  unfolding scan_blocks
  scan_blocks-Sound =
      IsSound-until_done spending (scan_round visit entry child ns depth) scan_round-Sound
        scan_round-Shrinks

scan_fields-Sound :
    (visit : Schema → Option Text → ℕ → Scan) (fields : Fields) (ns : Option Text) (depth : ℕ)
    → ((schema : Schema) → Sound (visit schema ns (depth + 1)))
    → Sound (scan_fields visit fields ns depth)
unfolding scan_fields
scan_fields-Sound visit no_fields ns depth h = IsSound-pure spending tt
scan_fields-Sound visit (field n schema rest) ns depth h =
    IsSound-bind spending _ _ (name-Sound (length n)) λ _.
      IsSound-bind spending (visit schema ns (depth + 1)) _ (h schema)
        λ _. scan_fields-Sound visit rest ns depth h

-- A long read as an index, and what is found there.
index-Sound :
    {A C : Type 0} (get : ℕ → Option A) (missing : Error) (f : A → Reads Budget Error C)
    → ((a : A) → Sound (f a))
    → Sound (long >>= λ z. lift (usize z) >>= λ i. lift (ok_or (get i) missing) >>= f)
index-Sound get missing f h = IsSound-bind spending long _ long-IsSound λ z.
    IsSound-bind spending _ _ (IsSound-lift spending (usize z) (usize-Settles z)) λ i.
      IsSound-bind spending _ _
        (IsSound-lift spending (ok_or (get i) missing) (Settles-ok_or (get i) missing)) h

map_entry-Sound : (depth : ℕ) → Sound (map_entry depth)
map_entry-Sound depth = IsSound-bind spending _ _ (node-Sound (depth + 1)) (λ _. bytes-IsSound)

long_value-Sound : Sound (long >>= λ z. pure tt)
long_value-Sound = IsSound-bind spending long _ long-IsSound (λ z. IsSound-pure spending tt)

-- Below the depth bound nothing is visited, whatever would follow.
too_deep : (k : Scan) (depth : ℕ) → max_depth < depth → Sound (charge (node depth) >> k)
unfolding node
too_deep k depth deep =
    let refused = lt→leb depth max_depth deep in
    record {
      safe = record { settles = λ s h. rw refused tt; advances = λ s h. rw refused tt };
      local = λ s r extra e. let no_value = rw refused at e in cc;
    }

module _ (names : Names) where
  scan_schema-Sound :
      (visit : Schema → Option Text → ℕ → Scan) (schema : Schema) (ns : Option Text) (depth : ℕ)
      → ((schema' : Schema) (ns' : Option Text) → Sound (visit schema' ns' (depth + 1)))
      → Sound (scan_schema names visit schema ns depth)
  unfolding scan_schema
  scan_schema-Sound visit null ns depth h = IsSound-pure spending tt
  scan_schema-Sound visit boolean ns depth h = skip-Sound 1
  scan_schema-Sound visit float ns depth h = skip-Sound 4
  scan_schema-Sound visit double ns depth h = skip-Sound 8
  scan_schema-Sound visit Schema.bytes ns depth h = bytes-IsSound
  scan_schema-Sound visit Schema.string ns depth h = bytes-IsSound
  scan_schema-Sound visit (Schema.fixed size) ns depth h = skip-Sound size
  scan_schema-Sound visit (duration size) ns depth h = skip-Sound size
  scan_schema-Sound visit (decimal DecimalInner.bytes) ns depth h = bytes-IsSound
  scan_schema-Sound visit (decimal (DecimalInner.fixed size)) ns depth h = skip-Sound size
  scan_schema-Sound visit big_decimal ns depth h = IsSound-lift spending (err Error.big_decimal) tt
  scan_schema-Sound visit (uuid UuidSchema.string) ns depth h = bytes-IsSound
  scan_schema-Sound visit (uuid UuidSchema.bytes) ns depth h = bytes-IsSound
  scan_schema-Sound visit (uuid (UuidSchema.fixed size)) ns depth h = skip-Sound size
  scan_schema-Sound visit (enum symbols) ns depth h =
      index-Sound (get_elem? symbols) enum_index _ (λ symbol. name-Sound (length symbol))
  scan_schema-Sound visit (union variants) ns depth h =
      index-Sound (get_variant variants) union_index _ (λ chosen. h chosen ns)
  scan_schema-Sound visit (record_of n fields) ns depth h =
      IsSound-bind spending _ _ (collection-Sound (count_fields fields))
        λ _. scan_fields-Sound visit fields _ depth (λ schema. h schema _)
  scan_schema-Sound visit (ref n) ns depth h =
      let full = names.qualify n ns in
      IsSound-bind spending _ _
        (IsSound-lift spending (ok_or (names.get full) unresolved_reference)
          (Settles-ok_or (names.get full) unresolved_reference))
        (λ resolved. h resolved (names.namespace_of full))
  scan_schema-Sound visit (array items) ns depth h =
      scan_blocks-Sound visit (pure tt) items ns depth (IsSound-pure spending tt) (h items ns)
  scan_schema-Sound visit (Schema.map types) ns depth h =
      scan_blocks-Sound visit (map_entry depth) types ns depth (map_entry-Sound depth) (h types ns)
  scan_schema-Sound visit _ ns depth h = long_value-Sound

  pub scan-Sound :
      (f : ℕ) (schema : Schema) (ns : Option Text) (depth : ℕ)
      → depth ≤ max_depth + 1
      → max_depth + 1 < f + depth
      → Sound (scan names f schema ns depth)
  unfolding scan
  scan-Sound zero schema ns depth hd hf = absurd (omega arith)
  scan-Sound (suc f) schema ns depth hd hf = elim (Bool-cases (leb depth max_depth)) [
    | inl shallow ↦ IsSound-bind spending _ _ (node-Sound depth) λ _.
        scan_schema-Sound (λ sch ns' d. scan names f sch ns' d) schema ns depth
          (λ sch ns'. scan-Sound f sch ns' (depth + 1) (ground arith) (omega arith))
    | inr deep ↦ too_deep _ depth (ground arith)
  ]
