-- ===== src/Avro/Scan.antt =====
-- `scan` and `scan_blocks` of crates/avro/src/avro.rs: a walk over a datum that checks its structure
-- against the schema and charges the budget, without building a value.
pub mod Sound
pub mod Accounts
use onetui.Base.{
  ℤ, pos, negsuc, ℕ, zero, suc, ◌+◌, ◌^◌, List, Option, none, some, Bool, true, false, length,
  get_elem?, ltb, ◌==◌, if◌then◌else◌, Outcome, ok, err, stuck, ok_or, ensure,
}
use onetui.Reader.{State, Reads, ◌>>=◌, ◌>>◌, pure, lift, charge, counting, take, until_done}
use onetui.Avro.{
  Error, truncated, enum_index, union_index, unresolved_reference, count_overflow, block_size,
}
use onetui.Avro.Budget.{Budget, node, collection, name}
use onetui.Avro.Long.{long, usize, bytes}
use onetui.Avro.Schema.{
  Schema, Fields, Names, Text, get_variant, count_fields, DecimalInner, UuidSchema, null, boolean,
  float, double, duration, decimal, big_decimal, uuid, enum, union, record_of, ref, array,
  no_fields, field,
}

abbrev pub Scan : Type 0
Scan = Reads Budget Error (Unit {0})

abbrev skip : ℕ → Scan
skip size = take truncated size >>= λ part. pure tt

-- `count.checked_abs()`, which fails at the least `i64`, and `usize::try_from` of it.
unfoldable pub magnitude : ℤ → Outcome Error ℕ
magnitude (pos n) = ok n
magnitude (negsuc n) = if ltb (suc n) (2 ^ 63) then ok (suc n) else err count_overflow

-- The byte size that follows a negative count.
unfoldable pub block_bytes : ℤ → Reads Budget Error (Option ℕ)
block_bytes (pos n) = pure none
block_bytes (negsuc n) = do len ← long; size ← lift (usize len); pure (some size)

-- `block_bytes.is_none_or(|size| size == taken)`.
abbrev pub size_matches : Option ℕ → ℕ → Bool
size_matches none taken = true
size_matches (some size) taken = size == taken

abbrev is_zero : ℤ → Bool
is_zero (pos n) = n == 0
is_zero (negsuc n) = false

-- `visit` is the recursive call of `scan`, at a schema, a namespace and a depth.
module _ (visit : Schema → Option Text → ℕ → Scan) where
  -- The items of a block: `count` rounds of the `for` loop, where `entry` reads a map's key.
  unfoldable pub scan_items : Scan → Schema → Option Text → ℕ → ℕ → Scan
  scan_items entry child ns depth zero = pure tt
  scan_items entry child ns depth (suc count) = do
    entry
    visit child ns (depth + 1)
    scan_items entry child ns depth count

  -- A block that is not the last, with its byte size checked against what the items took.
  unfoldable pub scan_block : Scan → Schema → Option Text → ℕ → ℤ → Scan
  unfolding scan_items block_bytes magnitude
  scan_block entry child ns depth count = do
    size ← block_bytes count
    n ← lift (magnitude count)
    charge (collection n)
    items ← counting (scan_items entry child ns depth n)
    lift (ensure (size_matches size items.1) block_size)

  -- One round of the loop over blocks: a count of 0 ends it.
  unfoldable pub scan_round :
      Scan → Schema → Option Text → ℕ → Reads Budget Error (Option (Unit {0}))
  unfolding long scan_block
  scan_round entry child ns depth = long >>= λ count.
      if is_zero count then pure (some tt) else scan_block entry child ns depth count >> pure none

  unfoldable pub scan_blocks : Scan → Schema → Option Text → ℕ → Scan
  unfolding scan_round until_done
  scan_blocks entry child ns depth = until_done (scan_round entry child ns depth)

  unfoldable pub scan_fields : Fields → Option Text → ℕ → Scan
  scan_fields no_fields ns depth = pure tt
  scan_fields (field n schema rest) ns depth = do
    charge (name (length n))
    visit schema ns (depth + 1)
    scan_fields rest ns depth

-- The key of a map's entry.
abbrev map_entry : ℕ → Scan
map_entry depth = charge (node (depth + 1)) >> bytes

module _ (names : Names) where
  unfoldable pub scan_schema : (Schema → Option Text → ℕ → Scan) → Schema → Option Text → ℕ → Scan
  unfolding long bytes usize take node collection name get_variant count_fields scan_blocks
      scan_fields
  scan_schema visit null ns depth = pure tt
  scan_schema visit boolean ns depth = skip 1
  scan_schema visit float ns depth = skip 4
  scan_schema visit double ns depth = skip 8
  scan_schema visit Schema.bytes ns depth = bytes
  scan_schema visit Schema.string ns depth = bytes
  scan_schema visit (Schema.fixed size) ns depth = skip size
  scan_schema visit (duration size) ns depth = skip size
  scan_schema visit (decimal DecimalInner.bytes) ns depth = bytes
  scan_schema visit (decimal (DecimalInner.fixed size)) ns depth = skip size
  scan_schema visit big_decimal ns depth = lift (err Error.big_decimal)
  scan_schema visit (uuid UuidSchema.string) ns depth = bytes
  scan_schema visit (uuid UuidSchema.bytes) ns depth = bytes
  scan_schema visit (uuid (UuidSchema.fixed size)) ns depth = skip size
  scan_schema visit (enum symbols) ns depth = do
    z ← long
    index ← lift (usize z)
    symbol ← lift (ok_or (get_elem? symbols index) enum_index)
    charge (name (length symbol))
  scan_schema visit (union variants) ns depth = do
    z ← long
    index ← lift (usize z)
    chosen ← lift (ok_or (get_variant variants index) union_index)
    visit chosen ns (depth + 1)
  scan_schema visit (record_of n fields) ns depth = do
    charge (collection (count_fields fields))
    scan_fields visit fields (names.namespace_of (names.qualify n ns)) depth
  scan_schema visit (ref n) ns depth = do
    let full = names.qualify n ns
    resolved ← lift (ok_or (names.get full) unresolved_reference)
    visit resolved (names.namespace_of full) (depth + 1)
  scan_schema visit (array items) ns depth = scan_blocks visit (pure tt) items ns depth
  scan_schema visit (Schema.map types) ns depth = scan_blocks visit (map_entry depth) types ns depth
  -- `int`, `long`, the dates, the times and the timestamps.
  scan_schema visit _ ns depth = long >>= λ z. pure tt

  -- A node deeper than `max_depth` is refused, so a fuel of `max_depth + 2` is enough at depth 0.
  unfoldable pub scan : ℕ → Schema → Option Text → ℕ → Scan
  unfolding scan_schema
  scan zero schema ns depth = λ s. stuck
  scan (suc f) schema ns depth = do
    charge (node depth)
    scan_schema (λ schema' ns' depth'. scan f schema' ns' depth') schema ns depth
