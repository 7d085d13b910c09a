-- ===== src/Avro/Schema.antt =====
-- The `Schema` of `apache_avro` as crates/avro/src/avro.rs matches on it, and the names that it
-- resolves. Text is its bytes.
use onetui.Base.{ℕ, zero, suc, List, Option, none, some}

abbrev pub Text : Type 0
Text = List ℕ

-- `InnerDecimalSchema`.
pub data DecimalInner : Type 0 where
  bytes : DecimalInner
  fixed : ℕ → DecimalInner

-- `UuidSchema`.
pub data UuidSchema : Type 0 where
  string bytes : UuidSchema
  fixed : ℕ → UuidSchema

-- A record has its name and its fields, an enum its symbols, and `fixed` and `duration` a size.
mutual
  pub data Schema : Type 0 where
    null boolean : Schema
    int long date time_millis time_micros : Schema
    timestamp_millis timestamp_micros timestamp_nanos : Schema
    local_timestamp_millis local_timestamp_micros local_timestamp_nanos : Schema
    float double bytes string : Schema
    fixed duration : ℕ → Schema
    decimal : DecimalInner → Schema
    big_decimal : Schema
    uuid : UuidSchema → Schema
    enum : List Text → Schema
    union : Variants → Schema
    record_of : Text → Fields → Schema
    ref : Text → Schema
    array : Schema → Schema
    map : Schema → Schema

  pub data Variants : Type 0 where
    no_variants : Variants
    variant : Schema → Variants → Variants

  pub data Fields : Type 0 where
    no_fields : Fields
    field : Text → Schema → Fields → Fields

-- `union.variants().get(index)`.
unfoldable pub get_variant : Variants → ℕ → Option Schema
get_variant no_variants i = none
get_variant (variant s vs) zero = some s
get_variant (variant s vs) (suc i) = get_variant vs i

-- `record.fields.len()`.
unfoldable pub count_fields : Fields → ℕ
count_fields no_fields = 0
count_fields (field n s fs) = suc (count_fields fs)

-- What the scan asks of `apache_avro`: a name qualified by the enclosing namespace, the namespace of
-- a qualified name, and the schema that a qualified name stands for.
pub record Names : Type 0 where
  pub qualify : Text → Option Text → Text
  pub namespace_of : Text → Option Text
  pub get : Text → Option Schema
