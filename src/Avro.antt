-- ===== src/Avro.antt =====
-- crates/avro: the bounded decoding of Avro datums. The limits of src/lib.rs and the errors that
-- the crate's own checks report; `library` stands for an error of `apache_avro` or `serde_json`.
pub mod Budget
pub mod Long
pub mod Schema
pub mod Scan
pub mod Decoder
mod Tests
use onetui.Base.{ℕ, ◌*◌}

abbrev pub max_schema_bytes : ℕ
max_schema_bytes = 262_144

abbrev pub max_depth : ℕ
max_depth = 32

abbrev pub max_nodes : ℕ
max_nodes = 4096

abbrev pub max_output_bytes : ℕ
max_output_bytes = 1_048_576

abbrev pub max_error_bytes : ℕ
max_error_bytes = 512

pub data Error : Type 0 where
  depth_exceeded nodes_exceeded collection_exceeded name_overflow names_exceeded : Error
  truncated long_overflow out_of_range count_overflow block_size : Error
  enum_index union_index unresolved_reference big_decimal : Error
  trailing_bytes payload_exceeded output_exceeded : Error
  library : Error
