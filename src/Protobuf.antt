-- ===== src/Protobuf.antt =====
-- crates/protobuf: the bounded decoding of Protobuf messages. The limits of src/lib.rs and the
-- errors that the crate's own checks report; `library` stands for an error of `prost`,
-- `prost_reflect` or `protox`.
pub mod Budget
pub mod Scan
pub mod Source
mod Tests
use onetui.Base.{ℕ}

abbrev pub max_schema_bytes : ℕ
max_schema_bytes = 262_144

abbrev pub max_payload_bytes : ℕ
max_payload_bytes = 65_536

abbrev pub max_depth : ℕ
max_depth = 32

abbrev pub max_nodes : ℕ
max_nodes = 4096

pub data Error : Type 0 where
  depth_exceeded nodes_exceeded truncated out_of_range : Error
  unexpected_end_group truncated_group any_json : Error
  bundle_exceeded unterminated_comment nesting_exceeded declarations_exceeded : Error
  imports_exceeded import_name source_overflow duplicate_import : Error
  index_depth index_out_of_range map_entry name_exceeded : Error
  library : Error
