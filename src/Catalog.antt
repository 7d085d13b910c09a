-- ===== src/Catalog.antt =====
-- A catalog directory of schemas (`valid_id` and `Config::validate` of
-- `crates/schema-source/src/lib.rs`).
pub mod Valid
pub mod Tests
use onetui.Base.{
  ℕ, ◌≡◌, Bool, true, false, ◌&&◌, ◌||◌, not, List, [], ◌∷◌, ◌++◌, if◌then◌else◌, any, all, length,
  ◌==◌, leb, Outcome, ok, err, ◌>>=◌, ◌>>◌, ensure,
}
use onetui.Text.{Text, str, text_eq, is_empty, byte_len, as_bytes, is_control, starts_with}

pub data Format : Type 0 where
  avro protobuf : Format

pub record Config : Type 0 where
  pub directory : Text
  pub schema : Text
  pub references : List Text

pub data ConfigError : Type 0 where
  bad_directory bad_schema too_many unwanted_references bad_reference : ConfigError

abbrev is_id_byte : ℕ → Bool
is_id_byte b =
    (leb b'0' b && leb b b'9')
    || (leb b'A' b && leb b b'Z')
    || (leb b'a' b && leb b b'z')
    || b == b'.'
    || b == b'_'
    || b == b'-'

unfoldable pub valid_id : Text → Bool
valid_id id =
    not (is_empty id)
    && leb (byte_len id) 128
    && not (text_eq id (str ".") || text_eq id (str ".."))
    && all is_id_byte (as_bytes id)

-- `Path::is_absolute` on Unix.
abbrev pub valid_directory : Text → Bool
valid_directory directory =
    leb (byte_len directory) 4096
    && not (any is_control directory)
    && starts_with (str "/") directory

abbrev pub is_new : Text → List Text → Text → Bool
is_new schema seen name =
    valid_id name && not (text_eq name schema) && not (any (text_eq name) seen)

-- The loop over the references, after those seen before.
unfoldable pub check_references : Text → List Text → List Text → Outcome ConfigError (Unit {0})
unfolding valid_id
check_references schema seen [] = ok tt
check_references schema seen (name ∷ later) =
    let rest = check_references schema (seen ++ name ∷ []) later in
    ensure (is_new schema seen name) bad_reference >> rest

abbrev pub takes_references : Format → List Text → Bool
takes_references avro references = true
takes_references protobuf references = leb (length references) 0

unfoldable pub validate : Format → Config → Outcome ConfigError (Unit {0})
unfolding check_references
validate format config =
    ensure (valid_directory (Config.directory config)) bad_directory
    >> (ensure (valid_id (Config.schema config)) bad_schema
        >> (ensure (leb (length (Config.references config)) 32) too_many
            >> (ensure (takes_references format (Config.references config)) unwanted_references
                >> check_references (Config.schema config) [] (Config.references config))))
