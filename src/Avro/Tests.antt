-- ===== src/Avro/Tests.antt =====
-- The Avro scan on concrete schemas and datums, and the theorems at concrete inputs.
use onetui.Base.{
  negsuc, ℕ, ◌+◌, ◌≤◌, ◌<◌, ◌≡◌, refl, ◌⊎◌, false, none, some, List, [], ◌∷◌, ◌++◌, length, take,
  get_elem?, ok, err, arith, Settles,
}
use onetui.Reader.{State}
use onetui.Avro.{
  trailing_bytes, truncated, block_size, max_error_bytes, max_nodes, max_schema_bytes,
}
use onetui.Avro.Budget.{Budget, fresh}
use onetui.Avro.Long.{long}
use onetui.Avro.Long.RoundTrip.{IsI64, encode, long-encode}
use onetui.Avro.Long.Bounds.{long_takes}
use onetui.Avro.Schema.{
  Schema, Names, Text, record_of, ref, array, union, variant, no_variants, field, no_fields, null,
}
use onetui.Avro.Scan.{scan}
use onetui.Avro.Scan.Accounts.{scan-Settles, scan_accounts, scan-append}
use onetui.Avro.Decoder.{Library, continues, bound_error, dots, decode}
use onetui.Avro.Decoder.Results.{bound_error_fits, decode-extended}

abbrev at : List ℕ → State Budget
at input = record { input = input; budget = fresh }

-- A linked list: a record of a long and a union of null and the record itself.
abbrev node_name : Text
node_name = b'N' ∷ []

abbrev list_schema : Schema
list_schema = record_of node_name (
    field (b'v' ∷ []) Schema.long
      (field (b'n' ∷ []) (union (variant null (variant (ref node_name) no_variants))) no_fields))

abbrev names : Names
names = record { qualify = λ n ns. n; namespace_of = λ n. none; get = λ n. some list_schema }

abbrev two_nodes : List ℕ
two_nodes = 2 ∷ 2 ∷ 4 ∷ 0 ∷ []

two_nodes-scan :
    scan names 34 list_schema none 0 (at two_nodes)
    ≡ ok (tt, record { input = []; budget = record { nodes = 8; names = 4 } })
unfolding scan
two_nodes-scan = refl

cut_list : scan names 34 list_schema none 0 (at (2 ∷ 2 ∷ [])) ≡ err truncated
unfolding scan
cut_list = refl

-- A block of a negative count carries its size in bytes.
sized_block :
    scan names 34 (array Schema.long) none 0 (at (3 ∷ 4 ∷ 2 ∷ 6 ∷ 0 ∷ []))
    ≡ ok (tt, record { input = []; budget = record { nodes = 3; names = 0 } })
unfolding scan
sized_block = refl

wrong_size : scan names 34 (array Schema.long) none 0 (at (3 ∷ 2 ∷ 2 ∷ 6 ∷ 0 ∷ [])) ≡ err block_size
unfolding scan
wrong_size = refl

long-encode_example :
    long (record { input = encode (negsuc 299) ++ (9 ∷ []); budget = fresh })
    ≡ ok (negsuc 299, record { input = 9 ∷ []; budget = fresh })
long-encode_example = long-encode (negsuc 299) (9 ∷ []) fresh (omega arith)

padded : long (at (0x81 ∷ 0x00 ∷ 7 ∷ [])) ≡ ok (negsuc 0, at (7 ∷ []))
unfolding long
padded = refl

long_takes_example : IsI64 (negsuc 0) × (1 < 3) × (3 ≤ 1 + 10) × (fresh ≡ fresh)
long_takes_example = long_takes (at (0x81 ∷ 0x00 ∷ 7 ∷ [])) (negsuc 0, at (7 ∷ [])) padded

scan-Settles_example : Settles (scan names 34 list_schema none 0 (at (2 ∷ 2 ∷ [])))
scan-Settles_example = scan-Settles names list_schema none (at (2 ∷ 2 ∷ [])) (omega arith)

scan_accounts_example :
    (used : List ℕ) × (two_nodes ≡ used ++ [])
    × (0 ≤ 8)
    × (8 ≤ max_nodes)
    × (0 ≤ 4)
    × (4 ≤ max_schema_bytes)
scan_accounts_example =
    scan_accounts names list_schema none (at two_nodes)
      (tt, record { input = []; budget = record { nodes = 8; names = 4 } }) (omega arith)
      two_nodes-scan

scan-append_example :
    scan names 34 list_schema none 0 (at (two_nodes ++ 5 ∷ []))
    ≡ ok (tt, record { input = 5 ∷ []; budget = record { nodes = 8; names = 4 } })
scan-append_example =
    scan-append names list_schema none (at two_nodes)
      (tt, record { input = []; budget = record { nodes = 8; names = 4 } }) (5 ∷ []) two_nodes-scan

abbrev short_error : Text
short_error = b'b' ∷ b'a' ∷ b'd' ∷ []

bound_error_fits_example :
    (length (bound_error short_error) ≤ max_error_bytes)
    × (length short_error ≤ max_error_bytes → bound_error short_error ≡ short_error)
    × (max_error_bytes < length short_error
        → (n : ℕ) × (bound_error short_error ≡ take n short_error ++ dots)
          × ((n ≡ 0) ⊎ (continues (get_elem? short_error n) ≡ false)))
bound_error_fits_example = bound_error_fits short_error

-- A library whose values are the bytes read.
abbrev echo : Library
echo = record {
  Value = List ℕ;
  names_of = λ refs schema. ok names;
  read_value = λ refs schema bytes. ok (bytes, []);
}

two_nodes-decode : decode echo list_schema [] two_nodes ≡ ok two_nodes
unfolding decode scan
two_nodes-decode = refl

decode-extended_example : decode echo list_schema [] (two_nodes ++ 5 ∷ []) ≡ err trailing_bytes
decode-extended_example =
    decode-extended echo list_schema [] two_nodes two_nodes 5 [] two_nodes-decode
