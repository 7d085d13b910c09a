-- ===== src/Avro/Budget.antt =====
-- `Budget` of crates/avro/src/bounds.rs: the nodes and the bytes of names that one decoding has
-- spent. A method takes the budget and returns the new one.
use onetui.Base.{
  ℕ, ◌+◌, ◌-◌, ◌^◌, ◌≤◌, leb, ltb, if◌then◌else◌, Outcome, ok, panicked, ensure, ◌>>◌, arith,
  Ensures, Settles, ◌≡◌,
}
use onetui.Avro.{
  Error, depth_exceeded, nodes_exceeded, collection_exceeded, name_overflow, names_exceeded,
  max_depth, max_nodes, max_schema_bytes,
}
use onetui.Reader.Safe.{Spending}

pub record Budget : Type 0 where
  pub nodes : ℕ
  pub names : ℕ

-- `Budget::default()`.
abbrev pub fresh : Budget
fresh = record { nodes = 0; names = 0 }

unfoldable pub node : ℕ → Budget → Outcome Error Budget
node depth b = do
  ensure (leb depth max_depth) depth_exceeded
  let b' = record b { nodes = b.nodes + 1 }
  ensure (leb b'.nodes max_nodes) nodes_exceeded
  ok b'

-- The subtraction of two `usize` panics when it is negative.
unfoldable pub collection : ℕ → Budget → Outcome Error Budget
collection count b =
    if ltb max_nodes b.nodes
    then panicked
    else ensure (leb count (max_nodes - b.nodes)) collection_exceeded >> ok b

-- `checked_add` fails at the width of `usize`.
unfoldable pub name : ℕ → Budget → Outcome Error Budget
name len b = do
  ensure (ltb (b.names + len) (2 ^ 64)) name_overflow
  let b' = record b { names = b.names + len }
  ensure (leb b'.names max_schema_bytes) names_exceeded
  ok b'

pub record IsWithin (b : Budget) : Type 0 where
  pub nodes_le : b.nodes ≤ max_nodes
  pub names_le : b.names ≤ max_schema_bytes

pub record Grows (b c : Budget) : Type 0 where
  pub nodes_le : b.nodes ≤ c.nodes
  pub names_le : b.names ≤ c.names

pub Grows-refl : (b : Budget) → Grows b b
Grows-refl b = omega arith

pub Grows-trans : {b c d : Budget} → Grows b c → Grows c d → Grows b d
Grows-trans p q = omega arith

abbrev pub spending : Spending Budget
spending = record {
  IsWithin = IsWithin;
  Grows = Grows;
  Grows-refl = Grows-refl;
  Grows-trans = Grows-trans;
}

pub node-Settles : (depth : ℕ) (b : Budget) → Settles (node depth b)
unfolding node
node-Settles depth b = ground arith

-- A node is charged for, and the budget stays within its bound.
pub node_spends :
    (depth : ℕ) (b : Budget)
    → IsWithin b
    → Ensures (λ c. (c.nodes ≡ b.nodes + 1) × Grows b c × IsWithin c) (node depth b)
unfolding node
node_spends depth b h = ground arith

pub collection-Settles : (count : ℕ) (b : Budget) → IsWithin b → Settles (collection count b)
unfolding collection
collection-Settles count b h = ground arith

pub collection_spends :
    (count : ℕ) (b : Budget)
    → IsWithin b
    → Ensures (λ c. Grows b c × IsWithin c) (collection count b)
unfolding collection
collection_spends count b h = ground arith

pub name-Settles : (len : ℕ) (b : Budget) → Settles (name len b)
unfolding name
name-Settles len b = ground arith

pub name_spends :
    (len : ℕ) (b : Budget) → IsWithin b → Ensures (λ c. Grows b c × IsWithin c) (name len b)
unfolding name
name_spends len b h = ground arith
