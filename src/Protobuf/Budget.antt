-- ===== src/Protobuf/Budget.antt =====
-- `Budget` of crates/protobuf/src/bounds.rs: the nodes that one scan has spent.
use onetui.Base.{ℕ, ◌+◌, ◌≤◌, leb, Outcome, ok, ensure, ◌>>◌, arith, Ensures, Settles}
use onetui.Protobuf.{Error, depth_exceeded, nodes_exceeded, max_depth, max_nodes}
use onetui.Reader.Safe.{Spending}

pub record Budget : Type 0 where
  pub nodes : ℕ

-- `Budget::default()`.
abbrev pub fresh : Budget
fresh = record { nodes = 0 }

unfoldable pub node : ℕ → Budget → Outcome Error Budget
node depth b = do
  ensure (leb depth max_depth) depth_exceeded
  let b' = record b { nodes = b.nodes + 1 }
  ensure (leb b'.nodes max_nodes) nodes_exceeded
  ok b'

abbrev pub IsWithin : Budget → Type 0
IsWithin b = b.nodes ≤ max_nodes

abbrev pub Grows : Budget → Budget → Type 0
Grows b c = b.nodes ≤ c.nodes

pub Grows-refl : (b : Budget) → Grows b b
Grows-refl b = omega arith

pub Grows-trans : {b c d : Budget} → Grows b c → Grows c d → Grows b d
Grows-trans p q = omega arith

abbrev pub spending : Spending Budget
spending = record {
  IsWithin = IsWithin;
  Grows = Grows;
  Grows-refl = Grows-refl;
  Grows-trans = λ {b} {c} {d} p q. Grows-trans {b = b} {c = c} {d = d} p q;
}

pub node-Settles : (depth : ℕ) (b : Budget) → Settles (node depth b)
unfolding node
node-Settles depth b = ground arith

pub node_spends :
    (depth : ℕ) (b : Budget) → IsWithin b → Ensures (λ c. Grows b c × IsWithin c) (node depth b)
unfolding node
node_spends depth b h = ground arith
