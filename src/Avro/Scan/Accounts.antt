-- ===== src/Avro/Scan/Accounts.antt =====
-- The scan of a datum as `decode` starts it: at depth 0, with enough fuel for every depth allowed.
use onetui.Base.{ℕ, ◌≤◌, ◌≡◌, List, ◌++◌, Option, ok, arith, Settles, Ensures-ok}
use onetui.Reader.{State}
use onetui.Reader.Laws.{IsSound}
use onetui.Avro.{max_nodes, max_schema_bytes}
use onetui.Avro.Budget.{Budget, IsWithin}
use onetui.Avro.Schema.{Schema, Names, Text}
use onetui.Avro.Scan.{scan}
use onetui.Avro.Scan.Sound.{scan-Sound, Sound}

-- The fuel for the depths 0 to `max_depth + 1`.
abbrev pub all_depths : ℕ
all_depths = 34

module _ (names : Names) (schema : Schema) (ns : Option Text) where
  sound : Sound (scan names all_depths schema ns 0)
  sound = scan-Sound names all_depths schema ns 0 (omega arith) (omega arith)

  -- The scan returns or reports an error on every input: it never panics and never needs more fuel,
  -- also where the schema refers to itself.
  pub scan-Settles :
      (s : State Budget) → IsWithin s.budget → Settles (scan names all_depths schema ns 0 s)
  scan-Settles s h = sound.safe.settles s h

  -- What a successful scan leaves is a suffix of its input, and what it spent is within the bounds
  -- on nodes and names.
  pub scan_accounts :
      (s : State Budget) (r : Unit {0} × State Budget)
      → IsWithin s.budget
      → scan names all_depths schema ns 0 s ≡ ok r
      → (used : List ℕ) × (s.input ≡ used ++ r.1.input)
        × (s.budget.nodes ≤ r.1.budget.nodes)
        × (r.1.budget.nodes ≤ max_nodes)
        × (s.budget.names ≤ r.1.budget.names)
        × (r.1.budget.names ≤ max_schema_bytes)
  scan_accounts s r h e =
      let a = Ensures-ok _ (scan names all_depths schema ns 0 s) (sound.safe.advances s h) e in
      (
        a.used, a.split, a.grows.nodes_le, a.is_within.nodes_le, a.grows.names_le,
        a.is_within.names_le,
      )

  -- A successful scan does not look past the datum: with more bytes behind the input it takes the
  -- same bytes, spends the same, and leaves those bytes behind its rest.
  pub scan-append :
      (s : State Budget) (r : Unit {0} × State Budget) (extra : List ℕ)
      → scan names all_depths schema ns 0 s ≡ ok r
      → scan names all_depths schema ns 0 (record { input = s.input ++ extra; budget = s.budget })
        ≡ ok (tt, record { input = r.1.input ++ extra; budget = r.1.budget })
  scan-append s r extra e = IsSound.local sound s r extra e
