-- ===== src/Protobuf/Scan/Accounts.antt =====
-- The scan of a message as `decode` starts it: at depth 0, outside any group, with enough fuel for
-- every depth allowed.
use onetui.Base.{
  ℕ, zero, suc, length, ◌≤◌, ◌≡◌, Option, none, some, List, [], ◌∷◌, ok, arith, Settles, Ensures-ok,
  >>=-eq-ok, ok-injective, ap, sym, Bool-cases, inl, inr, ◌∙◌,
}
use onetui.Reader.{State, ◌>>=◌, pure, charge, when_empty}
use onetui.Reader.Loop.{repeat_leaves}
use onetui.Protobuf.{max_nodes}
use onetui.Protobuf.Budget.{Budget, node, IsWithin}
use onetui.Protobuf.Scan.{
  Wire, WireType, Scan, Ending, ended, exhausted, key, is_end, field_of, scan_value, scan_field,
  scan_fields, leave, scan,
}
use onetui.Protobuf.Scan.Safe.{Takes, scan-Safe}

abbrev pub all_depths : ℕ
all_depths = 34

-- How the fields of a message that is in no group can end.
abbrev Ends : Ending → State Budget → Type 0
Ends ended s = ⊥
Ends exhausted s = s.input ≡ []

module _ {D : Type 0} (wire : Wire D) where
  field_goes_on :
      (visit : Option D → ℕ → Option ℕ → Scan) (descriptor : Option D) (depth : ℕ)
      (k : ℕ × WireType) (s : State Budget) (a : Ending) (s' : State Budget)
      → scan_field wire visit descriptor depth none k s ≡ ok (some a, s')
      → ⊥
  unfolding scan_field
  field_goes_on visit descriptor depth (number, kind) s a s' e =
      elim (Bool-cases (is_end wire visit kind)) [
        | inl last ↦ let no_value = rw last at e in cc
        | inr more ↦
            let (q, eq, er) = >>=-eq-ok (charge (node depth) s) _ (rw more at e) in
            let (p, ep, e1) =
              >>=-eq-ok
                (scan_value wire visit (field_of wire descriptor number) depth number kind q.1) _
                er in
            cc
      ]

  round_stops :
      (visit : Option D → ℕ → Option ℕ → Scan) (descriptor : Option D) (depth : ℕ) (input : List ℕ)
      (b : Budget) (a : Ending) (s' : State Budget)
      → when_empty
          (pure (some exhausted))
          (key wire >>= scan_field wire visit descriptor depth none)
          (record { input = input; budget = b })
        ≡ ok (some a, s')
      → Ends a s'
  round_stops visit descriptor depth [] b ended s' e = cc
  round_stops visit descriptor depth [] b exhausted s' e =
      sym (ap (λ (p : Option Ending × State Budget). p.1.input) (ok-injective e))
  round_stops visit descriptor depth (c ∷ cs) b a s' e =
      let (q, eq, er) = >>=-eq-ok (key wire (record { input = c ∷ cs; budget = b })) _ e in
      absurd (field_goes_on visit descriptor depth q.0 q.1 a s' er)

  fields_end :
      (visit : Option D → ℕ → Option ℕ → Scan) (descriptor : Option D) (depth : ℕ)
      (s : State Budget) (r : Ending × State Budget)
      → scan_fields wire visit descriptor depth none s ≡ ok r
      → Ends r.0 r.1
  unfolding scan_fields
  fields_end visit descriptor depth s r e =
      repeat_leaves Ends _
        (λ s a s' e'. round_stops visit descriptor depth s.input s.budget a s' e')
        (suc (length s.input)) s r e

  leave_keeps :
      (ending : Ending) (s : State Budget) (r : Unit {0} × State Budget)
      → leave wire none ending s ≡ ok r
      → s.input ≡ r.1.input
  leave_keeps ended s r e = ap (λ (p : Unit × State Budget). p.1.input) (ok-injective e)
  leave_keeps exhausted s r e = ap (λ (p : Unit × State Budget). p.1.input) (ok-injective e)

  leave_empty :
      (ending : Ending) (s : State Budget) (r : Unit {0} × State Budget)
      → Ends ending s
      → leave wire none ending s ≡ ok r
      → r.1.input ≡ []
  leave_empty ended s r h e = absurd h
  leave_empty exhausted s r h e = sym (leave_keeps exhausted s r e) ∙ h

  -- Outside a group, a successful scan has read its input to the end.
  scan_exhausts :
      (f : ℕ) (descriptor : Option D) (depth : ℕ) (s : State Budget) (r : Unit {0} × State Budget)
      → scan wire f descriptor depth none s ≡ ok r
      → r.1.input ≡ []
  unfolding scan
  scan_exhausts zero descriptor depth s r e = cc
  scan_exhausts (suc f) descriptor depth s r e =
      let (q, eq, e1) = >>=-eq-ok (charge (node depth) s) _ e in
      let (p, ep, e2) =
        >>=-eq-ok (scan_fields wire (λ d n g. scan wire f d n g) descriptor depth none q.1) _ e1 in
      leave_empty p.0 p.1 r (fields_end (λ d n g. scan wire f d n g) descriptor depth q.1 p ep) e2

  module _ (key_takes : Takes wire.decode_key) (varint_takes : Takes wire.decode_varint)
      (descriptor : Option D) where
    -- Where `prost` takes a byte at least for a key and for a varint, the scan of a message returns
    -- or reports an error on every input: it never panics and never needs more fuel.
    pub scan_message-Settles :
        (s : State Budget) → IsWithin s.budget → Settles (scan wire all_depths descriptor 0 none s)
    scan_message-Settles s h =
        (scan-Safe wire key_takes varint_takes all_depths descriptor 0 none (omega arith)
            (omega arith)).settles
          s h

    -- Where `prost` takes a byte at least for a key and for a varint, a successful scan of a message
    -- has read the whole input, and the nodes that it spent are within the bound.
    pub scan_message_accounts :
        (s : State Budget) (r : Unit {0} × State Budget)
        → IsWithin s.budget
        → scan wire all_depths descriptor 0 none s ≡ ok r
        → (r.1.input ≡ []) × (s.budget.nodes ≤ r.1.budget.nodes) × (r.1.budget.nodes ≤ max_nodes)
    scan_message_accounts s r h e =
        let safe =
          scan-Safe wire key_takes varint_takes all_depths descriptor 0 none (omega arith)
            (omega arith) in
        let a = Ensures-ok _ (scan wire all_depths descriptor 0 none s) (safe.advances s h) e in
        (scan_exhausts all_depths descriptor 0 s r e, a.grows, a.is_within)
