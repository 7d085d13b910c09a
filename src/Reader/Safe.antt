-- ===== src/Reader/Safe.antt =====
-- What every step of a scan keeps: it settles, and it only moves forward within its budget.
use onetui.Base
use onetui.Base.{
  ℕ, ◌+◌, ◌≡◌, refl, sym, ◌∙◌, ap, List, [], ◌∷◌, ◌++◌, append_assoc, length, arith, Outcome, ok,
  err, panicked, stuck, Ensures, Settles, Ensures-ok, Settles-bind, >>=-eq-ok, Bool-cases, Option,
  none, some, Option-cases, leb, leb→le, length-drop, take-append-drop, take-append, subst,
  drop-append, le→leb, length-append, inl, inr, Ensures-of, Ensures-bind, ◌-◌, ◌≤◌, ◌<◌,
  ok-injective,
}
use onetui.Reader.{
  State, Reads, pure, ◌>>=◌, lift, charge, within, counting, take, when_empty, foreign,
}

-- The order in which a budget is spent, and when it is within its bounds.
pub record Spending (B : Type 0) : Type 1 where
  pub IsWithin : B → Type 0
  pub Grows : B → B → Type 0
  pub Grows-refl : (b : B) → Grows b b
  pub Grows-trans : {b c d : B} → Grows b c → Grows c d → Grows b d

abbrev pub extend : {B : Type 0} → State B → List ℕ → State B
extend s extra = record { input = s.input ++ extra; budget = s.budget }

module _ {B : Type 0} (sp : Spending B) where
  -- From `s` to `s'` a front of the input was taken and the budget was only spent.
  pub record Advances (s s' : State B) : Type 0 where
    pub used : List ℕ
    pub split : s.input ≡ used ++ s'.input
    pub grows : sp.Grows s.budget s'.budget
    pub is_within : sp.IsWithin s'.budget

  pub Advances-refl : (s : State B) → sp.IsWithin s.budget → Advances s s
  Advances-refl s h = record {
    used = [];
    split = refl;
    grows = sp.Grows-refl s.budget;
    is_within = h;
  }

  pub Advances-trans : {s t u : State B} → Advances s t → Advances t u → Advances s u
  Advances-trans {s} {t} {u} a b = record {
    used = a.used ++ b.used;
    split = a.split ∙ ap (λ x. a.used ++ x) b.split ∙ sym (append_assoc a.used b.used u.input);
    grows = sp.Grows-trans a.grows b.grows;
    is_within = b.is_within;
  }

  -- What is left is no longer than before.
  pub length-Advances : {s t : State B} → Advances s t → length t.input ≤ length s.input
  length-Advances {s} {t} a = omega (arith, ap length a.split, length-append a.used t.input)

module _ {B E : Type 0} (sp : Spending B) where
  -- A step that always settles and moves forward.
  pub record IsSafe {A : Type 0} (m : Reads B E A) : Type 0 where
    pub settles : (s : State B) → sp.IsWithin s.budget → Settles (m s)
    pub advances : (s : State B) → sp.IsWithin s.budget → Ensures (λ r. Advances sp s r.1) (m s)

module _ {B E : Type 0} (sp : Spending B) where
  pub IsSafe-pure : {A : Type 0} (a : A) → IsSafe sp (pure {E = E} a)
  IsSafe-pure a = record { settles = λ s h. tt; advances = λ s h. Advances-refl sp s h }

  module _ {A C : Type 0} (m : Reads B E A) (f : A → Reads B E C) where
    pub IsSafe-bind : IsSafe sp m → ((a : A) → IsSafe sp (f a)) → IsSafe sp (m >>= f)
    IsSafe-bind hm hf = record {
      settles = λ s h.
          Settles-bind (m s) (λ r. f r.0 r.1) (hm.settles s h)
            λ r e. (hf r.0).settles r.1 (Ensures-ok _ (m s) (hm.advances s h) e).is_within;
      advances = λ s h. Ensures-of _ _ λ r e.
          let (q, em, ef) = >>=-eq-ok (m s) (λ r. f r.0 r.1) e in
          let first = Ensures-ok (λ r. Advances sp s r.1) (m s) (hm.advances s h) em in
          Advances-trans sp first (
            Ensures-ok (λ r. Advances sp q.1 r.1) (f q.0 q.1)
              ((hf q.0).advances q.1 first.is_within) ef);
    }

  pub IsSafe-lift : {A : Type 0} (m : Outcome E A) → Settles m → IsSafe sp {A = A} (lift m)
  IsSafe-lift (ok a) h = IsSafe-pure a
  IsSafe-lift (err e) h = record { settles = λ s h. tt; advances = λ s h. tt }
  IsSafe-lift panicked h = absurd h
  IsSafe-lift stuck h = absurd h

  -- A method of the budget that settles and spends.
  pub IsSafe-charge :
      (f : B → Outcome E B)
      → ((b : B) → sp.IsWithin b → Settles (f b))
      → ((b : B) → sp.IsWithin b → Ensures (λ b'. sp.Grows b b' × sp.IsWithin b') (f b))
      → IsSafe sp (charge f)
  IsSafe-charge f total spends = record {
    settles = λ s h. Settles-bind (f s.budget) _ (total s.budget h) (λ b e. tt);
    advances = λ s h.
        Ensures-of (λ (r : Unit × State B). Advances sp s r.1) _
          λ r e.
            let (b, eb, er) = >>=-eq-ok (f s.budget) _ e in
            let (grows, inside) = Ensures-ok _ (f s.budget) (spends s.budget h) eb in
            subst (λ q. Advances sp s q.1) (ok-injective er)
              (record { used = []; split = refl; grows = grows; is_within = inside });
  }

  pub IsSafe-counting : {A : Type 0} (m : Reads B E A) → IsSafe sp m → IsSafe sp (counting m)
  IsSafe-counting {A} m hm = record {
    settles = λ s h. Settles-bind (m s) _ (hm.settles s h) (λ r e. tt);
    advances = λ s h.
        Ensures-bind (λ (r : A × State B). Advances sp s r.1) _ (m s) _ (hm.advances s h)
          (λ r a. a);
  }

  -- The scan of a part leaves the outer input alone.
  pub IsSafe-within :
      {A : Type 0} (body : List ℕ) (m : Reads B E A) → IsSafe sp m → IsSafe sp (within body m)
  IsSafe-within {A} body m hm = record {
    settles = λ s h.
        Settles-bind (m (record { input = body; budget = s.budget })) _ (hm.settles _ h)
          (λ r e. tt);
    advances = λ s h.
        Ensures-of (λ (r : A × State B). Advances sp s r.1) _
          λ r e.
            let (q, eq, er) = >>=-eq-ok (m (record { input = body; budget = s.budget })) _ e in
            let inner =
              Ensures-ok _ (m (record { input = body; budget = s.budget })) (hm.advances _ h) eq in
            subst (λ (q : A × State B). Advances sp s q.1) (ok-injective er)
              (record {
                used = [];
                split = refl;
                grows = inner.grows;
                is_within = inner.is_within;
              });
  }

  pub IsSafe-take : (truncated : E) (len : ℕ) → IsSafe sp (take truncated len)
  unfolding take
  IsSafe-take truncated len = record {
    settles = λ s h. ground arith;
    advances = λ s h. elim (Bool-cases (leb len (length s.input))) [
      | inl fits ↦ rw fits (record {
        used = Base.take len s.input;
        split = sym (take-append-drop len s.input);
        grows = sp.Grows-refl s.budget;
        is_within = h;
      })
      | inr short ↦ rw short tt
    ];
  }

  IsSafe-when_empty_at :
      {A : Type 0} (x y : Reads B E A) (input : List ℕ) (b : B)
      → IsSafe sp x
      → IsSafe sp y
      → sp.IsWithin b
      → let s : State B = record { input = input; budget = b } in
        Settles (when_empty x y s) × Ensures (λ r. Advances sp s r.1) (when_empty x y s)
  IsSafe-when_empty_at x y [] b hx hy h = (hx.settles _ h, hx.advances _ h)
  IsSafe-when_empty_at x y (c ∷ cs) b hx hy h = (hy.settles _ h, hy.advances _ h)

  pub IsSafe-when_empty :
      {A : Type 0} (x y : Reads B E A) → IsSafe sp x → IsSafe sp y → IsSafe sp (when_empty x y)
  IsSafe-when_empty x y hx hy = record {
    settles = λ s h. (IsSafe-when_empty_at x y s.input s.budget hx hy h).0;
    advances = λ s h. (IsSafe-when_empty_at x y s.input s.budget hx hy h).1;
  }

  -- A decoder of another library that leaves a suffix of its input.
  pub IsSafe-foreign :
      {A : Type 0} (decode : List ℕ → Option (A × List ℕ)) (failed : E)
      → ((input : List ℕ) (r : A × List ℕ)
          → decode input ≡ some r
          → (used : List ℕ) × (input ≡ used ++ r.1))
      → IsSafe sp (foreign decode failed)
  IsSafe-foreign {A} decode failed takes = record {
    settles = λ s h. elim (Option-cases (decode s.input)) [
      | inl failure ↦ rw failure tt
      | inr (r, e) ↦ rw e tt
    ];
    advances = λ s h. elim (Option-cases (decode s.input)) [
      | inl failure ↦ rw failure tt
      | inr (r, e) ↦ rw e (
          let (used, split) = takes s.input r e in
          record { used = used; split = split; grows = sp.Grows-refl s.budget; is_within = h })
    ];
  }

-- What a successful `take` gives and leaves.
pub take-eq-ok :
    {B E : Type 0} (truncated : E) (len : ℕ) (s : State B) {r : List ℕ × State B}
    → take truncated len s ≡ ok r
    → (length r.1.input + len ≡ length s.input)
      × (r.0 ≡ Base.take len s.input)
      × (r.1 ≡ record { input = Base.drop len s.input; budget = s.budget })
unfolding take
take-eq-ok truncated len s {r} e = elim (Bool-cases (leb len (length s.input))) [
  | inl fits ↦
      let q = ok-injective (rw fits at e) in
      let left = ap (λ (p : List ℕ × State _). length p.1.input) q in
      (
        omega (arith, leb→le _ _ fits, length-drop len s.input),
        ap (λ (p : List ℕ × State _). p.0) (sym q),
        ap (λ (p : List ℕ × State _). p.1) (sym q),
      )
  | inr short ↦ let no_value = rw short at e in cc
]

-- A step whose success takes a byte at least.
abbrev pub Consumes : {B E A : Type 0} → Reads B E A → Type 0
Consumes {B} {E} {A} m =
    (s : State B) (r : A × State B) → m s ≡ ok r → length r.1.input < length s.input

pub Consumes-take :
    {B E : Type 0} (truncated : E) (len : ℕ) → 0 < len → Consumes {B = B} (take truncated len)
Consumes-take truncated len h s r e = omega (arith, (take-eq-ok truncated len s e).0)

pub Consumes-foreign :
    {B E A : Type 0} (decode : List ℕ → Option (A × List ℕ)) (failed : E)
    → ((input : List ℕ) (r : A × List ℕ)
        → decode input ≡ some r
        → (used : List ℕ) × (input ≡ used ++ r.1) × (0 < length used))
    → Consumes {B = B} (foreign decode failed)
Consumes-foreign {B} {E} {A} decode failed takes s r e = elim (Option-cases (decode s.input)) [
  | inl failure ↦ let no_value = rw failure at e in cc
  | inr (q, eq) ↦
      let (used, split, some_byte) = takes s.input q eq in
      let left : q.1 ≡ r.1.input =
        ap (λ (p : A × State B). p.1.input) (ok-injective (rw eq at e)) in
      rw (← left) (omega (arith, ap length split, length-append used q.1))
]

-- A step that takes a byte and then only answers.
pub Consumes-answer :
    {B E A C : Type 0} (m : Reads B E A) (c : C) → Consumes m → Consumes (m >>= λ a. pure c)
Consumes-answer {B} {E} {A} {C} m c h s r e =
    let (q, eq, er) = >>=-eq-ok (m s) (λ r. ok (c, r.1)) e in
    let left : q.1.input ≡ r.1.input = ap (λ (p : C × State B). p.1.input) (ok-injective er) in
    rw (← left) (h s q eq)
