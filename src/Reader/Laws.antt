-- ===== src/Reader/Laws.antt =====
-- Steps that are safe and local: they do the same whatever follows what they take.

use onetui.Base.{
  ℕ, ◌≡◌, ap, List, ◌++◌, length, arith, Outcome, ok, err, panicked, stuck, Ensures, Settles,
  >>=-eq-ok, Bool-cases, leb, leb→le, take-append, drop-append, le→leb, length-append, inl, inr,
  ◌-◌, ok-injective,
}
use onetui.Reader.{State, Reads, pure, ◌>>=◌, lift, charge, within, counting, take}
use onetui.Reader.Safe.{
  Spending, extend, IsSafe, IsSafe-pure, IsSafe-bind, IsSafe-lift, IsSafe-charge, IsSafe-counting,
  IsSafe-within, IsSafe-take,
}

module _ {B E : Type 0} (sp : Spending B) where
  -- A safe step that does the same whatever follows its input.
  pub record IsSound {A : Type 0} (m : Reads B E A) : Type 0 where
    pub safe : IsSafe sp m
    pub local :
        (s : State B) (r : A × State B) (extra : List ℕ)
        → m s ≡ ok r
        → m (extend s extra) ≡ ok (r.0, extend r.1 extra)

module _ {B E : Type 0} (sp : Spending B) where
  pub IsSound-pure : {A : Type 0} (a : A) → IsSound sp (pure {E = E} a)
  IsSound-pure a = record { safe = IsSafe-pure sp a; local = λ s r extra e. cc }

  module _ {A C : Type 0} (m : Reads B E A) (f : A → Reads B E C) where
    pub IsSound-bind : IsSound sp m → ((a : A) → IsSound sp (f a)) → IsSound sp (m >>= f)
    IsSound-bind hm hf = record {
      safe = IsSafe-bind sp m f hm.safe (λ a. (hf a).safe);
      local = λ s r extra e.
          let (q, em, ef) = >>=-eq-ok (m s) (λ r. f r.0 r.1) e in
          rw (hm.local s q extra em) ((hf q.0).local q.1 r extra ef);
    }

  pub IsSound-lift : {A : Type 0} (m : Outcome E A) → Settles m → IsSound sp {A = A} (lift m)
  IsSound-lift (ok a) h = IsSound-pure a
  IsSound-lift (err e) h = record { safe = IsSafe-lift sp (err e) tt; local = λ s r extra e. cc }
  IsSound-lift panicked h = absurd h
  IsSound-lift stuck h = absurd h

  -- A method of the budget that settles and spends.
  pub IsSound-charge :
      (f : B → Outcome E B)
      → ((b : B) → sp.IsWithin b → Settles (f b))
      → ((b : B) → sp.IsWithin b → Ensures (λ b'. sp.Grows b b' × sp.IsWithin b') (f b))
      → IsSound sp (charge f)
  IsSound-charge f total spends = record {
    safe = IsSafe-charge sp f total spends;
    local = λ s r extra e.
        let (b, eb, er) = >>=-eq-ok (f s.budget) _ e in
        rw eb (ap (λ (q : Unit × State B). ok (q.0, extend q.1 extra)) (ok-injective er));
  }

  pub IsSound-counting : {A : Type 0} (m : Reads B E A) → IsSound sp m → IsSound sp (counting m)
  IsSound-counting {A} m hm = record {
    safe = IsSafe-counting sp m hm.safe;
    local = λ s r extra e.
        let (q, eq, er) = >>=-eq-ok (m s) _ e in
        let same : length (s.input ++ extra) - length (q.1.input ++ extra)
            ≡ length s.input - length q.1.input =
          omega (arith, length-append s.input extra, length-append q.1.input extra) in
        rw (hm.local s q extra eq, same)
          (ap (λ (p : (A × ℕ) × State B). ok (p.0, extend p.1 extra)) (ok-injective er));
  }

  -- The scan of a part leaves the outer input alone.
  pub IsSound-within :
      {A : Type 0} (body : List ℕ) (m : Reads B E A) → IsSound sp m → IsSound sp (within body m)
  IsSound-within {A} body m hm = record {
    safe = IsSafe-within sp body m hm.safe;
    local = λ s r extra e.
        let (q, eq, er) = >>=-eq-ok (m (record { input = body; budget = s.budget })) _ e in
        rw eq (ap (λ (q : A × State B). ok (q.0, extend q.1 extra)) (ok-injective er));
  }

  pub IsSound-take : (truncated : E) (len : ℕ) → IsSound sp (take truncated len)
  unfolding take
  IsSound-take truncated len = record {
    safe = IsSafe-take sp truncated len;
    local = λ s r extra e. elim (Bool-cases (leb len (length s.input))) [
      | inl fits ↦
          let h = leb→le _ _ fits in
          rw
            (
              le→leb len (length (s.input ++ extra)) (omega (arith, length-append s.input extra)),
              take-append len s.input extra h,
              drop-append len s.input extra h,
            )
            (ap (λ (q : List ℕ × State B). ok (q.0, extend q.1 extra))
              (ok-injective (rw fits at e)))
      | inr short ↦ let no_value = rw short at e in cc
    ];
  }
