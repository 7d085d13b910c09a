-- ===== src/Reader/Loop.antt =====
-- The loop of a scan: with a body that takes a byte in each round that goes on, its fuel is enough,
-- and the loop is as sound as its body.
use onetui.Base.{
  ℕ, zero, suc, ◌≡◌, ◌<◌, ◌≤◌, refl, Option, none, some, List, [], ◌∷◌, ◌++◌, length, arith, ok,
  Ensures, Settles, Ensures-ok, Ensures-bind, Ensures-map, Settles-bind, >>=-eq-ok, ok-injective,
  length-append, ap, subst,
}
use onetui.Reader.{State, Reads, pure, when_empty, ◌>>=◌, after, repeat, until_done}
use onetui.Reader.Safe.{
  Spending, Advances, Advances-trans, length-Advances, IsSafe, Consumes, extend,
}
use onetui.Reader.Laws.{IsSound}

-- A round that goes on takes at least a byte.
abbrev pub Shrinks : {B E A : Type 0} → Spending B → Reads B E (Option A) → Type 0
Shrinks {B} sp body =
    (s s' : State B)
    → sp.IsWithin s.budget
    → body s ≡ ok (none, s')
    → length s'.input < length s.input

module _ {B E A C : Type 0} (sp : Spending B) (m : Reads B E C) (f : C → Reads B E (Option A)) where
  -- A round that begins with a step that takes a byte.
  pub Shrinks-bind : IsSafe sp m → ((c : C) → IsSafe sp (f c)) → Consumes m → Shrinks sp (m >>= f)
  Shrinks-bind hm hf takes s s' h e =
      let (q, eq, er) = >>=-eq-ok (m s) (λ r. f r.0 r.1) e in
      let a = Ensures-ok _ (m s) (hm.advances s h) eq in
      let rest = Ensures-ok _ (f q.0 q.1) ((hf q.0).advances q.1 a.is_within) er in
      omega (arith, takes s q eq, length-Advances sp rest)

  -- A round of which a later part takes a byte.
  pub Shrinks-then : IsSafe sp m → ((c : C) → Shrinks sp (f c)) → Shrinks sp (m >>= f)
  Shrinks-then hm hf s s' h e =
      let (q, eq, er) = >>=-eq-ok (m s) (λ r. f r.0 r.1) e in
      let a = Ensures-ok _ (m s) (hm.advances s h) eq in
      omega (arith, hf q.0 q.1 s' a.is_within er, length-Advances sp a)

module _ {B E A : Type 0} (sp : Spending B) (a : A) (m : Reads B E (Option A))
    (shrinks : Shrinks sp m) where
  Shrinks-when_empty_at :
      (input : List ℕ) (b : B) (s' : State B)
      → sp.IsWithin b
      → when_empty (pure (some a)) m (record { input = input; budget = b }) ≡ ok (none, s')
      → length s'.input < length input
  Shrinks-when_empty_at [] b s' h e = cc
  Shrinks-when_empty_at (c ∷ cs) b s' h e = shrinks _ s' h e

  -- A loop that ends where the input does.
  pub Shrinks-when_empty : Shrinks sp (when_empty (pure (some a)) m)
  Shrinks-when_empty s s' h e = Shrinks-when_empty_at s.input s.budget s' h e

module _ {B E A : Type 0} (sp : Spending B) (s : State B) (next : Reads B E A) where
  Settles-after :
      (r : Option A × State B)
      → ((s' : State B) → r ≡ (none, s') → Settles (next s'))
      → Settles (after next r)
  Settles-after (none, s') h = h s' refl
  Settles-after (some a, s') h = tt

  Ensures-after :
      (r : Option A × State B)
      → Advances sp s r.1
      → ((s' : State B) → r ≡ (none, s') → Ensures (λ q. Advances sp s q.1) (next s'))
      → Ensures (λ q. Advances sp s q.1) (after next r)
  Ensures-after (none, s') a h = h s' refl
  Ensures-after (some a', s') a h = a

module _ {B E A : Type 0} (next next' : Reads B E A) (extra : List ℕ) where
  local-after :
      (r : Option A × State B) {q : A × State B}
      → ((s' : State B)
          → r ≡ (none, s')
          → next s' ≡ ok q
          → next' (extend s' extra) ≡ ok (q.0, extend q.1 extra))
      → after next r ≡ ok q
      → after next' (r.0, extend r.1 extra) ≡ ok (q.0, extend q.1 extra)
  local-after (none, s') h e = h s' refl e
  local-after (some a, s') h e =
      ap (λ (q : A × State B). ok (q.0, extend q.1 extra)) (ok-injective e)

module _ {B E A : Type 0} (sp : Spending B) (body : Reads B E (Option A)) where
  module _ (safe : IsSafe sp body) (shrinks : Shrinks sp body) where
    repeat-Settles :
        (f : ℕ) (s : State B)
        → sp.IsWithin s.budget
        → length s.input < f
        → Settles (repeat f body s)
    unfolding repeat
    repeat-Settles zero s h lt = elim lt [ ]
    repeat-Settles (suc f) s h lt = Settles-bind (body s) _ (safe.settles s h) λ r e.
        Settles-after sp s (λ s'. repeat f body s') r
          λ s' q.
            let e' : body s ≡ ok (none, s') = rw q at e in
            repeat-Settles f s' (Ensures-ok _ (body s) (safe.advances s h) e').is_within
              (omega (arith, shrinks s s' h e'))

    repeat-Advances :
        (f : ℕ) (s : State B)
        → sp.IsWithin s.budget
        → Ensures (λ r. Advances sp s r.1) (repeat f body s)
    unfolding repeat
    repeat-Advances zero s h = tt
    repeat-Advances (suc f) s h = Ensures-bind _ _ (body s) _ (safe.advances s h) λ r a.
        Ensures-after sp s (λ s'. repeat f body s') r a
          λ s' q.
            let first : Advances sp s s' =
              subst (λ (q : Option A × State B). Advances sp s q.1) q a in
            Ensures-map _ _ (repeat f body s') (repeat-Advances f s' first.is_within)
              λ r b. Advances-trans sp first b

    pub IsSafe-until_done : IsSafe sp (until_done body)
    unfolding until_done
    IsSafe-until_done = record {
      settles = λ s h. repeat-Settles (suc (length s.input)) s h (omega arith);
      advances = λ s h. repeat-Advances (suc (length s.input)) s h;
    }

  module _ (sound : IsSound sp body) (shrinks : Shrinks sp body) where
    -- The loop does the same on a longer input, which gives it more fuel.
    repeat-local :
        (f f' : ℕ) (s : State B) (r : A × State B) (extra : List ℕ)
        → f ≤ f'
        → repeat f body s ≡ ok r
        → repeat f' body (extend s extra) ≡ ok (r.0, extend r.1 extra)
    unfolding repeat
    repeat-local zero f' s r extra le e = cc
    repeat-local (suc f) zero s r extra le e = elim le [ ]
    repeat-local (suc f) (suc f') s r extra le e =
        let (q, eq, er) = >>=-eq-ok (body s) (after (λ s'. repeat f body s')) e in
        rw (sound.local s q extra eq) (
          local-after (λ s'. repeat f body s') (λ s'. repeat f' body s') extra q
            (λ s' _ e'. repeat-local f f' s' r extra (omega arith) e') er)

    pub IsSound-until_done : IsSound sp (until_done body)
    unfolding until_done
    IsSound-until_done = record {
      safe = IsSafe-until_done sound.safe shrinks;
      local = λ s r extra e.
          repeat-local (suc (length s.input)) (suc (length (s.input ++ extra))) s r extra
            (omega (arith, length-append s.input extra)) e;
    }

-- What holds of a round that leaves the loop holds of the loop.
pub repeat_leaves :
    {B E A : Type 0} (Q : A → State B → Type 0) (body : Reads B E (Option A))
    → ((s : State B) (a : A) (s' : State B) → body s ≡ ok (some a, s') → Q a s')
    → (f : ℕ) (s : State B) (r : A × State B) → repeat f body s ≡ ok r
    → Q r.0 r.1
unfolding repeat
repeat_leaves Q body h zero s r e = cc
repeat_leaves {B} {E} {A} Q body h (suc f) s r e =
    let (q, eq, er) = >>=-eq-ok (body s) (after (λ s'. repeat f body s')) e in
    last q eq er (λ s' e'. repeat_leaves Q body h f s' r e')
  where
    last :
        (q : Option A × State B)
        → body s ≡ ok q
        → after (λ s'. repeat f body s') q ≡ ok r
        → ((s' : State B) → repeat f body s' ≡ ok r → Q r.0 r.1)
        → Q r.0 r.1
    last (none, s') eq er next = next s' er
    last (some a, s') eq er next =
        subst (λ (p : A × State B). Q p.0 p.1) (ok-injective er) (h s a s' eq)
