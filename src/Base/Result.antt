-- ===== src/Base/Result.antt =====
-- The outcome of a fallible routine. `err` is a returned `Err`; `panicked` is a Rust panic;
-- `stuck` is no outcome of the program, it marks a loop of the model whose fuel ran out.
use mathlib.Core.Path.{◌≡◌, refl, subst}
use mathlib.Core.Bool.{Bool, true, false}
use mathlib.Core.Option.{Option, none, some}

pub data Outcome {ℓ} (E : Type 0) (A : Type ℓ) : Type ℓ where
  ok : A → Outcome E A
  err : E → Outcome E A
  panicked stuck : Outcome E A

-- `?`: anything but a value is passed on.
abbrev pub and_then {ℓ κ} :
    {E : Type 0} {A : Type ℓ} {B : Type κ} → (A → Outcome E B) → Outcome E A → Outcome E B
and_then next panicked = panicked
and_then next stuck = stuck
and_then next (err e) = err e
and_then next (ok a) = next a

infixl 5 ◌>>=◌ ◌>>◌
abbrev pub ◌>>=◌ {ℓ κ} :
    {E : Type 0} {A : Type ℓ} {B : Type κ} → Outcome E A → (A → Outcome E B) → Outcome E B
m >>= next = and_then next m

abbrev pub ◌>>◌ {ℓ} : {E : Type 0} {B : Type ℓ} → Outcome E (Unit {0}) → Outcome E B → Outcome E B
m >> last = and_then (λ done. last) m

-- A run that gives a value went through all of its steps.
module _ {ℓ κ} {E : Type 0} {A : Type ℓ} {B : Type κ} where
  pub >>=-eq-ok :
      (m : Outcome E A) (next : A → Outcome E B) {b : B}
      → and_then next m ≡ ok b
      → (a : A) × (m ≡ ok a) × (next a ≡ ok b)
  >>=-eq-ok panicked next e = cc
  >>=-eq-ok stuck next e = cc
  >>=-eq-ok (err x) next e = cc
  >>=-eq-ok (ok a) next e = (a, refl, e)

module _ {E : Type 0} where
  -- `anyhow::ensure!`.
  abbrev pub ensure : Bool → E → Outcome E (Unit {0})
  ensure true e = ok tt
  ensure false e = err e

  -- `Option::ok_or_else`.
  abbrev pub ok_or {ℓ} : {A : Type ℓ} → Option A → E → Outcome E A
  ok_or none e = err e
  ok_or (some a) e = ok a

  pub ensure-eq-ok : (b : Bool) (e : E) {u : Unit {0}} → ensure b e ≡ ok u → b ≡ true
  ensure-eq-ok true e h = refl
  ensure-eq-ok false e h = cc

-- A postcondition on the value of a run that returns one.
abbrev pub Ensures {ℓ κ} : {E : Type 0} {A : Type ℓ} → (A → Type κ) → Outcome E A → Type κ
Ensures P (ok a) = P a
Ensures P (err e) = Unit
Ensures P panicked = Unit
Ensures P stuck = Unit

-- A run that returns a value or an error: no panic, and no lack of fuel.
abbrev pub Settles {ℓ} : {E : Type 0} {A : Type ℓ} → Outcome E A → Type 0
Settles (ok a) = Unit
Settles (err e) = Unit
Settles panicked = ⊥
Settles stuck = ⊥

module _ {E : Type 0} where
  pub Ensures-ok {ℓ κ} :
      {A : Type ℓ} (P : A → Type κ) (m : Outcome E A) {a : A} → Ensures P m → m ≡ ok a → P a
  Ensures-ok P (ok b) h e = subst P (cc) h
  Ensures-ok P (err x) h e = cc
  Ensures-ok P panicked h e = cc
  Ensures-ok P stuck h e = cc

  pub Ensures-of {ℓ κ} :
      {A : Type ℓ} (P : A → Type κ) (m : Outcome E A) → ((a : A) → m ≡ ok a → P a) → Ensures P m
  Ensures-of P (ok b) h = h b refl
  Ensures-of P (err x) h = tt
  Ensures-of P panicked h = tt
  Ensures-of P stuck h = tt

  pub Settles-bind {ℓ κ} :
      {A : Type ℓ} {B : Type κ} (m : Outcome E A) (f : A → Outcome E B)
      → Settles m
      → ((a : A) → m ≡ ok a → Settles (f a))
      → Settles (m >>= f)
  Settles-bind (ok a) f h k = k a refl
  Settles-bind (err e) f h k = tt
  Settles-bind panicked f h k = h
  Settles-bind stuck f h k = h

  pub Settles-ensure : (b : Bool) (e : E) → Settles (ensure b e)
  Settles-ensure true e = tt
  Settles-ensure false e = tt

  pub Settles-ok_or {ℓ} : {A : Type ℓ} (o : Option A) (e : E) → Settles (ok_or o e)
  Settles-ok_or none e = tt
  Settles-ok_or (some a) e = tt

pub ok-injective {ℓ} :
    {E : Type 0} {A : Type ℓ} {a b : A} → ◌≡◌ {A = Outcome E A} (ok a) (ok b) → a ≡ b
ok-injective h = cc

module _ {ℓ κ μ} {E : Type 0} {A : Type ℓ} (P : A → Type κ) where
  pub Ensures-bind {ι} :
      {B : Type ι} (Q : B → Type μ) (m : Outcome E A) (f : A → Outcome E B)
      → Ensures P m
      → ((a : A) → P a → Ensures Q (f a))
      → Ensures Q (m >>= f)
  Ensures-bind Q (ok a) f h k = k a h
  Ensures-bind Q (err e) f h k = tt
  Ensures-bind Q panicked f h k = tt
  Ensures-bind Q stuck f h k = tt

  pub Ensures-map :
      (Q : A → Type μ) (m : Outcome E A) → Ensures P m → ((a : A) → P a → Q a) → Ensures Q m
  Ensures-map Q (ok a) h k = k a h
  Ensures-map Q (err e) h k = tt
  Ensures-map Q panicked h k = tt
  Ensures-map Q stuck h k = tt
