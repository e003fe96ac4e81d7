-- ===== src/Transaction.antt =====
-- A service under `transaction.atomic`: a function of the database that commits a result and a new
-- database, or raises. What raises carries no database, since the transaction is rolled back; a
-- caller that goes on after an exception goes on from the state before the call.
pub mod Keeps
pub mod Process
pub mod Preserves
pub mod Returns
use vidalys_flow.Common.{◌≡◌, refl, Bool, true, false, Option, none, some, ◌⊎◌, inl, inr}

pub data Outcome (S E A : Type 0) : Type 0 where
  ok : A → S → Outcome S E A
  raised : E → Outcome S E A

-- What two results that are equal have in common.
pub outcome_state :
    {S E A : Type 0} {a b : A} {s t : S} → ◌≡◌ {A = Outcome S E A} (ok a s) (ok b t) → t ≡ s
outcome_state h = cc

pub outcome_value :
    {S E A : Type 0} {a b : A} {s t : S} → ◌≡◌ {A = Outcome S E A} (ok a s) (ok b t) → a ≡ b
outcome_value h = cc

-- The state and the errors are those of the application.
abbrev pub Service : Type 0 → Type 0 → Type 0 → Type 0
Service S E A = S → Outcome S E A

module _ {S E : Type 0} where
  infixl 5 ◌>>=◌ ◌>>◌
  abbrev pub ◌>>=◌ : {A B : Type 0} → Service S E A → (A → Service S E B) → Service S E B
  ◌>>=◌ m f s = elim (m s) [ ok a s' ↦ f a s' | raised e ↦ raised e ]

  abbrev pub ◌>>◌ : {A B : Type 0} → Service S E A → Service S E B → Service S E B
  m >> k = m >>= λ _. k

  abbrev pub pure : {A : Type 0} → A → Service S E A
  pure a s = ok a s

  abbrev pub raise : {A : Type 0} → E → Service S E A
  raise e s = raised e

  abbrev pub gets : {A : Type 0} → (S → A) → Service S E A
  gets f s = ok (f s) s

  abbrev pub modify : (S → S) → Service S E (Unit {0})
  modify f s = ok tt (f s)

  abbrev pub raise_if : Bool → E → Service S E (Unit {0})
  raise_if true e = raise e
  raise_if false e = pure tt

  abbrev pub unless : Bool → E → Service S E (Unit {0})
  unless true e = pure tt
  unless false e = raise e

  abbrev pub or_raise : {A : Type 0} → Option A → E → Service S E A
  or_raise none e = raise e
  or_raise (some a) e = pure a

  -- The database that the caller sees afterwards.
  abbrev pub committed : {A : Type 0} → Outcome S E A → S → S
  committed (ok a s') s = s'
  committed (raised e) s = s

  -- What a bind that returns has returned on the way.
  pub >>=-eq-ok :
      {A B : Type 0} (m : Service S E A) (f : A → Service S E B) (s : S) {b : B} {t : S}
      → (m >>= f) s ≡ ok b t
      → (a : A) × (s' : S) × (m s ≡ ok a s') × (f a s' ≡ ok b t)
  >>=-eq-ok {A} {B} m f s {b} {t} = go (m s)
    where
      go :
          (o : Outcome S E A)
          → (elim o [ ok a s' ↦ f a s' | raised e ↦ raised e ]) ≡ ok b t
          → (a : A) × (s' : S) × (o ≡ ok a s') × (f a s' ≡ ok b t)
      go (ok a s') h = (a, s', refl, h)
      go (raised e) h = cc

  pub >>=-ok :
      {A B : Type 0} (m : Service S E A) (f : A → Service S E B) {s : S} {a : A} {s' : S}
      → m s ≡ ok a s'
      → (m >>= f) s ≡ f a s'
  >>=-ok m f e = rw (e, ◌>>=◌) refl

  -- What the steps that may raise say where the whole returns.
  pub or_raise-bind :
      {A B : Type 0} (o : Option A) (e : E) (f : A → Service S E B) (s : S) {b : B} {t : S}
      → (or_raise o e >>= f) s ≡ ok b t
      → (a : A) × (o ≡ some a) × (f a s ≡ ok b t)
  or_raise-bind none e f s h = cc
  or_raise-bind (some a) e f s h = (a, refl, h)

  pub unless-bind :
      {B : Type 0} (c : Bool) (e : E) (k : Service S E B) (s : S) {b : B} {t : S}
      → (unless c e >> k) s ≡ ok b t
      → (c ≡ true) × (k s ≡ ok b t)
  unless-bind true e k s h = (refl, h)
  unless-bind false e k s h = cc

  pub raise_if-bind :
      {B : Type 0} (c : Bool) (e : E) (k : Service S E B) (s : S) {b : B} {t : S}
      → (raise_if c e >> k) s ≡ ok b t
      → (c ≡ false) × (k s ≡ ok b t)
  raise_if-bind true e k s h = cc
  raise_if-bind false e k s h = (refl, h)

  pub raise_if-eq-ok :
      (c : Bool) (e : E) (s : S) {u : Unit {0}} {t : S}
      → raise_if c e s ≡ ok u t
      → (c ≡ false) × (t ≡ s)
  raise_if-eq-ok true e s h = cc
  raise_if-eq-ok false e s h = (refl, outcome_state h)

  pub unless-ok :
      {B : Type 0} (c : Bool) (e : E) (k : Service S E B) (s : S)
      → c ≡ true
      → (unless c e >> k) s ≡ k s
  unless-ok true e k s h = refl
  unless-ok false e k s h = cc

  pub raise_if-ok :
      {B : Type 0} (c : Bool) (e : E) (k : Service S E B) (s : S)
      → c ≡ false
      → (raise_if c e >> k) s ≡ k s
  raise_if-ok true e k s h = cc
  raise_if-ok false e k s h = refl
