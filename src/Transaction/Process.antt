-- ===== src/Transaction/Process.antt =====
-- Code that no single transaction encloses: each service that it runs is a transaction of its own,
-- which commits before the next one starts. An exception leaves what was committed before it.
pub mod Follows
use vidalys_flow.Common.{◌⊎◌, inl, inr, Bool, true, false}
use vidalys_flow.Transaction.{Outcome, ok, raised, Service}

abbrev pub Process : Type 0 → Type 0 → Type 0 → Type 0
Process S E A = S → S × (E ⊎ A)

module _ {S E : Type 0} where
  infixl 5 ◌>>=◌ ◌>>◌
  abbrev pub go_on : {A B : Type 0} → (A → Process S E B) → S × (E ⊎ A) → S × (E ⊎ B)
  go_on f (s, inl e) = (s, inl e)
  go_on f (s, inr a) = f a s

  abbrev pub ◌>>=◌ : {A B : Type 0} → Process S E A → (A → Process S E B) → Process S E B
  ◌>>=◌ m f s = go_on f (m s)

  abbrev pub ◌>>◌ : {A B : Type 0} → Process S E A → Process S E B → Process S E B
  m >> k = m >>= λ _. k

  abbrev pub fail : {A : Type 0} → E → Process S E A
  fail e s = (s, inl e)

  -- What code outside the database answers or raises.
  abbrev pub ask : {A : Type 0} → E ⊎ A → Process S E A
  ask answer s = (s, answer)

  abbrev pub fail_if : Bool → E → Process S E (Unit {0})
  fail_if true e s = (s, inl e)
  fail_if false e s = (s, inr tt)

  -- After an exception the database is that of before the transaction.
  abbrev pub settled : {A : Type 0} → S → Outcome S E A → S × (E ⊎ A)
  settled s (ok a s') = (s', inr a)
  settled s (raised e) = (s, inl e)

  abbrev pub transact : {A : Type 0} → Service S E A → Process S E A
  transact m s = settled s (m s)

  abbrev pub handled : {A : Type 0} → (E → Process S E (Unit {0})) → S × (E ⊎ A) → S × (E ⊎ A)
  handled clean (s, inl e) = (clean e >> fail e) s
  handled clean (s, inr a) = (s, inr a)

  -- `try: ... except Exception as exc: clean(exc); raise`
  abbrev pub on_raise : {A : Type 0} → Process S E A → (E → Process S E (Unit {0})) → Process S E A
  on_raise m clean s = handled clean (m s)
