-- ===== src/Transaction/Keeps.antt =====
-- What a service leaves alone: a view of the database that is the same after every call that
-- returns. The rules follow the `do` blocks.
use vidalys_flow.Common.{◌≡◌, ◌∙◌, Bool, true, false, Option, none, some}
use vidalys_flow.Transaction.{
  Outcome, ok, Service, ◌>>=◌, ◌>>◌, pure, raise, gets, modify, raise_if, unless, or_raise,
  >>=-eq-ok,
}

pub record Keeps {S E A X : Type 0} (f : S → X) (m : Service S E A) : Type 0 where
  pub at : (s : S) (a : A) (s' : S) → m s ≡ ok a s' → f s' ≡ f s

module _ {S E X : Type 0} (f : S → X) where
  pub Keeps-pure : {A : Type 0} (a : A) → Keeps {E = E} f (pure a)
  Keeps-pure a = record { at = λ s b s' h. same h }
    where
      same :
          {A : Type 0} {a b : A} {s s' : S}
          → ◌≡◌ {A = Outcome S E A} (ok a s) (ok b s')
          → f s' ≡ f s
      same h = cc

  pub Keeps-raise : {A : Type 0} (e : E) → Keeps f (raise {A = A} e)
  Keeps-raise e = record { at = λ s b s' h. cc }

  pub Keeps-gets : {A : Type 0} (g : S → A) → Keeps {E = E} f (gets g)
  Keeps-gets g = record { at = λ s b s' h. cc }

  pub Keeps-modify : (g : S → S) → ((s : S) → f (g s) ≡ f s) → Keeps {E = E} f (modify g)
  Keeps-modify g h = record { at = λ s b s' e. cc (h s) }

  pub Keeps-unless : (b : Bool) (e : E) → Keeps f (unless b e)
  Keeps-unless true e = Keeps-pure tt
  Keeps-unless false e = Keeps-raise e

  pub Keeps-raise_if : (b : Bool) (e : E) → Keeps f (raise_if b e)
  Keeps-raise_if true e = Keeps-raise e
  Keeps-raise_if false e = Keeps-pure tt

  pub Keeps-or_raise : {A : Type 0} (o : Option A) (e : E) → Keeps f (or_raise o e)
  Keeps-or_raise none e = Keeps-raise e
  Keeps-or_raise (some a) e = Keeps-pure a

  pub Keeps-bind :
      {A B : Type 0} (m : Service S E A) (k : A → Service S E B)
      → Keeps f m
      → ((a : A) → Keeps f (k a))
      → Keeps f (m >>= k)
  Keeps-bind m k h hk = record {
    at = λ s b s' e.
        let (a, t, first, second) = >>=-eq-ok m k s e in (hk a).at t b s' second ∙ h.at s a t first;
  }

  pub Keeps-then :
      {A B : Type 0} (m : Service S E A) (k : Service S E B)
      → Keeps f m
      → Keeps f k
      → Keeps f (m >> k)
  Keeps-then m k h hk = Keeps-bind m (λ _. k) h (λ _. hk)

pub ruleset keeps_rules = (
  Keeps-pure, Keeps-raise, Keeps-gets, Keeps-unless, Keeps-raise_if, Keeps-or_raise, Keeps-bind,
  Keeps-then, Keeps-modify,
)
