-- ===== src/Transaction/Returns.antt =====
-- What a service returns, whatever state it runs in.
use vidalys_flow.Common.{◌≡◌}
use mathlib.Core.Path.{subst}
use vidalys_flow.Transaction.{ok, Service, ◌>>=◌, ◌>>◌, pure, >>=-eq-ok, outcome_value}

pub record Returns {S E A : Type 0} (Q : A → Type 0) (m : Service S E A) : Type 0 where
  pub at : (s : S) (a : A) (s' : S) → m s ≡ ok a s' → Q a

module _ {S E : Type 0} where
  pub Returns-pure :
      {A : Type 0} (Q : A → Type 0) (a : A) → Q a → Returns {S = S} {E = E} Q (pure a)
  Returns-pure Q a q = record { at = λ s b s' h. subst Q (outcome_value h) q }

  pub Returns-bind :
      {A B : Type 0} (Q : B → Type 0) (m : Service S E A) (k : A → Service S E B)
      → ((a : A) → Returns Q (k a))
      → Returns Q (m >>= k)
  Returns-bind Q m k hk = record {
    at = λ s b s' e. let (a, t, _, second) = >>=-eq-ok m k s e in (hk a).at t b s' second;
  }

  pub Returns-then :
      {A B : Type 0} (Q : B → Type 0) (m : Service S E A) (k : Service S E B)
      → Returns Q k
      → Returns Q (m >> k)
  Returns-then Q m k hk = Returns-bind Q m (λ _. k) (λ _. hk)

pub ruleset returns_rules = (Returns-pure, Returns-bind, Returns-then)
