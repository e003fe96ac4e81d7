-- ===== src/Transaction/Preserves.antt =====
-- Invariants of the database: a predicate that holds after every call that returns if it held
-- before, and what such a call tells of the value that it returns. The rules follow the `do` blocks.
use vidalys_flow.Common.{◌≡◌, sym, ap, Bool, true, false, Option, none, some}
use mathlib.Core.Path.{subst}
use vidalys_flow.Transaction.{
  ok, Service, ◌>>=◌, ◌>>◌, pure, raise, gets, modify, raise_if, unless, or_raise, >>=-eq-ok,
  outcome_state, outcome_value, raise_if-bind,
}

pub record Preserves {S E A : Type 0} (I : S → Type 0) (m : Service S E A) : Type 0 where
  pub at : (s : S) (a : A) (s' : S) → I s → m s ≡ ok a s' → I s'

pub record Learns {S E A : Type 0} (I : S → Type 0) (m : Service S E A) (Q : A → Type 0)
    : Type 0 where
  pub at : (s : S) (a : A) (s' : S) → I s → m s ≡ ok a s' → I s' × Q a

module _ {S E : Type 0} (I : S → Type 0) where
  pub Preserves-pure : {A : Type 0} (a : A) → Preserves {E = E} I (pure a)
  Preserves-pure a = record { at = λ s b s' i h. subst I (sym (outcome_state h)) i }

  pub Preserves-raise : {A : Type 0} (e : E) → Preserves I (raise {A = A} e)
  Preserves-raise e = record { at = λ s b s' i h. cc }

  pub Preserves-gets : {A : Type 0} (g : S → A) → Preserves {E = E} I (gets g)
  Preserves-gets g = record { at = λ s b s' i h. subst I (sym (outcome_state h)) i }

  pub Preserves-modify : (g : S → S) → ((s : S) → I s → I (g s)) → Preserves {E = E} I (modify g)
  Preserves-modify g k = record { at = λ s b s' i h. subst I (sym (outcome_state h)) (k s i) }

  pub Preserves-unless : (b : Bool) (e : E) → Preserves I (unless b e)
  Preserves-unless true e = Preserves-pure tt
  Preserves-unless false e = Preserves-raise e

  pub Preserves-raise_if : (b : Bool) (e : E) → Preserves I (raise_if b e)
  Preserves-raise_if true e = Preserves-raise e
  Preserves-raise_if false e = Preserves-pure tt

  pub Preserves-or_raise : {A : Type 0} (o : Option A) (e : E) → Preserves I (or_raise o e)
  Preserves-or_raise none e = Preserves-raise e
  Preserves-or_raise (some a) e = Preserves-pure a

  pub Preserves-bind :
      {A B : Type 0} (m : Service S E A) (k : A → Service S E B)
      → Preserves I m
      → ((a : A) → Preserves I (k a))
      → Preserves I (m >>= k)
  Preserves-bind m k h hk = record {
    at = λ s b s' i e.
        let (a, t, first, second) = >>=-eq-ok m k s e in
        (hk a).at t b s' (h.at s a t i first) second;
  }

  pub Preserves-then :
      {A B : Type 0} (m : Service S E A) (k : Service S E B)
      → Preserves I m
      → Preserves I k
      → Preserves I (m >> k)
  Preserves-then m k h hk = Preserves-bind m (λ _. k) h (λ _. hk)

  -- A step whose value is known to satisfy a predicate.
  pub Preserves-learn :
      {A B : Type 0} {Q : A → Type 0} (m : Service S E A) (k : A → Service S E B)
      → Learns I m Q
      → ((a : A) → Q a → Preserves I (k a))
      → Preserves I (m >>= k)
  Preserves-learn m k h hk = record {
    at = λ s b s' i e.
        let (a, t, first, second) = >>=-eq-ok m k s e in
        let (i', q) = h.at s a t i first in (hk a q).at t b s' i' second;
  }

  -- What a test that was passed tells.
  pub Preserves-raise_if-then :
      {B : Type 0} (b : Bool) (e : E) (k : Service S E B)
      → (b ≡ false → Preserves I k)
      → Preserves I (raise_if b e >> k)
  Preserves-raise_if-then b e k hk = record {
    at = λ s a s' i h. let (p, rest) = raise_if-bind b e k s h in (hk p).at s a s' i rest;
  }

  pub Learns-bind :
      {A B : Type 0} {Q : B → Type 0} (m : Service S E A) (k : A → Service S E B)
      → Preserves I m
      → ((a : A) → Learns I (k a) Q)
      → Learns I (m >>= k) Q
  Learns-bind m k h hk = record {
    at = λ s b s' i e.
        let (a, t, first, second) = >>=-eq-ok m k s e in
        (hk a).at t b s' (h.at s a t i first) second;
  }

  pub Learns-chain :
      {A B : Type 0} {Q : A → Type 0} {R : B → Type 0} (m : Service S E A) (k : A → Service S E B)
      → Learns I m Q
      → ((a : A) → Q a → Learns I (k a) R)
      → Learns I (m >>= k) R
  Learns-chain m k h hk = record {
    at = λ s b s' i e.
        let (a, t, first, second) = >>=-eq-ok m k s e in
        let (i', q) = h.at s a t i first in (hk a q).at t b s' i' second;
  }

  pub Learns-pure : {A : Type 0} {Q : A → Type 0} (a : A) → Q a → Learns {E = E} I (pure a) Q
  Learns-pure {Q} a q = record {
    at = λ s b s' i h. (subst I (sym (outcome_state h)) i, subst Q (outcome_value h) q);
  }

  -- A row that is read, which is known by the invariant.
  pub Learns-read :
      {A : Type 0} {Q : A → Type 0} (f : S → Option A) (e : E)
      → ((s : S) (a : A) → I s → f s ≡ some a → Q a)
      → Learns I (gets f >>= λ o. or_raise o e) Q
  Learns-read {A} {Q} f e known = record { at = λ s a s' i h. go (f s) s a s' i h (known s a i) }
    where
      go :
          (o : Option A) (s : S) (a : A) (s' : S)
          → I s
          → or_raise o e s ≡ ok a s'
          → (o ≡ some a → Q a)
          → I s' × Q a
      go none s a s' i h k = cc
      go (some b) s a s' i h k = (subst I (sym (outcome_state h)) i, k (ap some (outcome_value h)))

  pub Learns-forget :
      {A : Type 0} {Q : A → Type 0} (m : Service S E A) → Learns I m Q → Preserves I m
  Learns-forget m h = record { at = λ s a s' i e. (h.at s a s' i e).0 }

pub ruleset preserves_rules = (
  Preserves-pure, Preserves-raise, Preserves-gets, Preserves-unless, Preserves-raise_if,
  Preserves-or_raise, Preserves-bind, Preserves-then, Preserves-modify,
)
