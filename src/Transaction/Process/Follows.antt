-- ===== src/Transaction/Process/Follows.antt =====
-- Processes as sequences of steps: every state that a process reaches is related to its first one by
-- a preorder that contains each of its transactions.
use vidalys_flow.Common.{◌≡◌, refl, ◌⊎◌, inl, inr, Bool, true, false}
use vidalys_flow.Transaction.{Outcome, ok, raised, Service}
use vidalys_flow.Transaction.Process.{
  Process, ◌>>=◌, ◌>>◌, fail, ask, fail_if, transact, settled, go_on, handled, on_raise,
}

pub record Follows {S E A : Type 0} (R : S → S → Type 0) (m : Process S E A) : Type 0 where
  pub at : (s : S) → R s (m s).0

module _ {S E : Type 0} (R : S → S → Type 0) (stay : (s : S) → R s s)
    (chain : (s t u : S) → R s t → R t u → R s u) where
  pub Follows-ask : {A : Type 0} (answer : E ⊎ A) → Follows R (ask answer)
  Follows-ask answer = record { at = λ s. stay s }

  pub Follows-fail : {A : Type 0} (e : E) → Follows R (fail {A = A} e)
  Follows-fail e = record { at = λ s. stay s }

  pub Follows-fail_if : (b : Bool) (e : E) → Follows R (fail_if b e)
  Follows-fail_if true e = record { at = λ s. stay s }
  Follows-fail_if false e = record { at = λ s. stay s }

  pub Follows-transact :
      {A : Type 0} (m : Service S E A)
      → ((s : S) (a : A) (s' : S) → m s ≡ ok a s' → R s s')
      → Follows R (transact m)
  Follows-transact {A} m step = record { at = λ s. go s (m s) refl }
    where
      go : (s : S) (o : Outcome S E A) → m s ≡ o → R s (settled s o).0
      go s (ok a s') h = step s a s' h
      go s (raised e) h = stay s

  pub Follows-bind :
      {A B : Type 0} (m : Process S E A) (k : A → Process S E B)
      → Follows R m
      → ((a : A) → Follows R (k a))
      → Follows R (m >>= k)
  Follows-bind {A} m k h hk = record { at = λ s. go s (m s) (h.at s) }
    where
      go : (s : S) (x : S × (E ⊎ A)) → R s x.0 → R s (go_on k x).0
      go s (t, inl e) r = r
      go s (t, inr a) r = chain s t _ r ((hk a).at t)

  pub Follows-then :
      {A B : Type 0} (m : Process S E A) (k : Process S E B)
      → Follows R m
      → Follows R k
      → Follows R (m >> k)
  Follows-then m k h hk = Follows-bind m (λ _. k) h (λ _. hk)

  pub Follows-on_raise :
      {A : Type 0} (m : Process S E A) (clean : E → Process S E (Unit {0}))
      → Follows R m
      → ((e : E) → Follows R (clean e))
      → Follows R (on_raise m clean)
  Follows-on_raise {A} m clean h hc = record { at = λ s. go s (m s) (h.at s) }
    where
      go : (s : S) (x : S × (E ⊎ A)) → R s x.0 → R s (handled clean x).0
      go s (t, inl e) r =
          chain s t _ r ((Follows-then (clean e) (fail e) (hc e) (Follows-fail e)).at t)
      go s (t, inr a) r = r
