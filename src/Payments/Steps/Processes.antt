-- ===== src/Payments/Steps/Processes.antt =====
-- The functions of apps/payments/services.py and apps/payments/tasks.py that run several
-- transactions are sequences of steps.
use vidalys_flow.Common.{ℕ, ◌≡◌, ◌⊎◌, inl, inr, Bool, Bool-cases}
use vidalys_flow.Text.{Text}
use vidalys_flow.Transaction.{ok}
use vidalys_flow.Transaction.Keeps.{Keeps, keeps_rules}
use vidalys_flow.Transaction.Process.{◌>>=◌, ◌>>◌, fail_if, on_raise, transact, ask}
use vidalys_flow.Transaction.Process.Follows.{
  Follows, Follows-ask, Follows-fail_if, Follows-transact, Follows-bind, Follows-then,
  Follows-on_raise,
}
use vidalys_flow.Database.{Database}
use vidalys_flow.Payments.Tables.{PaymentAttempt, DispatchError, same_provider}
use vidalys_flow.Payments.Errors.{PaymentError, PaymentService}
use vidalys_flow.Payments.Providers.{Adapter}
use vidalys_flow.Payments.Services.{find_intent}
use vidalys_flow.Payments.Services.Providing.{account_of}
use vidalys_flow.Payments.Services.Dispatch.{
  PaymentProcess, release, require_adapter, send_checkout, dispatch_requested_checkout,
  dispatch_checkout_cancellation,
}
use vidalys_flow.Payments.Steps.{
  Primitives, Step, Steps, claimed, released, activated, cancellation_claimed, cancellation_applied,
  elsewhere, none_left, and_then,
}

module _ (p : Primitives) where
  pub chain : (s t u : Database) → Steps p s t → Steps p t u → Steps p s u
  chain s t u (none_left _) rest = rest
  chain s t u (and_then {t = middle} step steps) rest = and_then step (chain middle t u steps rest)

  single : {s s' : Database} → Step p s s' → Steps p s s'
  single {s'} step = and_then step (none_left s')

  abbrev pub IsRun : {A : Type 0} → PaymentProcess A → Type 0
  IsRun m = Follows (Steps p) m

  pub ask-IsRun : {A : Type 0} (answer : PaymentError ⊎ A) → IsRun (ask answer)
  ask-IsRun answer = Follows-ask (Steps p) none_left chain answer

  pub fail_if-IsRun : (b : Bool) (error : PaymentError) → IsRun (fail_if b error)
  fail_if-IsRun b error = Follows-fail_if (Steps p) none_left chain b error

  pub bind-IsRun :
      {A B : Type 0} (m : PaymentProcess A) (k : A → PaymentProcess B)
      → IsRun m
      → ((a : A) → IsRun (k a))
      → IsRun (m >>= k)
  bind-IsRun m k h hk = Follows-bind (Steps p) none_left chain m k h hk

  pub then-IsRun :
      {A B : Type 0} (m : PaymentProcess A) (k : PaymentProcess B)
      → IsRun m
      → IsRun k
      → IsRun (m >> k)
  then-IsRun m k h hk = Follows-then (Steps p) none_left chain m k h hk

  on_raise-IsRun :
      {A : Type 0} (m : PaymentProcess A) (clean : PaymentError → PaymentProcess (Unit {0}))
      → IsRun m
      → ((e : PaymentError) → IsRun (clean e))
      → IsRun (on_raise m clean)
  on_raise-IsRun m clean h hc = Follows-on_raise (Steps p) none_left chain m clean h hc

  pub step-IsRun :
      {A : Type 0} (m : PaymentService A)
      → ((s : Database) (a : A) (s' : Database) → m s ≡ ok a s' → Step p s s')
      → IsRun (transact m)
  step-IsRun m h = Follows-transact (Steps p) none_left chain m λ s a s' e. single (h s a s' e)

  -- A transaction that leaves the tables of payments alone.
  pub Keeps-IsRun :
      {A : Type 0} (m : PaymentService A) → Keeps (λ s. s.payments) m → IsRun (transact m)
  Keeps-IsRun m k = step-IsRun m λ s a s' e. elsewhere (k.at s a s' e)

  release-IsRun : (a : PaymentAttempt) (error : DispatchError) → IsRun (release a error)
  release-IsRun a error =
      then-IsRun _ _ (step-IsRun _ λ s b s' e. released a.id a.lease_token error b e) (ask-IsRun _)

  require_adapter-IsRun :
      (adapter : Adapter) (a : PaymentAttempt) → IsRun (require_adapter adapter a)
  require_adapter-IsRun adapter a = elim (Bool-cases (same_provider adapter.provider a.provider)) [
    | inl same ↦ rw (require_adapter, same) (ask-IsRun _)
    | inr other ↦ rw (require_adapter, other) (then-IsRun _ _ (release-IsRun a _) (ask-IsRun _))
  ]

  pub find_intent-Keeps :
      (organization id : ℕ) → Keeps (λ s. s.payments) (find_intent organization id)
  find_intent-Keeps organization id = search keeps_rules depth 10

  pub account_of-Keeps : (a : PaymentAttempt) → Keeps (λ s. s.payments) (account_of a)
  account_of-Keeps a = search keeps_rules depth 10

  send_checkout-IsRun :
      (demo_mode : Bool) (adapter : Adapter) (a : PaymentAttempt) (key : Text)
      → IsRun (send_checkout p.urlparse p.payload_hash demo_mode adapter a key)
  send_checkout-IsRun demo_mode adapter a key =
      bind-IsRun _ _ (Keeps-IsRun _ (find_intent-Keeps a.organization a.intent)) λ i.
        then-IsRun _ _ (fail_if-IsRun _ _) (
          bind-IsRun _ _ (ask-IsRun _) λ answer.
            step-IsRun _ λ s b s' e. activated a.organization a answer key a.lease_token b e)

  pub dispatch_requested_checkout-IsRun :
      (demo_mode : Bool) (adapter : Adapter) (attempt_id : ℕ) (key : Text)
      → IsRun
          (dispatch_requested_checkout p.urlparse p.payload_hash demo_mode adapter attempt_id key)
  unfolding dispatch_requested_checkout
  dispatch_requested_checkout-IsRun demo_mode adapter attempt_id key =
      bind-IsRun _ _ (step-IsRun _ λ s b s' e. claimed attempt_id b e) λ a.
        then-IsRun _ _ (fail_if-IsRun _ _) (
          then-IsRun _ _ (require_adapter-IsRun adapter a) (
            on_raise-IsRun _ _ (send_checkout-IsRun demo_mode adapter a key)
              λ e. release-IsRun a _))

  pub dispatch_checkout_cancellation-IsRun :
      (demo_mode : Bool) (adapter : Adapter) (attempt_id : ℕ) (key : Text)
      → IsRun (dispatch_checkout_cancellation demo_mode adapter attempt_id key)
  unfolding dispatch_checkout_cancellation
  dispatch_checkout_cancellation-IsRun demo_mode adapter attempt_id key =
      bind-IsRun _ _ (step-IsRun _ λ s b s' e. cancellation_claimed attempt_id b e) λ a.
        then-IsRun _ _ (require_adapter-IsRun adapter a) (
          on_raise-IsRun _ _
            (then-IsRun _ _ (fail_if-IsRun _ _) (
              bind-IsRun _ _ (ask-IsRun _) λ resource.
                step-IsRun _
                  λ s b s' e. cancellation_applied a.organization a resource key a.lease_token b e))
            λ e. release-IsRun a _)
