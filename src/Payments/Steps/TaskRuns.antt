-- ===== src/Payments/Steps/TaskRuns.antt =====
-- `fetch_and_reconcile` and the tasks of apps/payments/tasks.py are sequences of steps, and so keep
-- the tables sound.
use vidalys_flow.Common.{
  ℕ, ◌≡◌, refl, sym, ◌⊎◌, inl, inr, Bool, true, false, not, ◌&&◌, Option, none, some, List, [], ◌∷◌,
  ap, find,
}
use mathlib.Core.Path.{subst}
use vidalys_flow.Text.{Text}
use vidalys_flow.Organizations.{User}
use vidalys_flow.Transaction.{Outcome, ok, raised, outcome_state}
use vidalys_flow.Transaction.Keeps.{Keeps, Keeps-gets, Keeps-or_raise, keeps_rules}
use vidalys_flow.Database.{Database}
use vidalys_flow.Platform.Tables.{OutboxEvent, Journal}
use vidalys_flow.Platform.Outbox.{OutboxError, mark_success}
use vidalys_flow.Payments.Tables.{PaymentAttempt, same_provider}
use vidalys_flow.Payments.Errors.{
  PaymentError, does_not_exist, invalid_payment, external_effects_blocked,
}
use vidalys_flow.Payments.Providers.{Adapter}
use vidalys_flow.Payments.Services.{require_manager, id_text}
use vidalys_flow.Payments.Services.Dispatch.{
  PaymentProcess, answer_of, dispatch_requested_checkout, require_active, has_external_resource,
  fetch_and_reconcile,
}
use vidalys_flow.Payments.Tasks.{
  counted, each, mark_event, mark_done, mark_if_complete, send_event, attempt_of_event,
  dispatch_checkout_events, request_events, cancel_if_due, cancel_unless_done, cancel_event,
  attempt_of_cancellation, cancellation_events, dispatch_checkout_cancellation_events,
}
use vidalys_flow.Payments.Steps.{Primitives, Steps, reconciled, cancellation_completed, none_left}
use vidalys_flow.Payments.Steps.Processes.{
  IsRun, chain, ask-IsRun, fail_if-IsRun, bind-IsRun, then-IsRun, step-IsRun, Keeps-IsRun,
  find_intent-Keeps, account_of-Keeps, dispatch_requested_checkout-IsRun,
  dispatch_checkout_cancellation-IsRun,
}

module _ (p : Primitives) where
  require_active-IsRun : (a : PaymentAttempt) → IsRun p (require_active a)
  require_active-IsRun a =
      bind-IsRun p _ _ (Keeps-IsRun p _ (account_of-Keeps p a)) λ account. fail_if-IsRun p _ _

  require_manager-Keeps :
      (actor : User) (organization : ℕ)
      → Keeps (λ s. s.payments) (require_manager actor organization)
  require_manager-Keeps actor organization = search keeps_rules depth 10

  pub fetch_and_reconcile-IsRun :
      (demo_mode : Bool) (adapter : Adapter) (organization intent_id : ℕ) (actor : User)
      (version : ℕ) (key : Text)
      → IsRun p (
          fetch_and_reconcile p.payload_hash demo_mode adapter organization intent_id actor version
            key)
  unfolding fetch_and_reconcile
  fetch_and_reconcile-IsRun demo_mode adapter organization intent_id actor version key =
      then-IsRun p _ _ (Keeps-IsRun p _ (require_manager-Keeps actor organization)) (
        bind-IsRun p _ _ (Keeps-IsRun p _ (find_intent-Keeps p organization intent_id)) λ i.
          bind-IsRun p _ _
            (Keeps-IsRun p _ (
              Keeps-gets _
                (λ s. find (has_external_resource organization i.id) s.payments.attempts)))
            λ found.
              bind-IsRun p _ _ (Keeps-IsRun p _ (Keeps-or_raise _ found invalid_payment)) λ a.
                then-IsRun p _ _ (require_active-IsRun a) (
                  then-IsRun p _ _
                    (fail_if-IsRun p (not (same_provider adapter.provider a.provider))
                      invalid_payment)
                    (then-IsRun p _ _
                      (fail_if-IsRun p (adapter.external && demo_mode) external_effects_blocked)
                      (bind-IsRun p _ _
                        (ask-IsRun p (answer_of (adapter.fetch_resource a.external_resource_id)))
                        λ resource. step-IsRun p _ λ s b s' e.
                          reconciled organization i.id actor version key resource b e))))

  each-IsRun :
      (turn : OutboxEvent → PaymentProcess ℕ)
      → ((e : OutboxEvent) → IsRun p (turn e))
      → (es : List OutboxEvent) → IsRun p (each turn es)
  each-IsRun turn h [] = ask-IsRun p _
  each-IsRun turn h (e ∷ es) =
      bind-IsRun p _ _ (h e) λ n. bind-IsRun p _ _ (each-IsRun turn h es) λ m. ask-IsRun p _

  counted_state : {A : Type 0} (x : Database × (PaymentError ⊎ A)) → (counted x).0 ≡ x.0
  counted_state (s, inl e) = refl
  counted_state (s, inr a) = refl

  mark_event-Keeps : (id : ℕ) → Keeps (λ s. s.payments) (mark_event id)
  mark_event-Keeps id = record { at = λ s u s' h. go s (mark_success id s.journal) s' h }
    where
      go :
          (s : Database) (o : Outcome Journal OutboxError OutboxEvent) {u : Unit {0}}
          (s' : Database)
          → ◌≡◌ {A = Outcome Database PaymentError (Unit {0})}
              (elim o [
                | raised e ↦ raised does_not_exist
                | ok event journal ↦ ok tt (record s { journal = journal })
              ])
              (ok u s')
          → s'.payments ≡ s.payments
      go s (raised e) s' h = cc
      go s (ok event journal) s' h = ap (λ (t : Database). t.payments) (outcome_state h)

  mark_done-IsRun : (e : OutboxEvent) → IsRun p (mark_done e)
  mark_done-IsRun e = then-IsRun p _ _ (Keeps-IsRun p _ (mark_event-Keeps e.id)) (ask-IsRun p _)

  mark_if_complete-run :
      (e : OutboxEvent) (s : Database) (x : Database × (PaymentError ⊎ (PaymentAttempt × Bool)))
      → Steps p s x.0
      → Steps p s (mark_if_complete e x).0
  mark_if_complete-run e s (t, inl error) steps = steps
  mark_if_complete-run e s (t, inr (a, false)) steps = steps
  mark_if_complete-run e s (t, inr (a, true)) steps = chain p s t _ steps ((mark_done-IsRun e).at t)

  -- What each task does with an event, whatever adapters it finds.
  module _ (demo_mode : Bool) (adapter_resolver : PaymentAttempt → Adapter) where
    send_event-IsRun :
        (e : OutboxEvent) (a : Option PaymentAttempt)
        → IsRun p (send_event p.urlparse p.payload_hash demo_mode adapter_resolver e a)
    send_event-IsRun e none = record { at = λ s. none_left s }
    send_event-IsRun e (some a) = record {
      at = λ s.
          let run =
            dispatch_requested_checkout-IsRun p demo_mode (adapter_resolver a) a.id
              (id_text e.id) in
          subst (Steps p s)
            (sym (
              counted_state (
                dispatch_requested_checkout p.urlparse p.payload_hash demo_mode (adapter_resolver a)
                  a.id (id_text e.id) s)))
            (run.at s);
    }

    cancel_if_due-IsRun :
        (is_due : Bool) (e : OutboxEvent) (a : PaymentAttempt)
        → IsRun p (cancel_if_due demo_mode adapter_resolver is_due e a)
    cancel_if_due-IsRun false e a = record { at = λ s. none_left s }
    cancel_if_due-IsRun true e a = record {
      at = λ s. mark_if_complete-run e s _ (
          (dispatch_checkout_cancellation-IsRun p demo_mode (adapter_resolver a) a.id
              (id_text e.id)).at
            s);
    }

    cancel_unless_done-IsRun :
        (is_done : Bool) (e : OutboxEvent) (a : PaymentAttempt)
        → IsRun p (cancel_unless_done demo_mode adapter_resolver is_done e a)
    cancel_unless_done-IsRun true e a = mark_done-IsRun e
    cancel_unless_done-IsRun false e a =
        bind-IsRun p _ _ (Keeps-IsRun p _ (Keeps-gets _ (λ s. s.journal.now)))
          λ now. cancel_if_due-IsRun _ e a

    cancel_event-IsRun :
        (e : OutboxEvent) (a : Option PaymentAttempt)
        → IsRun p (cancel_event demo_mode adapter_resolver e a)
    cancel_event-IsRun e none = ask-IsRun p _
    cancel_event-IsRun e (some a) =
        bind-IsRun p _ _ (step-IsRun p _ λ s b s' h. cancellation_completed a.id e.id b h)
          λ is_done. cancel_unless_done-IsRun is_done e a

    -- The task that sends requested checkouts only ever runs whole services: the database that it
    -- leaves is reached from the first one by steps of payments and of other applications, whatever
    -- the adapters answer or raise, and whatever the services raise.
    pub dispatch_checkout_events-Steps :
        (limit : ℕ) (s : Database)
        → Steps p s
            (dispatch_checkout_events p.urlparse p.payload_hash demo_mode adapter_resolver limit
              s).0
    unfolding dispatch_checkout_events
    dispatch_checkout_events-Steps limit s =
        (each-IsRun
            (λ e t.
              send_event p.urlparse p.payload_hash demo_mode adapter_resolver e
                (attempt_of_event e t) t)
            (λ e. record { at = λ t. (send_event-IsRun e (attempt_of_event e t)).at t })
            (request_events limit s)).at
          s

    -- The task that sends cancellations only ever runs whole services: the database that it leaves is
    -- reached from the first one by steps of payments and of other applications, whatever the
    -- adapters answer or raise, and whatever the services raise.
    pub dispatch_checkout_cancellation_events-Steps :
        (limit : ℕ) (s : Database)
        → Steps p s (dispatch_checkout_cancellation_events demo_mode adapter_resolver limit s).0
    unfolding dispatch_checkout_cancellation_events
    dispatch_checkout_cancellation_events-Steps limit s =
        (each-IsRun
            (λ e t. cancel_event demo_mode adapter_resolver e (attempt_of_cancellation e t) t)
            (λ e. record { at = λ t. (cancel_event-IsRun e (attempt_of_cancellation e t)).at t })
            (cancellation_events limit s)).at
          s
