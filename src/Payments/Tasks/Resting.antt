-- ===== src/Payments/Tasks/Resting.antt =====
-- When the task of apps/payments/tasks.py that sends cancellations leaves the tables alone.
use vidalys_flow.Common.{
  ℕ, ◌+◌, ◌≡◌, ◌≢◌, ◌⊎◌, refl, ap, sym, ◌∙◌, Bool, true, false, not, ◌&&◌, Option, none, some, List,
  [], ◌∷◌, All, find, find-All, find_passes, map, select, ◌==◌, ==_iff, inl, inr,
}
use mathlib.Core.Path.{subst}
use vidalys_flow.Text.{codes, text_eq}
use vidalys_flow.Transaction.{Outcome, ok, raised}
use vidalys_flow.Transaction
use vidalys_flow.Transaction.Keeps.{Keeps, keeps_rules}
use vidalys_flow.Transaction.Process.{◌>>=◌, go_on, ask, settled}
use vidalys_flow.Platform.Tables.{OutboxEvent}
use vidalys_flow.Database.{Database}
use vidalys_flow.Payments.Tables.{
  AttemptStatus, requested, active, is_open, is_cancellable, PaymentAttempt,
}
use vidalys_flow.Payments.Errors.{PaymentError, PaymentService}
use vidalys_flow.Payments.Providers.{Adapter}
use vidalys_flow.Payments.Services.{is_later, lock_intent}
use vidalys_flow.Payments.Services.Leases.{is_attempt}
use vidalys_flow.Payments.Services.Cancellation.{
  same_event, is_cancellation_pending, complete_found, complete_of,
  complete_cancellation_event_for_terminal_attempt,
}
use vidalys_flow.Payments.Services.Dispatch.{PaymentProcess}
use vidalys_flow.Payments.Tasks.{
  is_cancellation_event, cancellation_events, attempt_of_cancellation, each, cancel_unless_done,
  cancel_event, dispatch_checkout_cancellation_events,
}
use vidalys_flow.Payments.Tasks.Idle.{IsWaiting, waiting_later, and_true, oldest-All}

-- An attempt that is to be cancelled is open, and it is still to be sent or waits for its next try.
abbrev pub IsResting : ℕ → PaymentAttempt → Type 0
IsResting now a =
    (a.cancellation_completed_at ≡ none)
    × ((a.status ≡ requested)
        ⊎ (((a.status ≡ active) ⊎ (a.status ≡ AttemptStatus.processing)) × IsWaiting now a))

-- No attempt is to be cancelled with an event now: it is no event of a cancellation, or the attempts
-- that it names and that name it rest.
abbrev pub IsQuiet : Database → OutboxEvent → Type 0
IsQuiet s e =
    (text_eq e.event_type (codes "payment.checkout_cancellation_requested") ≡ false)
    ⊎ ((text_eq e.aggregate_type (codes "payment_attempt") ≡ false)
        ⊎ All
            (λ a.
              (a.id ≢ e.aggregate)
              ⊎ ((a.cancellation_event ≢ some e.id) ⊎ IsResting s.journal.now a))
            s.payments.attempts)

same_event-eq : (c : Option ℕ) (event : ℕ) → same_event c event ≡ true → c ≡ some event
same_event-eq none event h = cc
same_event-eq (some c) event h = ap some ((==_iff c event).0 h)

rests :
    (s : Database) (e : OutboxEvent) (a : PaymentAttempt)
    → (a.id ≢ e.aggregate) ⊎ ((a.cancellation_event ≢ some e.id) ⊎ IsResting s.journal.now a)
    → (a.id == e.aggregate) ≡ true
    → same_event a.cancellation_event e.id ≡ true
    → IsResting s.journal.now a
rests s e a (inl differs) id event = absurd (differs ((==_iff a.id e.aggregate).0 id))
rests s e a (inr (inl differs)) id event =
    absurd (differs (same_event-eq a.cancellation_event e.id event))
rests s e a (inr (inr resting)) id event = resting

resting_open : (now : ℕ) (a : PaymentAttempt) → IsResting now a → is_open a.status ≡ true
resting_open now a (_, inl same) = ap is_open same
resting_open now a (_, inr (inl same, _)) = ap is_open same
resting_open now a (_, inr (inr same, _)) = ap is_open same

resting_kept :
    (now : ℕ) (a : PaymentAttempt)
    → IsResting now a
    → (is_cancellable a.status && not (is_later a.available_at now)) ≡ false
resting_kept now a (_, inl same) = rw same refl
resting_kept now a (_, inr (status, waits)) = go (is_cancellable a.status)
  where
    go : (b : Bool) → (b && not (is_later a.available_at now)) ≡ false
    go true = ap not (waiting_later now a waits)
    go false = refl

-- A completion that finds a resting attempt is not done.
not_complete :
    (now : ℕ) (found : Option PaymentAttempt) (s : Database)
    → ((a : PaymentAttempt) → found ≡ some a → IsResting now a)
    → complete_found found s ≡ ok false s
not_complete now none s h = refl
not_complete now (some a) s h =
    let resting = h a refl in rw (resting.0, resting_open now a resting) refl

-- A completion that commits nothing: it raises, or it returns that it is not done.
abbrev IsIdle : Database → Outcome Database PaymentError Bool → Type 0
IsIdle s o = ((e : PaymentError) × (o ≡ raised e)) ⊎ (o ≡ ok false s)

lock_intent-Keeps : (organization id : ℕ) → Keeps (λ s. s) (lock_intent organization id)
unfolding lock_intent
lock_intent-Keeps organization id = search keeps_rules depth 30

bind-IsIdle :
    {A : Type 0} (m : PaymentService A) (k : A → PaymentService Bool) (s : Database)
    → Keeps (λ t. t) m
    → ((a : A) → IsIdle s (k a s))
    → IsIdle s (Transaction.◌>>=◌ m k s)
bind-IsIdle {A} m k s keeps h = go (m s) refl
  where
    go :
        (o : Outcome Database PaymentError A)
        → m s ≡ o
        → IsIdle s (elim o [ ok a t ↦ k a t | raised e ↦ raised e ])
    go (ok a t) e = subst (λ x. IsIdle s (k a x)) (sym (keeps.at s a t e)) (h a)
    go (raised error) e = inl (error, refl)

abbrev IsAllAtRest : Database → OutboxEvent → Type 0
IsAllAtRest s e =
    All
      (λ a. (a.id ≢ e.aggregate) ⊎ ((a.cancellation_event ≢ some e.id) ⊎ IsResting s.journal.now a))
      s.payments.attempts

completion-IsIdle :
    (s : Database) (e : OutboxEvent) (id : ℕ)
    → id ≡ e.aggregate
    → IsAllAtRest s e
    → IsIdle s (complete_cancellation_event_for_terminal_attempt id e.id s)
unfolding complete_cancellation_event_for_terminal_attempt
completion-IsIdle s e id same all = go (find (is_attempt id) s.payments.attempts)
  where
    found :
        (intent : ℕ) (b : PaymentAttempt)
        → find
            (λ a. a.id == id && a.intent == intent && same_event a.cancellation_event e.id)
            s.payments.attempts
          ≡ some b
        → IsResting s.journal.now b
    found intent b h =
        let (front, event) =
          and_true (b.id == id && b.intent == intent) (same_event b.cancellation_event e.id)
            (find_passes _ s.payments.attempts b h) in
        let (identifier, _) = and_true (b.id == id) (b.intent == intent) front in
        rests s e b (find-All _ _ s.payments.attempts b h all)
          (ap (λ n. b.id == n) (sym same) ∙ identifier) event

    go : (reference : Option PaymentAttempt) → IsIdle s (complete_of id e.id reference s)
    go none = inr refl
    go (some r) =
        bind-IsIdle (lock_intent r.organization r.intent) _ s
          (lock_intent-Keeps r.organization r.intent)
          λ x. inr (not_complete s.journal.now _ s (found (x.1).id))

module _ (demo_mode : Bool) (adapter_resolver : PaymentAttempt → Adapter) where
  turn_rests :
      (s : Database) (e : OutboxEvent) (a : PaymentAttempt) (o : Outcome Database PaymentError Bool)
      → IsIdle s o
      → IsResting s.journal.now a
      → (go_on
          (λ is_done. cancel_unless_done demo_mode adapter_resolver is_done e a)
          (settled s o)).0
        ≡ s
  turn_rests s e a o (inl (error, failed)) resting = rw failed refl
  turn_rests s e a o (inr done) resting = rw (done, resting_kept s.journal.now a resting) refl

  event_rests :
      (s : Database) (e : OutboxEvent)
      → IsAllAtRest s e
      → (cancel_event demo_mode adapter_resolver e (attempt_of_cancellation e s) s).0 ≡ s
  event_rests s e all = go (attempt_of_cancellation e s) refl
    where
      go :
          (found : Option PaymentAttempt)
          → attempt_of_cancellation e s ≡ found
          → (cancel_event demo_mode adapter_resolver e found s).0 ≡ s
      go none h = refl
      go (some a) h =
          let (front, pending) =
            and_true _ (is_cancellation_pending a) (find_passes _ s.payments.attempts a h) in
          let (named, event) =
            and_true (a.organization == e.organization && a.id == e.aggregate) _ front in
          let (_, id) = and_true (a.organization == e.organization) (a.id == e.aggregate) named in
          turn_rests s e a _ (completion-IsIdle s e a.id ((==_iff a.id e.aggregate).0 id) all)
            (rests s e a (find-All _ _ s.payments.attempts a h all) id event)

each_rests :
    (turn : OutboxEvent → PaymentProcess ℕ) (es : List OutboxEvent) (s : Database)
    → All (λ e. (turn e s).0 ≡ s) es
    → (each turn es s).0 ≡ s
each_rests turn [] s all = refl
each_rests turn (e ∷ es) s (first, rest) = go (turn e s) first (each_rests turn es s rest)
  where
    sum :
        (n : ℕ) (y : Database × (PaymentError ⊎ ℕ))
        → y.0 ≡ s
        → (go_on (λ m. ask (inr (n + m))) y).0 ≡ s
    sum n (t, inl error) h = h
    sum n (t, inr m) h = h

    go :
        (x : Database × (PaymentError ⊎ ℕ))
        → x.0 ≡ s
        → (each turn es s).0 ≡ s
        → (go_on (λ n. each turn es >>= λ m. ask (inr (n + m))) x).0 ≡ s
    go (t, inl error) h later = h
    go (t, inr n) h later =
        subst (λ u. ((each turn es >>= λ m. ask (inr (n + m))) u).0 ≡ s) (sym h)
          (sum n (each turn es s) later)

types :
    (s : Database) (e : OutboxEvent)
    → is_cancellation_event (map (λ a. a.id) (select is_cancellation_pending s.payments.attempts)) e
      ≡ true
    → (text_eq e.event_type (codes "payment.checkout_cancellation_requested") ≡ true)
      × (text_eq e.aggregate_type (codes "payment_attempt") ≡ true)
types s e hit =
    let (front, _) =
      and_true
        (text_eq e.event_type (codes "payment.checkout_cancellation_requested")
          && text_eq e.aggregate_type (codes "payment_attempt"))
        _ hit in
    and_true (text_eq e.event_type (codes "payment.checkout_cancellation_requested"))
      (text_eq e.aggregate_type (codes "payment_attempt")) front

all_at_rest :
    (s : Database) (e : OutboxEvent)
    → IsQuiet s e
    → is_cancellation_event (map (λ a. a.id) (select is_cancellation_pending s.payments.attempts)) e
      ≡ true
    → IsAllAtRest s e
all_at_rest s e (inr (inr all)) hit = all
all_at_rest s e (inl other) hit = absurd (cc (other, (types s e hit).0))
all_at_rest s e (inr (inl other)) hit = absurd (cc (other, (types s e hit).1))

-- Where every event of the outbox is no event of a cancellation, or all attempts that it names and
-- that name it have no completed cancellation and are requested, or active or processing with a
-- next try at a later time, the task that sends cancellations leaves the database as it is, whatever
-- the adapters answer.
pub dispatch_checkout_cancellation_events_rest :
    (demo_mode : Bool) (adapter_resolver : PaymentAttempt → Adapter) (limit : ℕ) (s : Database)
    → All (IsQuiet s) s.journal.outbox
    → (dispatch_checkout_cancellation_events demo_mode adapter_resolver limit s).0 ≡ s
unfolding dispatch_checkout_cancellation_events
dispatch_checkout_cancellation_events_rest demo_mode adapter_resolver limit s quiet =
    each_rests (λ e t. cancel_event demo_mode adapter_resolver e (attempt_of_cancellation e t) t)
      (cancellation_events limit s) s
      (oldest-All (IsQuiet s) _ _ limit s.journal.outbox
        (λ e q hit. event_rests demo_mode adapter_resolver s e (all_at_rest s e q hit)) quiet)
