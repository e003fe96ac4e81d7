-- ===== src/Payments/Tasks/Idle.antt =====
-- When the tasks of apps/payments/tasks.py have nothing to do.
use vidalys_flow.Common.{
  ℕ, ◌≡◌, ◌≢◌, ◌<◌, ◌⊎◌, refl, ap, Bool, true, false, ◌&&◌, none, some, List, [], ◌∷◌, All, any,
  find, map, select, reverse, take, ◌==◌, ==_iff, inl, inr, arith,
}
use mathlib.Core.List.{reverse_aux}
use vidalys_flow.Text.{Text, codes, text_eq}
use vidalys_flow.Platform.Tables.{OutboxEvent}
use vidalys_flow.Platform.Outbox.Lists.{take-All, select-All, select_passes, both, weaken}
use vidalys_flow.Database.{Database}
use vidalys_flow.Payments.Tables.{AttemptStatus, requested, is_requested, PaymentAttempt}
use vidalys_flow.Payments.Providers.{Adapter}
use vidalys_flow.Payments.Services.{is_later}
use vidalys_flow.Payments.Services.Checkout.{PaymentRequest}
use vidalys_flow.Payments.Services.Activation.{ParsedUrl}
use vidalys_flow.Payments.Services.Dispatch.{PaymentProcess}
use vidalys_flow.Payments.Tasks.{
  is_due_attempt, is_request_event, request_events, attempt_of_event, each, send_event,
  dispatch_checkout_events,
}

-- The time before which an attempt is not tried has not come.
abbrev pub IsWaiting : ℕ → PaymentAttempt → Type 0
IsWaiting now a = (at : ℕ) × (a.available_at ≡ some at) × (now < at)

-- Nothing of an event is to be sent: it is of another type, or its intent has no requested attempt in
-- its organization, or all requested attempts of its intent wait.
abbrev pub IsUnsendable : Database → OutboxEvent → Type 0
IsUnsendable s e =
    (text_eq e.event_type (codes "payment.checkout_requested") ≡ false)
    ⊎ (All
          (λ a.
            (a.organization ≢ e.organization) ⊎ ((a.intent ≢ e.aggregate) ⊎ (a.status ≢ requested)))
          s.payments.attempts
        ⊎ All (λ a. (a.intent ≢ e.aggregate) ⊎ ((a.status ≢ requested) ⊎ IsWaiting s.journal.now a))
            s.payments.attempts)

is_requested-eq : (status : AttemptStatus) → is_requested status ≡ true → status ≡ requested
is_requested-eq requested h = refl
is_requested-eq AttemptStatus.active h = cc
is_requested-eq AttemptStatus.processing h = cc
is_requested-eq AttemptStatus.paid h = cc
is_requested-eq AttemptStatus.failed h = cc
is_requested-eq AttemptStatus.cancelled h = cc
is_requested-eq AttemptStatus.expired h = cc

pub and_true : (a b : Bool) → (a && b) ≡ true → (a ≡ true) × (b ≡ true)
and_true true b h = (refl, h)
and_true false b h = cc

pub none_found :
    (p : PaymentAttempt → Bool) (xs : List PaymentAttempt)
    → All (λ a. p a ≡ false) xs
    → find p xs ≡ none
none_found p [] misses = refl
none_found p (x ∷ xs) (miss, misses) = rw (miss, find) (none_found p xs misses)

-- What holds of all members holds of all members of the reversed list.
module _ {A : Type 0} (P : A → Type 0) where
  reverse_aux-All : (xs r : List A) → All P xs → All P r → All P (reverse_aux xs r)
  reverse_aux-All [] r all rest = rest
  reverse_aux-All (x ∷ xs) r (px, pxs) rest = reverse_aux-All xs (x ∷ r) pxs (px, rest)

  pub reverse-All : (xs : List A) → All P xs → All P (reverse xs)
  reverse-All xs all = reverse_aux-All xs [] all tt

  pub every_weaken : (Q : A → Type 0) (xs : List A) → ((a : A) → P a → Q a) → All P xs → All Q xs
  every_weaken Q [] h all = tt
  every_weaken Q (x ∷ xs) h (px, pxs) = (h x px, every_weaken Q xs h pxs)

no_other :
    (e : OutboxEvent) (a : PaymentAttempt)
    → (a.organization ≢ e.organization) ⊎ ((a.intent ≢ e.aggregate) ⊎ (a.status ≢ requested))
    → (a.organization == e.organization && a.intent == e.aggregate && is_requested a.status) ≡ false
no_other e a other = go _ refl
  where
    go :
        (b : Bool)
        → (a.organization == e.organization && a.intent == e.aggregate && is_requested a.status) ≡ b
        → b ≡ false
    go false h = refl
    go true h =
        let (named, status) =
          and_true (a.organization == e.organization && a.intent == e.aggregate) _ h in
        let (organization, intent) =
          and_true (a.organization == e.organization) (a.intent == e.aggregate) named in
        elim other [
          | inl differs ↦ absurd (differs ((==_iff a.organization e.organization).0 organization))
          | inr (inl differs) ↦ absurd (differs ((==_iff a.intent e.aggregate).0 intent))
          | inr (inr differs) ↦ absurd (differs (is_requested-eq a.status status))
        ]

pub waiting_later :
    (now : ℕ) (a : PaymentAttempt) → IsWaiting now a → is_later a.available_at now ≡ true
waiting_later now a (at, same, soon) = rw same (ground arith)

due_intents :
    (now intent : ℕ) (xs : List PaymentAttempt)
    → All (λ a. (a.intent ≢ intent) ⊎ ((a.status ≢ requested) ⊎ IsWaiting now a)) xs
    → any (λ i. i == intent) (map (λ a. a.intent) (select (is_due_attempt now) xs)) ≡ false
due_intents now intent [] idle = refl
due_intents now intent (x ∷ xs) (quiet, idle) =
    go (is_due_attempt now x) refl (due_intents now intent xs idle)
  where
    other : is_due_attempt now x ≡ true → (x.intent == intent) ≡ false
    other due =
        let (status, soon) = and_true (is_requested x.status) _ due in
        elim quiet [
          | inl differs ↦ ground arith
          | inr (inl differs) ↦ absurd (differs (is_requested-eq x.status status))
          | inr (inr waits) ↦ absurd (cc (waiting_later now x waits, soon))
        ]

    go :
        (b : Bool)
        → is_due_attempt now x ≡ b
        → any (λ i. i == intent) (map (λ a. a.intent) (select (is_due_attempt now) xs)) ≡ false
        → any
            (λ i. i == intent)
            (map
              (λ a. a.intent)
              (elim b [
                | true ↦ x ∷ select (is_due_attempt now) xs
                | false ↦ select (is_due_attempt now) xs
              ]))
          ≡ false
    go true due rest = rw (other due, any) rest
    go false due rest = rest

nothing_to_send :
    (s : Database) (e : OutboxEvent)
    → IsUnsendable s e
    → is_request_event
        (map (λ a. a.intent) (select (is_due_attempt s.journal.now) s.payments.attempts))
        e
      ≡ true
    → attempt_of_event e s ≡ none
nothing_to_send s e (inl other) hit =
    absurd
      (cc (other, (and_true (text_eq e.event_type (codes "payment.checkout_requested")) _ hit).0))
nothing_to_send s e (inr (inl others)) hit = none_found _ (reverse s.payments.attempts) (
    reverse-All _ s.payments.attempts
      (every_weaken _ _ s.payments.attempts (λ a h. no_other e a h) others))
nothing_to_send s e (inr (inr waiting)) hit = absurd (
    cc (
      due_intents s.journal.now e.aggregate s.payments.attempts waiting,
      (and_true (text_eq e.event_type (codes "payment.checkout_requested")) _ hit).1,
    ))

-- What holds of every event of the outbox and of every event that passes a test holds of the oldest
-- ones that pass it.
pub oldest-All :
    (P Q : OutboxEvent → Type 0) (p : OutboxEvent → Bool) (limit : ℕ) (outbox : List OutboxEvent)
    → ((e : OutboxEvent) → P e → p e ≡ true → Q e)
    → All P outbox
    → All Q (take limit (select p (reverse outbox)))
oldest-All P Q p limit outbox h all =
    let rows = select p (reverse outbox) in
    take-All Q limit rows (
      weaken _ Q rows (λ e (x : P e × (p e ≡ true)). h e x.0 x.1)
        (both P (λ e. p e ≡ true) rows (select-All P p (reverse outbox) (reverse-All P outbox all))
          (select_passes p (reverse outbox))))

each_idle :
    (turn : OutboxEvent → PaymentProcess ℕ) (es : List OutboxEvent) (s : Database)
    → All (λ e. turn e s ≡ (s, inr 0)) es
    → each turn es s ≡ (s, inr 0)
each_idle turn [] s idle = refl
each_idle turn (e ∷ es) s (first, rest) = rw (first, each) (rw (each_idle turn es s rest) refl)

-- Where every event of the outbox is of another type, or names an intent that has no requested
-- attempt in the organization of the event, or names one whose requested attempts all wait for a
-- later time, the task that sends the requested checkouts returns 0 and leaves the database as it
-- is, whatever the adapters answer.
pub dispatch_checkout_events_idle :
    (urlparse : Text → ParsedUrl) (payload_hash : PaymentRequest → ℕ) (demo_mode : Bool)
    (adapter_resolver : PaymentAttempt → Adapter) (limit : ℕ) (s : Database)
    → All (IsUnsendable s) s.journal.outbox
    → dispatch_checkout_events urlparse payload_hash demo_mode adapter_resolver limit s ≡ (s, inr 0)
unfolding dispatch_checkout_events
dispatch_checkout_events_idle urlparse payload_hash demo_mode adapter_resolver limit s idle =
    each_idle
      (λ e t.
        send_event urlparse payload_hash demo_mode adapter_resolver e (attempt_of_event e t) t)
      (request_events limit s) s
      (oldest-All (IsUnsendable s) _ _ limit s.journal.outbox
        (λ e quiet hit.
          ap (λ a. send_event urlparse payload_hash demo_mode adapter_resolver e a s)
            (nothing_to_send s e quiet hit))
        idle)
