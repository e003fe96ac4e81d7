-- ===== src/Platform/Outbox.antt =====
-- The queue of apps/platform/services.py, the publishers of apps/platform/publishers.py and the
-- task of apps/platform/tasks.py that drains the queue.
pub mod Lists
pub mod Saves
pub mod Attempts
pub mod Selection
pub mod Earliest
pub mod Publishing
use vidalys_flow.Common.{
  ℕ, suc, ◌+◌, Bool, true, false, ◌&&◌, Option, none, some, List, [], ◌∷◌, map, find, select,
  replace, leb, ◌==◌, if◌then◌else◌,
}
use vidalys_flow.Text.{Text, codes, take}
use vidalys_flow.Transaction.{
  Outcome, ok, raised, Service, ◌>>=◌, ◌>>◌, pure, modify, gets, or_raise,
}
use vidalys_flow.Platform.Tables.{
  OutboxEvent, OutboxStatus, pending, processing, retry, processed, dead, Journal,
}

-- `OutboxEvent.DoesNotExist`
pub data OutboxError : Type 0 where
  does_not_exist : OutboxError

abbrev pub max_attempts : ℕ
max_attempts = 5

-- `status in (PENDING, RETRY)`
abbrev pub is_claimable : OutboxStatus → Bool
is_claimable pending = true
is_claimable processing = false
is_claimable retry = true
is_claimable processed = false
is_claimable dead = false

abbrev pub is_event : ℕ → OutboxEvent → Bool
is_event id e = e.id == id

abbrev pub save_event : OutboxEvent → Journal → Journal
save_event event j = record j { outbox = replace (is_event event.id) event j.outbox }

-- `select_for_update().get(pk=event_id)`
abbrev pub lock_event : ℕ → Service Journal OutboxError OutboxEvent
lock_event event_id = do
  rows ← gets (λ j. j.outbox)
  or_raise (find (is_event event_id) rows) does_not_exist

abbrev pub attempted : OutboxEvent → OutboxEvent
attempted event = record event {
  attempts = event.attempts + 1;
  status = processing;
  last_error = [];
}

abbrev pub claimed : Bool → OutboxEvent → Service Journal OutboxError (Option OutboxEvent)
claimed false event = pure none
claimed true event = do modify (save_event (attempted event)); pure (some (attempted event))

unfoldable pub mark_attempt : ℕ → Service Journal OutboxError (Option OutboxEvent)
mark_attempt event_id = do event ← lock_event event_id; claimed (is_claimable event.status) event

abbrev pub succeeded : ℕ → OutboxEvent → OutboxEvent
succeeded now event = record event { status = processed; processed_at = some now; last_error = [] }

unfoldable pub mark_success : ℕ → Service Journal OutboxError OutboxEvent
mark_success event_id = do
  event ← lock_event event_id
  now ← gets (λ j. j.now)
  modify (save_event (succeeded now event))
  pure (succeeded now event)

-- The error is known by the name of its class.
abbrev pub failed : Text → ℕ → OutboxEvent → OutboxEvent
failed error now event = record event {
  status = if leb max_attempts event.attempts then dead else retry;
  last_error = take 500 error;
  available_at = now;
}

unfoldable pub mark_failure : ℕ → Text → Service Journal OutboxError OutboxEvent
mark_failure event_id error = do
  event ← lock_event event_id
  now ← gets (λ j. j.now)
  modify (save_event (failed error now event))
  pure (failed error now event)

abbrev pub is_due : ℕ → OutboxEvent → Bool
is_due now e = is_claimable e.status && leb e.available_at now

-- `order_by("available_at", "created_at")`: a stable insertion into rows that are in the order of
-- their creation. A row is put after the older rows that are available at the same time.
abbrev pub insert_event : OutboxEvent → List OutboxEvent → List OutboxEvent
insert_event e [] = e ∷ []
insert_event e (x ∷ xs) = elim (leb x.available_at e.available_at) [
  | true ↦ x ∷ insert_event e xs
  | false ↦ e ∷ x ∷ xs
]

-- The outbox holds the newest row first, so that the oldest is inserted first.
abbrev pub sort_events : List OutboxEvent → List OutboxEvent
sort_events [] = []
sort_events (e ∷ es) = insert_event e (sort_events es)

unfoldable pub pending_events : ℕ → Journal → List OutboxEvent
pending_events limit j = take limit (sort_events (select (is_due j.now) j.outbox))

-- What `publisher.publish(event)` does: it returns a result, accepted or not, or raises.
pub data Published : Type 0 where
  answered : Bool → Published
  threw : Text → Published

pub record Publisher : Type 0 where
  pub external : Bool
  pub publish : OutboxEvent → Published

abbrev pub dummy_publisher : Publisher
dummy_publisher = record { external = false; publish = λ event. answered true }

-- `publish_event`, with `settings.VIDALYS_DEMO_MODE` as its first argument.
unfoldable pub publish_event : Bool → OutboxEvent → Publisher → Published
publish_event demo_mode event publisher = elim (publisher.external && demo_mode) [
  | true ↦ threw (codes "ExternalEffectBlockedError")
  | false ↦ publisher.publish event
]

-- The class of the exception that the `try` of the task catches, if any.
abbrev pub failure_of : Published → Option Text
failure_of (answered true) = none
failure_of (answered false) = some (codes "RuntimeError")
failure_of (threw error) = some error

-- The task is not one transaction: what it committed before an error that escapes it stays.
pub data Exit : Type 0 where
  returned : ℕ → Exit
  escaped : OutboxError → Exit

-- One turn of the loop of the task, which adds to the count of processed events.
abbrev pub delivered : ℕ → Option Text → Service Journal OutboxError ℕ
delivered event_id (some error) = mark_failure event_id error >> pure 0
delivered event_id none = mark_success event_id >> pure 1

abbrev pub is_delivered : Bool → Publisher → ℕ → Option OutboxEvent → Service Journal OutboxError ℕ
is_delivered demo_mode publisher event_id none = pure 0
is_delivered demo_mode publisher event_id (some event) =
    delivered event_id (failure_of (publish_event demo_mode event publisher))

unfoldable pub publish_each : Bool → Publisher → List ℕ → ℕ → Journal → Journal × Exit
publish_each demo_mode publisher [] count j = (j, returned count)
publish_each demo_mode publisher (event_id ∷ event_ids) count j = elim (mark_attempt event_id j) [
  | raised e ↦ (j, escaped e)
  | ok event j₁ ↦ elim (is_delivered demo_mode publisher event_id event j₁) [
    | raised e ↦ (j₁, escaped e)
    | ok n j₂ ↦ publish_each demo_mode publisher event_ids (count + n) j₂
  ]
]

unfoldable pub publish_pending_outbox : Bool → ℕ → Journal → Journal × Exit
publish_pending_outbox demo_mode limit j =
    publish_each demo_mode dummy_publisher
      (map (λ (e : OutboxEvent). e.id) (pending_events limit j)) 0 j
