-- ===== src/Tests/OutboxTests.antt =====
-- The queue of apps/platform/services.py at a concrete event.
use vidalys_flow.Common.{
  true, ◌+◌, ◌==◌, ◌≡◌, ◌≤◌, refl, true, none, some, [], ◌∷◌, All, find, length, arith,
}
use vidalys_flow.Text.{codes}
use vidalys_flow.Transaction.{ok}
use vidalys_flow.Platform.Tables.{OutboxEvent, Journal, pending, processed}
use vidalys_flow.Platform.Outbox.{
  max_attempts, is_event, attempted, save_event, mark_attempt, pending_events, mark_success,
  publish_event, publish_each, publish_pending_outbox, returned,
}
use vidalys_flow.Platform.Outbox.Selection.{IsSorted, IsUnique}
use vidalys_flow.Platform.Outbox.Earliest.{IsTaken, IsServed, pending_events_lem}
use vidalys_flow.Platform.Outbox.Saves.{IsQueue}
use vidalys_flow.Platform.Outbox.Attempts.{rests, steps, claims, claims_bounded}
use vidalys_flow.Platform.Outbox.Publishing.{
  mark_attempt_exclusive, publish_pending_outbox_complete, publish_pending_outbox_others,
}

abbrev event : OutboxEvent
event = record {
  id = 3;
  organization = 1;
  event_type = codes "order.created";
  aggregate_type = codes "order";
  aggregate = 2;
  payload = record { order = 2; status = codes "draft"; version = 1 };
  status = pending;
  attempts = 0;
  available_at = 10;
  processed_at = none;
  last_error = [];
  idempotency_key = record {
    kind = codes "order";
    aggregate = 2;
    event = codes "order.created";
    command = codes "k";
  };
}

abbrev queue : Journal
queue = record { outbox = event ∷ []; audit = []; next_id = 4; now = 12 }

abbrev claimed_queue : Journal
claimed_queue = save_event (attempted event) queue

first_claim : mark_attempt 3 queue ≡ ok (some (attempted event)) claimed_queue
unfolding mark_attempt
first_claim = refl

mark_attempt_exclusive_example : mark_attempt 3 claimed_queue ≡ ok none claimed_queue
mark_attempt_exclusive_example =
    mark_attempt_exclusive 3 queue (attempted event) claimed_queue first_claim

queue-IsQueue : IsQueue queue
queue-IsQueue = ((omega arith, omega arith), tt)

claims_bounded_example :
    IsQueue claimed_queue
    × (e' : OutboxEvent) × (find (is_event 3) claimed_queue.outbox ≡ some e')
    × (e'.attempts ≡ 0 + 1)
    × (e'.attempts ≤ max_attempts)
claims_bounded_example = claims_bounded 3 1 event queue claimed_queue queue-IsQueue refl (
    steps 1 0 queue claimed_queue claimed_queue
      (claims (attempted event) queue claimed_queue first_claim) (rests claimed_queue))

publish_pending_outbox_complete_example :
    let due = pending_events 20 queue in
    let (j', exit) = publish_pending_outbox true 20 queue in
    (exit ≡ returned (length due))
    × All
        (λ e.
          find (λ r. r.id == e.id) j'.outbox
          ≡ some (record e {
            status = processed;
            attempts = e.attempts + 1;
            processed_at = some 12;
            last_error = [];
          }))
        due
publish_pending_outbox_complete_example = publish_pending_outbox_complete true 20 queue (tt, tt)

-- An event that waits for its time.
abbrev later : OutboxEvent
later = record event { id = 2; available_at = 20 }

pending_events_lem_example :
    let j = record queue { outbox = event ∷ later ∷ [] } in
    let due = pending_events 1 j in
    All (λ e. IsTaken e j) due
    × IsUnique due
    × IsSorted due
    × (length due ≤ 1)
    × All (λ e. IsServed 1 e due j) j.outbox
pending_events_lem_example =
    pending_events_lem 1 (record queue { outbox = event ∷ later ∷ [] })
      ((omega arith, tt), (tt, tt))

publish_pending_outbox_others_example :
    find
      (is_event 2)
      (publish_pending_outbox true 20 (record queue { outbox = event ∷ later ∷ [] })).0.outbox
    ≡ some later
publish_pending_outbox_others_example =
    publish_pending_outbox_others true 20 (record queue { outbox = event ∷ later ∷ [] }) 2
      ((omega arith, tt), (tt, tt)) (unfold pending_events in (omega arith, tt))

-- The run of the task at this queue.
publishes_one : (publish_pending_outbox true 20 queue).1 ≡ returned 1
unfolding publish_pending_outbox publish_each publish_event pending_events mark_attempt mark_success
publishes_one = refl
