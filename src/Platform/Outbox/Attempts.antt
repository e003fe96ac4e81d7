-- ===== src/Platform/Outbox/Attempts.antt =====
-- How often an event of the queue is claimed, whatever the workers do between.
use vidalys_flow.Common.{
  ℕ, suc, ◌+◌, ◌≤◌, ◌≡◌, ◌≢◌, inl, inr, refl, sym, ◌∙◌, none, some, ◌∷◌, find, any, find-All,
  Bool-cases, arith,
}
use mathlib.Core.Path.{subst}
use vidalys_flow.Text.{Text}
use vidalys_flow.Transaction.{ok}
use vidalys_flow.Platform.Tables.{
  OutboxEvent, OutboxKey, EventPayload, Journal, enqueue_event, is_key,
}
use vidalys_flow.Platform.Outbox.{
  max_attempts, is_event, attempted, mark_attempt, succeeded, mark_success, failed, mark_failure,
}
use vidalys_flow.Platform.Outbox.Lists.{find-is_event}
use vidalys_flow.Platform.Outbox.Saves.{
  IsWithin, IsQueue, mark_attempt_cases, mark_success_saves, mark_failure_saves, save_event-IsQueue,
  plus_zero, save_event-Follows, other-Follows, any-Follows, attempted-IsWithin, succeeded-IsWithin,
  failed-IsWithin, more-IsWithin, Advances,
}

-- What the workers and the other services do to the outbox. The index counts the claims of one
-- event.
pub data Step (event_id : ℕ) : ℕ → Journal → Journal → Type 0 where
  enqueues :
      (organization : ℕ) (event_type aggregate_type : Text) (aggregate : ℕ) (payload : EventPayload)
      (key : OutboxKey) (j : Journal)
      → Step event_id 0 j
          (enqueue_event organization event_type aggregate_type aggregate payload key j)
  claims :
      (e : OutboxEvent) (j j' : Journal)
      → mark_attempt event_id j ≡ ok (some e) j'
      → Step event_id 1 j j'
  claims_other :
      (id : ℕ) (e : OutboxEvent) (j j' : Journal)
      → id ≢ event_id
      → mark_attempt id j ≡ ok (some e) j'
      → Step event_id 0 j j'
  finds_taken : (id : ℕ) (j j' : Journal) → mark_attempt id j ≡ ok none j' → Step event_id 0 j j'
  succeeds :
      (id : ℕ) (e : OutboxEvent) (j j' : Journal)
      → mark_success id j ≡ ok e j'
      → Step event_id 0 j j'
  fails :
      (id : ℕ) (error : Text) (e : OutboxEvent) (j j' : Journal)
      → mark_failure id error j ≡ ok e j'
      → Step event_id 0 j j'
  passes :
      (now more : ℕ) (j : Journal)
      → Step event_id 0 j (record j { now = now; next_id = j.next_id + more })

pub data Run (event_id : ℕ) : ℕ → Journal → Journal → Type 0 where
  rests : (j : Journal) → Run event_id 0 j j
  steps :
      (n m : ℕ) (j j' j'' : Journal)
      → Step event_id n j j'
      → Run event_id m j' j''
      → Run event_id (n + m) j j''

prepended_found :
    (event_id : ℕ) (j : Journal) (row : OutboxEvent)
    → find (is_event event_id) j.outbox ≡ some row
    → IsQueue j
    → (new : OutboxEvent) → new.id ≡ j.next_id
    → find (is_event event_id) (new ∷ j.outbox) ≡ some row
prepended_found event_id j row tracked queue new fresh =
    let (known, _) = find-All (IsWithin j.next_id) (is_event event_id) j.outbox row tracked queue in
    ground (arith, known, find-is_event event_id j.outbox row tracked)

enqueue_event-Advances :
    (event_id attempts organization : ℕ) (event_type aggregate_type : Text) (aggregate : ℕ)
    (payload : EventPayload) (key : OutboxKey) (j : Journal)
    → Advances event_id attempts 0 j
    → Advances event_id attempts 0
        (enqueue_event organization event_type aggregate_type aggregate payload key j)
unfolding enqueue_event
enqueue_event-Advances event_id attempts organization event_type aggregate_type aggregate payload
      key j (queue, (row, tracked, kept)) =
    elim (Bool-cases (any (is_key organization key) j.outbox)) [
      | inl present ↦ rw (present, enqueue_event) (queue, (row, tracked, kept))
      | inr new ↦
          rw (new, enqueue_event)
            (
              (
                (omega arith, omega arith),
                more-IsWithin j.next_id (suc j.next_id) j.outbox (omega arith) queue,
              ),
              (row, prepended_found event_id j row tracked queue _ refl, kept),
            )
    ]

Step-Advances :
    (event_id attempts n : ℕ) (j j' : Journal)
    → Step event_id n j j'
    → Advances event_id attempts 0 j
    → Advances event_id attempts n j'
Step-Advances event_id attempts _ _ _
      (enqueues organization event_type aggregate_type aggregate payload key j) a =
    enqueue_event-Advances event_id attempts organization event_type aggregate_type aggregate
      payload key j a
Step-Advances event_id attempts _ _ _ (claims e j j' h) (queue, follows) =
    let (row, found, how) = mark_attempt_cases event_id j h in
    elim how [
      | inl (_, none_found, _) ↦ absurd cc
      | inr (claimable, _, saved) ↦ subst (Advances event_id attempts 1) (sym saved) (
        save_event-IsQueue (attempted row) j
            (attempted-IsWithin j.next_id row claimable
              (find-All (IsWithin j.next_id) (is_event event_id) j.outbox row found queue))
            queue,
        save_event-Follows event_id event_id attempts 1 j row (attempted row) found refl refl refl
            follows,
      )
    ]
Step-Advances event_id attempts _ _ _ (claims_other id e j j' other h) (queue, follows) =
    let (row, found, how) = mark_attempt_cases id j h in
    elim how [
      | inl (_, none_found, _) ↦ absurd cc
      | inr (claimable, _, saved) ↦ subst (Advances event_id attempts 0) (sym saved) (
        save_event-IsQueue (attempted row) j
            (attempted-IsWithin j.next_id row claimable
              (find-All (IsWithin j.next_id) (is_event id) j.outbox row found queue))
            queue,
        other-Follows id event_id attempts j row (attempted row) found refl other follows,
      )
    ]
Step-Advances event_id attempts _ _ _ (finds_taken id j j' h) a =
    let (row, found, how) = mark_attempt_cases id j h in
    elim how [
      | inl (_, _, same) ↦ subst (Advances event_id attempts 0) (sym same) a
      | inr (_, some_found, _) ↦ absurd cc
    ]
Step-Advances event_id attempts _ _ _ (succeeds id e j j' h) (queue, follows) =
    let (row, found, saved) = mark_success_saves id j h in
    subst (Advances event_id attempts 0) (sym saved) (
      save_event-IsQueue (succeeded j.now row) j
          (succeeded-IsWithin j.next_id j.now row
            (find-All (IsWithin j.next_id) (is_event id) j.outbox row found queue))
          queue,
      any-Follows id event_id attempts j row (succeeded j.now row) found refl refl follows,
    )
Step-Advances event_id attempts _ _ _ (fails id error e j j' h) (queue, follows) =
    let (row, found, saved) = mark_failure_saves id error j h in
    subst (Advances event_id attempts 0) (sym saved) (
      save_event-IsQueue (failed error j.now row) j
          (failed-IsWithin j.next_id j.now error row
            (find-All (IsWithin j.next_id) (is_event id) j.outbox row found queue))
          queue,
      any-Follows id event_id attempts j row (failed error j.now row) found refl refl follows,
    )
Step-Advances event_id attempts _ _ _ (passes now more j) (queue, follows) =
    (more-IsWithin j.next_id (j.next_id + more) j.outbox (omega arith) queue, follows)

Run-Advances :
    (event_id attempts n : ℕ) (j j' : Journal)
    → Run event_id n j j'
    → Advances event_id attempts 0 j
    → Advances event_id attempts n j'
Run-Advances event_id attempts _ _ _ (rests j) a = a
Run-Advances event_id attempts _ _ _ (steps n m j j₁ j₂ step run) a =
    let (queue, (row, found, more)) = Step-Advances event_id attempts n j j₁ step a in
    let (queue', (row', found', more')) =
      Run-Advances event_id (attempts + n) m j₁ j₂ run
        (queue, (row, found, more ∙ sym (plus_zero (attempts + n)))) in
    (queue', (row', found', more' ∙ omega arith))

-- Whatever the workers and the services do in between, the attempts of an event of a queue grow by
-- the number of times that it is claimed, and are never more than `MAX_ATTEMPTS`.
pub claims_bounded :
    (event_id n : ℕ) (e : OutboxEvent) (j j' : Journal)
    → IsQueue j
    → find (is_event event_id) j.outbox ≡ some e
    → Run event_id n j j'
    → IsQueue j'
      × (e' : OutboxEvent) × (find (is_event event_id) j'.outbox ≡ some e')
      × (e'.attempts ≡ e.attempts + n)
      × (e'.attempts ≤ max_attempts)
claims_bounded event_id n e j j' queue found run =
    let (queue', (e', found', counts)) =
      Run-Advances event_id e.attempts n j j' run (queue, (e, found, sym (plus_zero e.attempts))) in
    let (_, within) =
      find-All (IsWithin j'.next_id) (is_event event_id) j'.outbox e' found' queue' in
    (queue', e', found', counts, omega (arith, within))
