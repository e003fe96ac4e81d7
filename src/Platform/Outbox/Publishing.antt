-- ===== src/Platform/Outbox/Publishing.antt =====
-- What a turn of the task that drains the queue does to the rows.
use vidalys_flow.Common.{
  ℕ, ◌+◌, ◌≡◌, ◌≢◌, inl, inr, refl, sym, ap, ◌∙◌, Bool, true, false, Option, none, some, List, [],
  ◌∷◌, All, find, map, length, replace, arith, ◌==◌,
}
use mathlib.Core.Path.{subst}
use vidalys_flow.Transaction.{ok, >>=-ok, or_raise, pure}
use vidalys_flow.Platform.Tables.{OutboxEvent, Journal, processed}
use vidalys_flow.Platform.Outbox.{
  lock_event, does_not_exist, is_claimable, is_event, save_event, attempted, claimed, mark_attempt,
  succeeded, mark_success, pending_events, dummy_publisher, publish_event, is_delivered, Exit,
  returned, publish_each, publish_pending_outbox,
}
use vidalys_flow.Platform.Outbox.Lists.{find-is_event, find_saved, find_other}
use vidalys_flow.Platform.Outbox.Selection.{
  IsUnique, IsReady, pending_events-IsUnique, pending_events-IsReady,
}
use vidalys_flow.Platform.Outbox.Saves.{mark_attempt_cases}

-- The row of an event after its claim and its publication.
abbrev pub done : ℕ → OutboxEvent → OutboxEvent
done now e = succeeded now (attempted e)

or_raise-ok :
    (o : Option OutboxEvent) (e : OutboxEvent) (j : Journal)
    → o ≡ some e
    → or_raise o does_not_exist j ≡ ok e j
or_raise-ok o e j h = rw h refl

mark_attempt_claims :
    (id : ℕ) (j : Journal) (e : OutboxEvent)
    → find (is_event id) j.outbox ≡ some e
    → is_claimable e.status ≡ true
    → mark_attempt id j ≡ ok (some (attempted e)) (save_event (attempted e) j)
unfolding mark_attempt
mark_attempt_claims id j e found claimable =
    >>=-ok (lock_event id) _ (or_raise-ok (find (is_event id) j.outbox) e j found)
    ∙ ap (λ b. claimed b e j) claimable

mark_attempt_refuses :
    (id : ℕ) (j : Journal) (e : OutboxEvent)
    → find (is_event id) j.outbox ≡ some e
    → is_claimable e.status ≡ false
    → mark_attempt id j ≡ ok none j
unfolding mark_attempt
mark_attempt_refuses id j e found taken =
    >>=-ok (lock_event id) _ (or_raise-ok (find (is_event id) j.outbox) e j found)
    ∙ ap (λ b. claimed b e j) taken

mark_success_processes :
    (id : ℕ) (j : Journal) (e : OutboxEvent)
    → find (is_event id) j.outbox ≡ some e
    → mark_success id j ≡ ok (succeeded j.now e) (save_event (succeeded j.now e) j)
unfolding mark_success
mark_success_processes id j e found =
    >>=-ok (lock_event id) _ (or_raise-ok (find (is_event id) j.outbox) e j found)

-- An event that one worker has claimed is not claimed by a second one, and the second leaves the
-- queue as it is.
pub mark_attempt_exclusive :
    (id : ℕ) (j : Journal) (e : OutboxEvent) (j' : Journal)
    → mark_attempt id j ≡ ok (some e) j'
    → mark_attempt id j' ≡ ok none j'
mark_attempt_exclusive id j e j' h =
    let (row, found, how) = mark_attempt_cases id j h in
    elim how [
      | inl (_, none_found, _) ↦ absurd cc
      | inr (_, _, saved) ↦ rw saved (
          mark_attempt_refuses id (save_event (attempted row) j) (attempted row)
            (find_saved id j.outbox row (attempted row) found (find-is_event id j.outbox row found))
            refl)
    ]

-- The turn of the loop for one event that may be claimed.
abbrev pub saved_done : OutboxEvent → Journal → Journal
saved_done e j = save_event (done j.now e) (save_event (attempted e) j)

deliver_dummy :
    (demo_mode : Bool) (j : Journal) (e : OutboxEvent)
    → find (is_event e.id) j.outbox ≡ some e
    → is_delivered demo_mode dummy_publisher e.id (some e) j
      ≡ ok 1 (save_event (succeeded j.now e) j)
unfolding publish_event
deliver_dummy demo_mode j e found =
    >>=-ok (mark_success e.id) (λ _. pure 1) (mark_success_processes e.id j e found)

turn :
    (demo_mode : Bool) (ids : List ℕ) (n : ℕ) (j : Journal) (e : OutboxEvent)
    → find (is_event e.id) j.outbox ≡ some e
    → is_claimable e.status ≡ true
    → publish_each demo_mode dummy_publisher (e.id ∷ ids) n j
      ≡ publish_each demo_mode dummy_publisher ids (n + 1) (saved_done e j)
unfolding publish_each
turn demo_mode ids n j e found claimable =
    rw (mark_attempt_claims e.id j e found claimable, publish_each)
      (rw
        (
          deliver_dummy demo_mode (save_event (attempted e) j) (attempted e)
              (find_saved e.id j.outbox e (attempted e) found refl),
          publish_each,
        )
        refl)

-- The queue after a turn for each event.
abbrev pub drained : List OutboxEvent → Journal → Journal
drained [] j = j
drained (e ∷ es) j = drained es (saved_done e j)

turn_other :
    (id : ℕ) (e : OutboxEvent) (j : Journal)
    → e.id ≢ id
    → find (is_event id) (saved_done e j).outbox ≡ find (is_event id) j.outbox
turn_other id e j other =
    find_other id (done j.now e) (replace (is_event e.id) (attempted e) j.outbox) other
    ∙ find_other id (attempted e) j.outbox other

drained_other :
    (id : ℕ) (es : List OutboxEvent) (j : Journal)
    → All (λ e. e.id ≢ id) es
    → find (is_event id) (drained es j).outbox ≡ find (is_event id) j.outbox
drained_other id [] j others = refl
drained_other id (e ∷ es) j (other, others) =
    drained_other id es (saved_done e j) others ∙ turn_other id e j other

still-IsReady :
    (e : OutboxEvent) (es : List OutboxEvent) (j : Journal)
    → All (λ y. e.id ≢ y.id) es
    → All (IsReady j) es
    → All (IsReady (saved_done e j)) es
still-IsReady e [] j others ready = tt
still-IsReady e (x ∷ xs) j (other, others) ((found, claimable), ready) =
    ((turn_other x.id e j other ∙ found, claimable), still-IsReady e xs j others ready)

turn_done :
    (e : OutboxEvent) (j : Journal)
    → find (is_event e.id) j.outbox ≡ some e
    → find (is_event e.id) (saved_done e j).outbox ≡ some (done j.now e)
turn_done e j found =
    find_saved e.id (replace (is_event e.id) (attempted e) j.outbox) (attempted e) (done j.now e)
      (find_saved e.id j.outbox e (attempted e) found refl) refl

flipped : (id : ℕ) (es : List OutboxEvent) → All (λ y. id ≢ y.id) es → All (λ y. y.id ≢ id) es
flipped id [] others = tt
flipped id (e ∷ es) (other, others) = (λ same. other (sym same), flipped id es others)

drain :
    (demo_mode : Bool) (es : List OutboxEvent) (n : ℕ) (j : Journal)
    → IsUnique es
    → All (IsReady j) es
    → (publish_each demo_mode dummy_publisher (map (λ (e : OutboxEvent). e.id) es) n j
        ≡ (drained es j, returned (n + length es)))
      × All (λ e. find (is_event e.id) (drained es j).outbox ≡ some (done j.now e)) es
unfolding publish_each
drain demo_mode [] n j unique ready = (ap (λ x. (j, returned x)) (omega arith), tt)
drain demo_mode (e ∷ es) n j (others, unique) ((found, claimable), ready) =
    let (runs, rows) =
      drain demo_mode es (n + 1) (saved_done e j) unique (still-IsReady e es j others ready) in
    (
      turn demo_mode (map (λ (e : OutboxEvent). e.id) es) n j e found claimable
          ∙ runs
          ∙ ap (λ x. (drained es (saved_done e j), returned x)) (omega arith),
      (drained_other e.id es (saved_done e j) (flipped e.id es others) ∙ turn_done e j found, rows),
    )

-- A run of the task is a turn for each of the selected events.
publish_runs :
    (demo_mode : Bool) (limit : ℕ) (j : Journal)
    → IsUnique j.outbox
    → let due = pending_events limit j in
      (publish_pending_outbox demo_mode limit j ≡ (drained due j, returned (length due)))
      × All (λ e. find (is_event e.id) (drained due j).outbox ≡ some (done j.now e)) due
unfolding publish_pending_outbox
publish_runs demo_mode limit j unique =
    let due = pending_events limit j in
    let (runs, rows) =
      drain demo_mode due 0 j (pending_events-IsUnique limit j unique)
        (pending_events-IsReady limit j unique) in
    (runs ∙ ap (λ n. (drained due j, returned n)) (omega arith), rows)

-- Where the identifiers of the outbox are unique, a run of the task publishes every event that it
-- selects: it returns their number, and the row of each of them is the selected one with the status
-- of a processed event, the time of the run, one attempt more and no error.
pub publish_pending_outbox_complete :
    (demo_mode : Bool) (limit : ℕ) (j : Journal)
    → IsUnique j.outbox
    → let due = pending_events limit j in
      let (j', exit) = publish_pending_outbox demo_mode limit j in
      (exit ≡ returned (length due))
      × All
          (λ e.
            find (λ r. r.id == e.id) j'.outbox
            ≡ some (record e {
              status = processed;
              attempts = e.attempts + 1;
              processed_at = some j.now;
              last_error = [];
            }))
          due
publish_pending_outbox_complete demo_mode limit j unique =
    let due = pending_events limit j in
    let (runs, rows) = publish_runs demo_mode limit j unique in
    (
      ap (λ (x : Journal × Exit). x.1) runs,
      subst
          (λ (x : Journal × Exit).
            All (λ e. find (is_event e.id) x.0.outbox ≡ some (done j.now e)) due)
          (sym runs) rows,
    )

-- The row of an event that is not selected is not changed by the run.
pub publish_pending_outbox_others :
    (demo_mode : Bool) (limit : ℕ) (j : Journal) (id : ℕ)
    → IsUnique j.outbox
    → All (λ e. e.id ≢ id) (pending_events limit j)
    → find (is_event id) (publish_pending_outbox demo_mode limit j).0.outbox
      ≡ find (is_event id) j.outbox
publish_pending_outbox_others demo_mode limit j id unique others =
    ap (λ (x : Journal × Exit). find (is_event id) x.0.outbox)
      (publish_runs demo_mode limit j unique).0
    ∙ drained_other id (pending_events limit j) j others
