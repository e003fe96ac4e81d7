-- ===== src/Platform/Outbox/Saves.antt =====
-- What the three services of the queue save, and what a saved row means for the others.
use vidalys_flow.Common.{
  ℕ, ◌+◌, ◌≤◌, ◌<◌, ◌≡◌, ◌≢◌, ◌⊎◌, inl, inr, refl, sym, ap, ◌∙◌, Bool, true, false, Option, none,
  some, List, [], ◌∷◌, All, find, replace-All, leb, if◌then◌else◌, ◌==◌, ==_iff, Bool-cases, arith,
}
use mathlib.Core.Path.{subst}
use mathlib.Core.Option.{some-injective}
use vidalys_flow.Text.{Text}
use vidalys_flow.Transaction.{ok, or_raise-bind, outcome_state, outcome_value}
use vidalys_flow.Platform.Tables.{OutboxEvent, Journal}
use vidalys_flow.Platform.Outbox.{
  does_not_exist, max_attempts, is_claimable, is_event, save_event, attempted, claimed,
  mark_attempt, succeeded, mark_success, failed, mark_failure,
}
use vidalys_flow.Platform.Outbox.Lists.{find-is_event, find_saved, find_other}

-- A claim that is still to come counts as an attempt.
abbrev pub attempts_with_next : OutboxEvent → ℕ
attempts_with_next e = e.attempts + (if is_claimable e.status then 1 else 0)

abbrev pub IsWithin : ℕ → OutboxEvent → Type 0
IsWithin next_id e = (e.id < next_id) × (attempts_with_next e ≤ max_attempts)

abbrev pub IsQueue : Journal → Type 0
IsQueue j = All (IsWithin j.next_id) j.outbox

-- How `mark_attempt` ends where it returns.
pub mark_attempt_cases :
    (id : ℕ) (j : Journal) {r : Option OutboxEvent} {j' : Journal}
    → mark_attempt id j ≡ ok r j'
    → (e : OutboxEvent) × (find (is_event id) j.outbox ≡ some e)
      × (((is_claimable e.status ≡ false) × (r ≡ none) × (j' ≡ j))
          ⊎ ((is_claimable e.status ≡ true)
              × (r ≡ some (attempted e))
              × (j' ≡ save_event (attempted e) j)))
unfolding mark_attempt
mark_attempt_cases id j {r} {j'} h =
    let (e, found, rest) = or_raise-bind (find (is_event id) j.outbox) does_not_exist _ j h in
    (e, found, go (is_claimable e.status) e refl rest)
  where
    go :
        (b : Bool) (e : OutboxEvent)
        → is_claimable e.status ≡ b
        → claimed b e j ≡ ok r j'
        → ((is_claimable e.status ≡ false) × (r ≡ none) × (j' ≡ j))
          ⊎ ((is_claimable e.status ≡ true)
              × (r ≡ some (attempted e))
              × (j' ≡ save_event (attempted e) j))
    go false e same h = inl (same, sym (outcome_value h), outcome_state h)
    go true e same h = inr (same, sym (outcome_value h), outcome_state h)

pub mark_success_saves :
    (id : ℕ) (j : Journal) {e' : OutboxEvent} {j' : Journal}
    → mark_success id j ≡ ok e' j'
    → (e : OutboxEvent) × (find (is_event id) j.outbox ≡ some e)
      × (j' ≡ save_event (succeeded j.now e) j)
unfolding mark_success
mark_success_saves id j h =
    let (e, found, rest) = or_raise-bind (find (is_event id) j.outbox) does_not_exist _ j h in
    (e, found, outcome_state rest)

pub mark_failure_saves :
    (id : ℕ) (error : Text) (j : Journal) {e' : OutboxEvent} {j' : Journal}
    → mark_failure id error j ≡ ok e' j'
    → (e : OutboxEvent) × (find (is_event id) j.outbox ≡ some e)
      × (j' ≡ save_event (failed error j.now e) j)
unfolding mark_failure
mark_failure_saves id error j h =
    let (e, found, rest) = or_raise-bind (find (is_event id) j.outbox) does_not_exist _ j h in
    (e, found, outcome_state rest)

-- The row of an event after a step that claimed it `n` times.
abbrev pub Follows : ℕ → ℕ → ℕ → Journal → Type 0
Follows event_id attempts n j =
    (e : OutboxEvent) × (find (is_event event_id) j.outbox ≡ some e) × (e.attempts ≡ attempts + n)

pub save_event-IsQueue :
    (e' : OutboxEvent) (j : Journal) → IsWithin j.next_id e' → IsQueue j → IsQueue (save_event e' j)
save_event-IsQueue e' j = replace-All (IsWithin j.next_id) (is_event e'.id) e' j.outbox

pub plus_zero : (n : ℕ) → n + 0 ≡ n
plus_zero n = omega arith

-- The row that is saved is the one that is followed.
pub counted :
    {id event_id attempts : ℕ} (rows : List OutboxEvent) {e row : OutboxEvent}
    → id ≡ event_id
    → find (is_event id) rows ≡ some e
    → find (is_event event_id) rows ≡ some row
    → row.attempts ≡ attempts + 0
    → e.attempts ≡ attempts
counted {id} {event_id} {attempts} rows {e} {row} this found tracked kept =
    let e≡row =
      some-injective e row (sym found ∙ ap (λ x. find (is_event x) rows) this ∙ tracked) in
    ap (λ (x : OutboxEvent). x.attempts) e≡row ∙ kept ∙ plus_zero attempts

pub save_event-Follows :
    (id event_id attempts n : ℕ) (j : Journal) (e e' : OutboxEvent)
    → find (is_event id) j.outbox ≡ some e
    → e'.id ≡ e.id
    → id ≡ event_id
    → e'.attempts ≡ e.attempts + n
    → Follows event_id attempts 0 j
    → Follows event_id attempts n (save_event e' j)
save_event-Follows id event_id attempts n j e e' found same this more (row, tracked, kept) = (
  e',
  find_saved event_id j.outbox e e' (subst (λ x. find (is_event x) j.outbox ≡ some e) this found)
      (same ∙ find-is_event id j.outbox e found ∙ this),
  more ∙ ap (λ x. x + n) (counted j.outbox this found tracked kept),
)

pub other-Follows :
    (id event_id attempts : ℕ) (j : Journal) (e e' : OutboxEvent)
    → find (is_event id) j.outbox ≡ some e
    → e'.id ≡ e.id
    → id ≢ event_id
    → Follows event_id attempts 0 j
    → Follows event_id attempts 0 (save_event e' j)
other-Follows id event_id attempts j e e' found same other (row, tracked, kept) = (
  row,
  find_other event_id e' j.outbox
        (λ this. other (sym (find-is_event id j.outbox e found) ∙ sym same ∙ this))
      ∙ tracked,
  kept,
)

-- A save that counts nothing, of whichever row.
pub any-Follows :
    (id event_id attempts : ℕ) (j : Journal) (e e' : OutboxEvent)
    → find (is_event id) j.outbox ≡ some e
    → e'.id ≡ e.id
    → e'.attempts ≡ e.attempts
    → Follows event_id attempts 0 j
    → Follows event_id attempts 0 (save_event e' j)
any-Follows id event_id attempts j e e' found same kept follows =
    elim (Bool-cases (id == event_id)) [
      | inl this ↦
          save_event-Follows id event_id attempts 0 j e e' found same ((==_iff id event_id).0 this)
            (kept ∙ sym (plus_zero e.attempts)) follows
      | inr other ↦
          other-Follows id event_id attempts j e e' found same (λ this. ground arith) follows
    ]

pub attempted-IsWithin :
    (next_id : ℕ) (e : OutboxEvent)
    → is_claimable e.status ≡ true
    → IsWithin next_id e
    → IsWithin next_id (attempted e)
attempted-IsWithin next_id e claimable (known, within) = ground arith

pub succeeded-IsWithin :
    (next_id now : ℕ) (e : OutboxEvent) → IsWithin next_id e → IsWithin next_id (succeeded now e)
succeeded-IsWithin next_id now e (known, within) = ground arith

-- The fifth failure is the last.
pub failed-IsWithin :
    (next_id now : ℕ) (error : Text) (e : OutboxEvent)
    → IsWithin next_id e
    → IsWithin next_id (failed error now e)
failed-IsWithin next_id now error e (known, within) =
    elim (Bool-cases (leb max_attempts e.attempts)) [
      | inl last ↦ ground arith
      | inr more ↦ ground arith
    ]

pub more-IsWithin :
    (n m : ℕ) (rows : List OutboxEvent) → n ≤ m → All (IsWithin n) rows → All (IsWithin m) rows
more-IsWithin n m [] le all = tt
more-IsWithin n m (x ∷ xs) le ((known, within), rest) =
    ((omega (arith, known, le), within), more-IsWithin n m xs le rest)

-- The rows of the queue stay within their bound, and the followed row counts its claims.
abbrev pub Advances : ℕ → ℕ → ℕ → Journal → Type 0
Advances event_id attempts n j = IsQueue j × Follows event_id attempts n j
