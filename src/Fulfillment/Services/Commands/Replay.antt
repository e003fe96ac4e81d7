-- ===== src/Fulfillment/Services/Commands/Replay.antt =====
-- A transition that is sent again returns what it returned before and changes nothing.
use vidalys_flow.Common.{
  ℕ, ◌≡◌, refl, ap, ◌∙◌, ◌&&◌, ◌++◌, not, Bool, true, false, Option, some, List, [], ◌∷◌, find,
  replace, ◌==◌, Bool-cases, inl, inr, arith,
}
use vidalys_flow.Text.{Text, codes, strip, is_empty}
use vidalys_flow.Organizations.{User, Directory, has_membership, has_manager_role}
use vidalys_flow.Transaction.{
  ok, >>=-eq-ok, >>=-ok, unless, raise_if-bind, raise_if-ok, outcome_state,
}
use vidalys_flow.Transaction.Keeps.{Keeps, keeps_rules}
use vidalys_flow.Idempotency.{Receipt}
use vidalys_flow.Idempotency.Command.{once_again, once-Keeps}
use vidalys_flow.Database.{Database}
use vidalys_flow.Fulfillment.Tables.{Status, Fulfillment, CommandResult, status_text, is_cancelled}
use vidalys_flow.Fulfillment.Errors.{
  FulfillmentError, idempotency_conflict, fulfillment_permission_denied, reason_required,
  invalid_fulfillment,
}
use vidalys_flow.Fulfillment.Services.{
  FulfillmentEvent, is_fulfillment, require_permission, existing_fulfillment, fulfillment_receipts,
  result_of, record_change,
}
use vidalys_flow.Fulfillment.Services.Commands.{
  FulfillmentRequest, transition_request, transition_fulfillment, transition_fulfillment_work,
}
use vidalys_flow.Fulfillment.Services.Commands.Moves.{
  IsMoved, rows_of, transition_fulfillment_work_effect,
}

-- What a transition leaves alone.
abbrev untouched : Database → Directory × List (Receipt CommandResult)
untouched s = (s.directory, s.fulfillment.receipts)

record_change-Keeps-untouched :
    (f : Fulfillment) (actor : Option ℕ) (event : FulfillmentEvent) (key : Text)
    → Keeps {E = FulfillmentError} untouched (record_change f actor event key)
unfolding record_change
record_change-Keeps-untouched f actor event key = search keeps_rules depth 20

transition_fulfillment_work-Keeps :
    (organization id : ℕ) (actor : User) (target : Status) (expected_version : ℕ)
    (key reason : Text)
    → Keeps untouched
        (transition_fulfillment_work organization id actor target expected_version key reason)
unfolding transition_fulfillment_work
transition_fulfillment_work-Keeps organization id actor target expected_version key reason =
    search (keeps_rules, record_change-Keeps-untouched) depth 40 fits 20000

existing_fulfillment-Keeps :
    {X : Type 0} (f : Database → X) (r : Receipt CommandResult)
    → Keeps {E = FulfillmentError} f (existing_fulfillment r)
existing_fulfillment-Keeps f r = search keeps_rules

existing_found :
    (organization : ℕ) (o : Fulfillment) (r : Receipt CommandResult) (s : Database)
    → r.organization ≡ organization
    → r.result ≡ some (result_of o)
    → find (is_fulfillment organization o.id) s.fulfillment.fulfillments ≡ some o
    → existing_fulfillment r s ≡ ok o s
existing_found organization o r s owner result found = rw (result, owner, found) refl

find-saved :
    (organization id : ℕ) (rows : List Fulfillment) (f f' : Fulfillment)
    → find (is_fulfillment organization id) rows ≡ some f
    → f'.organization ≡ f.organization
    → f'.id ≡ f.id
    → find (is_fulfillment organization f'.id) (replace (λ g. g.id == f'.id) f' rows) ≡ some f'
find-saved organization id [] f f' h e i = cc
find-saved organization id (x ∷ xs) f f' h e i = elim (Bool-cases (x.id == f'.id)) [
  | inl same ↦ elim (Bool-cases (is_fulfillment organization id x)) [
    | inl here ↦ ground arith
    | inr elsewhere ↦ ground (arith, find-saved organization id xs f f', owner organization id xs f)
  ]
  | inr other ↦ ground (arith, find-saved organization id xs f f')
]
  where
    owner :
        (organization id : ℕ) (xs : List Fulfillment) (f : Fulfillment)
        → find (is_fulfillment organization id) xs ≡ some f
        → f.organization ≡ organization
    owner organization id [] f h = cc
    owner organization id (x ∷ xs) f h = ground (arith, owner organization id xs f)

unless-eq-ok :
    (b : Bool) (e : FulfillmentError) (s : Database) {u : Unit {0}} {t : Database}
    → unless b e s ≡ ok u t
    → (b ≡ true) × (t ≡ s)
unless-eq-ok true e s h = (refl, outcome_state h)
unless-eq-ok false e s h = cc

-- The permission depends on the directory alone, and asking for it changes nothing.
require_permission_again :
    (actor : User) (organization : ℕ) (cancel : Bool) (s s' : Database) {u : Unit {0}}
    {t : Database}
    → require_permission actor organization cancel s ≡ ok u t
    → (t ≡ s)
      × (s'.directory ≡ s.directory → require_permission actor organization cancel s' ≡ ok tt s')
require_permission_again actor organization true s s' h =
    let (may, same) =
      unless-eq-ok (has_manager_role actor organization s.directory) fulfillment_permission_denied s
        h in
    (
      same,
      λ e.
          ap (λ b. unless b fulfillment_permission_denied s')
            (ap (has_manager_role actor organization) e ∙ may),
    )
require_permission_again actor organization false s s' h =
    let (may, same) =
      unless-eq-ok (has_membership actor organization s.directory) fulfillment_permission_denied s
        h in
    (
      same,
      λ e.
          ap (λ b. unless b fulfillment_permission_denied s')
            (ap (has_membership actor organization) e ∙ may),
    )

moved_found :
    (organization id : ℕ) (target : Status) (reason : Text) (now : ℕ)
    (rows rows' : List Fulfillment) (before o : Fulfillment)
    → find (is_fulfillment organization id) rows ≡ some before
    → IsMoved target reason now before o
    → rows' ≡ replace (λ g. g.id == o.id) o rows
    → find (is_fulfillment organization o.id) rows' ≡ some o
moved_found organization id target reason now rows rows' before o found same saved = rw saved (
    find-saved organization id rows before o found
      (ap (λ (f : Fulfillment). f.organization) (same.0)) (ap (λ (f : Fulfillment). f.id) (same.0)))

module _ (payload_hash : FulfillmentRequest → ℕ) where
  -- `transition_fulfillment` sent again with the same arguments returns the same batch and changes
  -- nothing.
  pub transition_fulfillment_again :
      (organization id : ℕ) (actor : User) (target : Status) (expected_version : ℕ)
      (key reason : Text) (s : Database) (o : Fulfillment) (s' : Database)
      → transition_fulfillment payload_hash organization id actor target expected_version key reason
          s
        ≡ ok o s'
      → transition_fulfillment payload_hash organization id actor target expected_version key reason
          s'
        ≡ ok o s'
  unfolding transition_fulfillment
  transition_fulfillment_again organization id actor target expected_version key reason s o s' h =
      let given = strip reason in
      let (u, t, may, h₁) =
        >>=-eq-ok (require_permission actor organization (is_cancelled target)) _ s h in
      let (start, permitted) =
        require_permission_again actor organization (is_cancelled target) s s' may in
      let (explained, h₂) =
        raise_if-bind (is_cancelled target && is_empty given) reason_required _ t h₁ in
      let (wanted, h₃) =
        raise_if-bind (not (is_cancelled target) && not (is_empty given)) invalid_fulfillment _ t
          h₂ in
      let work =
        transition_fulfillment_work organization id actor target expected_version key given in
      let keeps =
        transition_fulfillment_work-Keeps organization id actor target expected_version key given in
      let digest = payload_hash (transition_request id target expected_version given) in
      let again =
        once_again fulfillment_receipts (λ _. idempotency_conflict) organization
          (codes "transition_fulfillment_" ++ status_text target) key digest work
          existing_fulfillment
          (λ s₁ o₁ v₁ s₂ e.
            let (before, order, lock, _, _, same, result, saved) =
              transition_fulfillment_work_effect organization id actor target expected_version key
                given s₁ e in
            (
              ap (λ (x : Directory × List (Receipt CommandResult)). x.1)
                  (keeps.at s₁ (o₁, v₁) s₂ e),
              λ r rows owner completed.
                  existing_found organization o₁ r (fulfillment_receipts.store rows s₂) owner
                    (completed ∙ ap some result)
                    (moved_found organization id target given s₁.journal.now (rows_of s₁)
                      (rows_of s₂) before o₁ lock.found same saved),
            ))
          (λ r s₁ a s₂ e. (existing_fulfillment-Keeps (λ x. x) r).at s₁ a s₂ e) t o s' h₃ in
      let kept =
        (once-Keeps fulfillment_receipts (λ _. idempotency_conflict) (λ (x : Database). x.directory)
            (λ rows x. refl) organization (codes "transition_fulfillment_" ++ status_text target)
            key digest work existing_fulfillment
            (record {
              at = λ s₁ a s₂ e.
                  ap (λ (x : Directory × List (Receipt CommandResult)). x.0) (keeps.at s₁ a s₂ e);
            })
            (existing_fulfillment-Keeps (λ x. x.directory))).at
          t o s' h₃ in
      >>=-ok (require_permission actor organization (is_cancelled target)) _
        (permitted (kept ∙ ap (λ (x : Database). x.directory) start))
      ∙ raise_if-ok _ _ _ s' explained
      ∙ raise_if-ok _ _ _ s' wanted
      ∙ again
