-- ===== src/Payments/Services/Leases/Exclusion.antt =====
-- A lease keeps other workers away.
use vidalys_flow.Common.{
  find_passes, find-replace, ℕ, suc, ◌+◌, ◌<◌, ◌≡◌, sym, ap, ◌∙◌, true, false, some, find, any,
  replace, ◌==◌, ==_iff, lt→ltb, arith,
}
use mathlib.Core.Path.{subst}
use vidalys_flow.Transaction.{
  ok, pure, >>=-eq-ok, or_raise-bind, unless-bind, raise_if-bind, outcome_state, outcome_value,
  raise_if-eq-ok,
}
use vidalys_flow.Transaction.Keeps.{Keeps, keeps_rules}
use vidalys_flow.Database.{Database}
use vidalys_flow.Orders.Tables.{Order, is_confirmed}
use vidalys_flow.Payments.Tables.{
  DispatchError, no_error, order_not_confirmed, intent_not_pending, provider_account_inactive,
  is_terminal_intent, is_requested, is_pending, PaymentIntent, PaymentAttempt,
}
use vidalys_flow.Payments.Errors.{PaymentError, invalid_payment, integrity_error}
use vidalys_flow.Payments.Services.{
  lock_intent, save_attempt, is_valid_attempt, conflicts, save_attempt_or, is_later,
  account_is_active, fresh_id, dispatch_lease_seconds,
}
use vidalys_flow.Payments.Services.Leases.{
  is_attempt, is_attempt_of, close_intent, ineligible, ineligibility, status_of_ineligible,
  close_ineligible, leased, take_lease, claim_or_close, ensure_available, claim_requested_checkout,
}

lock_intent-Keeps : (organization id : ℕ) → Keeps (λ s. s) (lock_intent organization id)
unfolding lock_intent
lock_intent-Keeps organization id = search keeps_rules depth 30

-- What a claim that returns has found.
abbrev Found : ℕ → Database → PaymentAttempt → Database → Type 0
Found id s a s' =
    (organization : ℕ) × (locked : Order × PaymentIntent) × (attempt : PaymentAttempt) × (find
        (is_attempt_of organization locked.1.id id) s.payments.attempts
      ≡ some attempt)
    × (is_requested attempt.status ≡ true)
    × (is_later attempt.lease_expires_at s.journal.now ≡ false)
    × (error : DispatchError) × (claim_or_close error locked.1 attempt s ≡ ok a s')

claim-Found :
    (id : ℕ) (s : Database) (a : PaymentAttempt) (s' : Database)
    → claim_requested_checkout id s ≡ ok a s'
    → Found id s a s'
unfolding claim_requested_checkout
claim-Found id s a s' h =
    let (reference, _, h₁) =
      or_raise-bind (find (is_attempt id) s.payments.attempts) invalid_payment _ s h in
    let (locked, s₁, l, h₂) =
      >>=-eq-ok (lock_intent reference.organization reference.intent) _ s h₁ in
    let same : s₁ ≡ s =
      (lock_intent-Keeps reference.organization reference.intent).at s locked s₁ l in
    let (attempt, found, h₃) =
      or_raise-bind
        (find (is_attempt_of reference.organization locked.1.id id) s₁.payments.attempts)
        invalid_payment _ s₁ h₂ in
    let (requested, h₄) = unless-bind (is_requested attempt.status) invalid_payment _ s₁ h₃ in
    let (_, s₂, available, h₅) = >>=-eq-ok (ensure_available attempt) _ s₁ h₄ in
    let (_, h₆) =
      raise_if-bind (is_later attempt.available_at s₁.journal.now) invalid_payment _ s₁ available in
    let (free, same₂) =
      raise_if-eq-ok (is_later attempt.lease_expires_at s₁.journal.now) invalid_payment s₁ h₆ in
    let error =
      ineligibility (is_confirmed locked.0.status) (is_pending locked.1.status)
        (account_is_active reference.organization attempt.provider_account s₂) in
    subst (λ x. Found id x a s') same
      (
        reference.organization,
        locked,
        attempt,
        found,
        requested,
        free,
        error,
        subst (λ x. claim_or_close error locked.1 attempt x ≡ ok a s') same₂ h₅,
      )

not_requested : (e : DispatchError) → is_requested (status_of_ineligible e) ≡ false
not_requested e = ground arith

closed_status :
    (error : DispatchError) (i : PaymentIntent) (attempt : PaymentAttempt) (s : Database)
    (a : PaymentAttempt) (s' : Database)
    → close_ineligible error i attempt s ≡ ok a s'
    → is_requested a.status ≡ false
unfolding close_ineligible
closed_status error i attempt s a s' h =
    let (_, s₁, _, h₁) = >>=-eq-ok (save_attempt (ineligible error attempt)) _ s h in
    let (_, s₂, _, h₂) = >>=-eq-ok (close_intent error (is_terminal_intent i.status) i _) _ s₁ h₁ in
    ap (λ (b : PaymentAttempt). is_requested b.status) (sym (outcome_value h₂))
    ∙ not_requested error

-- What the lease leaves in the table.
abbrev Leased : PaymentAttempt → Database → PaymentAttempt → Database → Type 0
Leased attempt s a s' =
    (token : ℕ) × (a ≡ leased token s.journal.now attempt)
    × (s'.payments.attempts ≡ replace (λ b. b.id == attempt.id) a s.payments.attempts)

pub saved_rows :
    (error : PaymentError) (a : PaymentAttempt) (s : Database) {u : Unit {0}} (s' : Database)
    → save_attempt_or error a s ≡ ok u s'
    → s'.payments.attempts ≡ replace (λ b. b.id == a.id) a s.payments.attempts
unfolding save_attempt_or
saved_rows error a s s' h =
    let (_, h₁) = unless-bind (is_valid_attempt a) error _ s h in
    let (_, h₂) = raise_if-bind (any (conflicts a) s.payments.attempts) error _ s h₁ in
    ap (λ (t : Database). t.payments.attempts) (outcome_state h₂)

abbrev numbered : Database → Database
numbered s = record s { journal = record (s.journal) { next_id = suc s.journal.next_id } }

lease_taken :
    (attempt : PaymentAttempt) (s : Database) (a : PaymentAttempt) (s' : Database)
    → take_lease attempt s ≡ ok a s'
    → Leased attempt s a s'
unfolding fresh_id
lease_taken attempt s a s' h =
    let new = leased s.journal.next_id s.journal.now attempt in
    let (_, s₁, saved, h₁) = >>=-eq-ok (save_attempt new) (λ _. pure new) (numbered s) h in
    let same : a ≡ new = sym (outcome_value h₁) in
    (
      s.journal.next_id,
      same,
      ap (λ (t : Database). t.payments.attempts) (outcome_state h₁)
          ∙ saved_rows integrity_error new (numbered s) s₁ saved
          ∙ ap (λ b. replace (λ c. c.id == attempt.id) b s.payments.attempts) (sym same),
    )

claim-Leased :
    (error : DispatchError) (i : PaymentIntent) (attempt : PaymentAttempt) (s : Database)
    (a : PaymentAttempt) (s' : Database)
    → claim_or_close error i attempt s ≡ ok a s'
    → is_requested a.status ≡ true
    → Leased attempt s a s'
claim-Leased no_error i attempt s a s' h requested = lease_taken attempt s a s' h
claim-Leased order_not_confirmed i attempt s a s' h requested =
    absurd (cc (closed_status _ _ _ _ _ _ h))
claim-Leased intent_not_pending i attempt s a s' h requested =
    absurd (cc (closed_status _ _ _ _ _ _ h))
claim-Leased provider_account_inactive i attempt s a s' h requested =
    absurd (cc (closed_status _ _ _ _ _ _ h))
claim-Leased _ i attempt s a s' h requested = absurd (cc (closed_status _ _ _ _ _ _ h))

leased_later : (now t : ℕ) → t < now + 90 → is_later (some (now + dispatch_lease_seconds)) t ≡ true
leased_later now t h = lt→ltb t (now + 90) h

is_attempt_of_id : (o i id : ℕ) (a : PaymentAttempt) → is_attempt_of o i id a ≡ true → a.id ≡ id
is_attempt_of_id o i id a h = ground arith

-- A worker that claims a requested attempt has it alone for 90 seconds: as long as the attempts are
-- as the claim left them and less than 90 seconds have passed, no other claim of the attempt returns.
pub claim_requested_checkout_excludes :
    (id : ℕ) (s : Database) (a : PaymentAttempt) (s' t : Database) (b : PaymentAttempt)
    (t' : Database)
    → claim_requested_checkout id s ≡ ok a s'
    → is_requested a.status ≡ true
    → t.payments.attempts ≡ s'.payments.attempts
    → t.journal.now < s.journal.now + 90
    → ¬ (claim_requested_checkout id t ≡ ok b t')
claim_requested_checkout_excludes id s a s' t b t' first requested same soon second =
    let (o, locked, attempt, found, _, _, error, claimed) = claim-Found id s a s' first in
    let (token, leased_a, rows) = claim-Leased error locked.1 attempt s a s' claimed requested in
    let (o₂, locked₂, attempt₂, found₂, _, free, _, _) = claim-Found id t b t' second in
    let is_a : attempt₂ ≡ a =
      find-replace (is_attempt_of o₂ locked₂.1.id id) (λ c. c.id == attempt.id) a
        s.payments.attempts attempt₂
        (λ c passes. (==_iff c.id attempt.id).1 (
          is_attempt_of_id o₂ locked₂.1.id id c passes
          ∙ sym (
              is_attempt_of_id o locked.1.id id attempt
                (find_passes (is_attempt_of o locked.1.id id) s.payments.attempts attempt found))))
        (ap (find (is_attempt_of o₂ locked₂.1.id id)) (sym (same ∙ rows)) ∙ found₂) in
    let lease : attempt₂.lease_expires_at ≡ some (s.journal.now + dispatch_lease_seconds) =
      ap (λ (c : PaymentAttempt). c.lease_expires_at) (is_a ∙ leased_a) in
    let late =
      ap (λ x. is_later x t.journal.now) lease ∙ leased_later s.journal.now t.journal.now soon in
    cc
