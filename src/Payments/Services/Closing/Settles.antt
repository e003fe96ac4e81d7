-- ===== src/Payments/Services/Closing/Settles.antt =====
-- What the event of a cancelled order leaves of its payment.
use vidalys_flow.Common.{
  find_passes, ℕ, ◌≡◌, refl, sym, ap, ◌∙◌, ◌⊎◌, inl, inr, Bool, true, false, not, ◌&&◌, ◌||◌,
  Option, none, some, List, [], ◌∷◌, any, find, find-All, replace, ◌==◌, Bool-cases, arith,
}
use mathlib.Core.Path.{subst}
use vidalys_flow.Text.{Text, is_empty, text_eq}
use vidalys_flow.Transaction.{ok, pure, >>=-eq-ok, outcome_state, outcome_value}
use vidalys_flow.Transaction.Keeps.{Keeps, keeps_rules}
use vidalys_flow.Transaction.Returns.{Returns, Returns-pure, Returns-then, returns_rules}
use vidalys_flow.Database.{Database}
use vidalys_flow.Payments.Tables.{
  IntentStatus, Source, Reason, is_open, PaymentIntent, PaymentAttempt,
}
use vidalys_flow.Payments.Errors.{integrity_error}
use vidalys_flow.Payments.Services.{
  PaymentEvent, conflicts, lock_order, save_intent, save_attempt, history, record_change, audit,
}
use vidalys_flow.Payments.Services.Cancellation.{is_unsent}
use vidalys_flow.Payments.Services.Closing.{
  Closure, closes, needs_attention, stays, closure_of_intent, cancelled_with_order, close_unsent,
  close_attempt, in_conflict, close_payment, is_open_for,
}
use vidalys_flow.Payments.Services.Leases.Exclusion.{saved_rows}
use vidalys_flow.Payments.Soundness.{IsExclusive}

-- Neither open for a payment nor paid without notice.
abbrev pub is_settled : IntentStatus → Bool
is_settled IntentStatus.cancelled = true
is_settled IntentStatus.expired = true
is_settled IntentStatus.requires_attention = true
is_settled _ = false

module _ {X : Type 0} (f : Database → X) where
  pub lock_order-Keeps : (organization id : ℕ) → Keeps f (lock_order organization id)
  lock_order-Keeps organization id = search keeps_rules depth 10

abbrev pub rows_of : Database → List PaymentAttempt
rows_of s = s.payments.attempts

save_intent-Keeps : (i : PaymentIntent) → Keeps rows_of (save_intent i)
unfolding save_intent
save_intent-Keeps i = search keeps_rules

history-Keeps :
    (i : PaymentIntent) (status : Option IntentStatus) (actor : Option ℕ) (key : Text)
    (source : Source) (why : Reason)
    → Keeps rows_of (history i status actor key source why)
unfolding history
history-Keeps i status actor key source why = search keeps_rules depth 10

record_change-Keeps :
    (i : PaymentIntent) (actor : Option ℕ) (e : PaymentEvent) (key : Text)
    → Keeps rows_of (record_change i actor e key)
unfolding record_change audit
record_change-Keeps i actor e key = search keeps_rules depth 10

pub close_payment-Keeps :
    (c : Closure) (i : PaymentIntent) (key : Text) → Keeps rows_of (close_payment c i key)
close_payment-Keeps stays i key = search keeps_rules
close_payment-Keeps closes i key =
    search (keeps_rules, save_intent-Keeps, history-Keeps, record_change-Keeps) depth 30
close_payment-Keeps needs_attention i key =
    search (keeps_rules, save_intent-Keeps, history-Keeps, record_change-Keeps) depth 30

-- The status that the intent has afterwards.
abbrev pub IsClosedBy : Closure → PaymentIntent → PaymentIntent → Type 0
IsClosedBy stays i j = j ≡ i
IsClosedBy closes i j = (j.status ≡ IntentStatus.cancelled) × (j.id ≡ i.id)
IsClosedBy needs_attention i j = (j.status ≡ IntentStatus.requires_attention) × (j.id ≡ i.id)

attended_now :
    (i : PaymentIntent)
    → ((in_conflict i).status ≡ IntentStatus.requires_attention) × ((in_conflict i).id ≡ i.id)
attended_now i = (refl, refl)

pub closes-Returns :
    (c : Closure) (i : PaymentIntent) (key : Text)
    → Returns (λ j. IsClosedBy c i j) (close_payment c i key)
closes-Returns stays i key = Returns-pure _ i refl
closes-Returns closes i key = search returns_rules depth 10
closes-Returns needs_attention i key = search (returns_rules, attended_now) depth 10

-- The attempts after the closure of the attempt, by what it has decided.
abbrev pub IsShut : Closure → IntentStatus → ℕ → List PaymentAttempt → Type 0
IsShut needs_attention status i rows = Unit
IsShut c status i rows = any (is_open_for i) rows ≡ false

none_open :
    (i : ℕ) (rows : List PaymentAttempt)
    → find (is_open_for i) rows ≡ none
    → any (is_open_for i) rows ≡ false
none_open i [] h = refl
none_open i (a ∷ rows) h = elim (Bool-cases (is_open_for i a)) [
  | inl hit ↦ absurd (ground arith)
  | inr miss ↦ rw (any, miss) (none_open i rows (ground arith))
]

apart :
    (i ai bi : ℕ) (oa ob x : Bool)
    → (bi == ai && oa && ob || x) ≡ false
    → (ai == i && oa) ≡ true
    → (bi == i && ob) ≡ false
apart i ai bi oa ob x h k = ground arith

any_split :
    {A : Type 0} (p : A → Bool) (x : A) (xs : List A)
    → any p (x ∷ xs) ≡ false
    → (p x ≡ false) × (any p xs ≡ false)
any_split p x xs h = elim (Bool-cases (p x)) [
  | inl hit ↦ absurd (ground arith)
  | inr miss ↦ (miss, ground arith)
]

under_not : (x y : Bool) → x ≡ false → (not x && y) ≡ false → y ≡ false
under_not true y h k = cc
under_not false y h k = k

and_false : (b : Bool) → (b && false) ≡ false
and_false true = refl
and_false false = refl

-- All open attempts of an intent are one attempt, where no two attempts conflict.
shut_rows :
    (i : ℕ) (a : PaymentAttempt) (rows : List PaymentAttempt)
    → any (conflicts a) rows ≡ false
    → is_open_for i a ≡ true
    → any (is_open_for i) (replace (λ b. b.id == a.id) (cancelled_with_order a) rows) ≡ false
shut_rows i a [] free opened = refl
shut_rows i a (b ∷ rows) free opened =
    let (no_conflict, rest) = any_split (conflicts a) b rows free in
    let later = shut_rows i a rows rest opened in
    elim (Bool-cases (b.id == a.id)) [
      | inl same ↦ rw (same, any, and_false (a.intent == i)) later
      | inr other ↦
          let closed =
            apart i a.intent b.intent (is_open a.status) (is_open b.status)
              (b.provider_account == a.provider_account
                && not (is_empty a.external_resource_id)
                && text_eq b.external_resource_id a.external_resource_id)
              (under_not (b.id == a.id) _ other no_conflict) opened in
          rw (other, any, closed) later
    ]

find_free :
    (p : PaymentAttempt → Bool) (rows : List PaymentAttempt) (a : PaymentAttempt)
    → find p rows ≡ some a
    → IsExclusive rows
    → any (conflicts a) rows ≡ false
find_free p rows a h exclusive = find-All (λ b. any (conflicts b) rows ≡ false) p rows a h exclusive

IsShut-anyhow :
    (c : Closure) (status : IntentStatus) (i : ℕ) (rows : List PaymentAttempt)
    → any (is_open_for i) rows ≡ false
    → IsShut c status i rows
IsShut-anyhow closes status i rows h = h
IsShut-anyhow stays status i rows h = h
IsShut-anyhow needs_attention status i rows h = tt

close_unsent-IsShut :
    (unsent : Bool) (a : PaymentAttempt) (status : IntentStatus) (i : ℕ) (s : Database)
    (c : Closure) (s' : Database)
    → find (is_open_for i) s.payments.attempts ≡ some a
    → IsExclusive s.payments.attempts
    → close_unsent unsent a status s ≡ ok c s'
    → IsShut c status i s'.payments.attempts
close_unsent-IsShut true a status i s c s' found exclusive h =
    let (_, s₁, saved, h₁) =
      >>=-eq-ok (save_attempt (cancelled_with_order a)) (λ _. pure closes) s h in
    let rows =
      ap rows_of (outcome_state h₁)
      ∙ saved_rows integrity_error (cancelled_with_order a) s s₁ saved in
    IsShut-anyhow c status i s'.payments.attempts (
      ap (any (is_open_for i)) rows
      ∙ shut_rows i a s.payments.attempts
          (find_free (is_open_for i) s.payments.attempts a found exclusive)
          (find_passes (is_open_for i) s.payments.attempts a found))
close_unsent-IsShut false a status i s c s' found exclusive h =
    subst (λ x. IsShut x status i s'.payments.attempts) (outcome_value h) tt

pub close_attempt-IsShut :
    (a : Option PaymentAttempt) (status : IntentStatus) (i : ℕ) (s : Database) (c : Closure)
    (s' : Database)
    → find (is_open_for i) s.payments.attempts ≡ a
    → IsExclusive s.payments.attempts
    → close_attempt a status s ≡ ok c s'
    → IsShut c status i s'.payments.attempts
close_attempt-IsShut none status i s c s' found exclusive h =
    IsShut-anyhow c status i s'.payments.attempts (
      ap (λ t. any (is_open_for i) (rows_of t)) (outcome_state h)
      ∙ none_open i s.payments.attempts found)
close_attempt-IsShut (some a) status i s c s' found exclusive h =
    close_unsent-IsShut (is_unsent a) a status i s c s' found exclusive h

-- What the decision leaves alone is an intent that was settled.
abbrev pub IsDue : Closure → IntentStatus → Type 0
IsDue stays status = is_settled status ≡ true
IsDue _ status = Unit

closure-IsDue :
    (is_open_one : Bool) (status : IntentStatus)
    → IsDue (closure_of_intent is_open_one status) status
closure-IsDue true status = tt
closure-IsDue false IntentStatus.pending = tt
closure-IsDue false IntentStatus.awaiting_payment = tt
closure-IsDue false IntentStatus.processing = tt
closure-IsDue false IntentStatus.paid = tt
closure-IsDue false IntentStatus.cancelled = refl
closure-IsDue false IntentStatus.expired = refl
closure-IsDue false IntentStatus.requires_attention = refl

pub close_attempt-IsDue :
    (a : Option PaymentAttempt) (status : IntentStatus)
    → Returns (λ c. IsDue c status) (close_attempt a status)
close_attempt-IsDue none status = Returns-pure _ _ (closure-IsDue false status)
close_attempt-IsDue (some a) status = go (is_unsent a)
  where
    go : (unsent : Bool) → Returns (λ c. IsDue c status) (close_unsent unsent a status)
    go true =
        Returns-then _ (save_attempt (cancelled_with_order a)) (pure closes)
          (Returns-pure _ closes tt)
    go false = Returns-pure _ needs_attention tt

-- An intent after the event, with the attempts.
abbrev pub IsSettled : PaymentIntent → List PaymentAttempt → Type 0
IsSettled i rows =
    (is_settled i.status ≡ true)
    × ((i.status ≡ IntentStatus.requires_attention) ⊎ (any (is_open_for i.id) rows ≡ false))

pub IsSettled-of :
    (c : Closure) (j i : PaymentIntent) (rows : List PaymentAttempt)
    → IsDue c j.status
    → IsClosedBy c j i
    → IsShut c j.status j.id rows
    → IsSettled i rows
IsSettled-of stays j i rows due closed shut =
    subst (λ x. IsSettled x rows) (sym closed) (due, inr shut)
IsSettled-of closes j i rows due (status, id) shut =
    (ap is_settled status, inr (ap (λ x. any (is_open_for x) rows) id ∙ shut))
IsSettled-of needs_attention j i rows due (status, id) shut = (ap is_settled status, inl status)
