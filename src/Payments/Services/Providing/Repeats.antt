-- ===== src/Payments/Services/Providing/Repeats.antt =====
-- A change under a key that the history of the intent has already.
use vidalys_flow.Common.{
  ℕ, ◌≡◌, refl, ap, ◌∙◌, ◌⊎◌, inl, inr, Bool, true, false, ◌&&◌, none, some, Option, List, [], ◌∷◌,
  ◌++◌, any, any-append, sym, arith, ◌==◌,
}
use vidalys_flow.Text.{Text, text_eq}
use vidalys_flow.Transaction.{
  ok, raised, Outcome, ◌>>=◌, ◌>>◌, unless, raise_if, raise_if-bind, >>=-eq-ok, outcome_state,
  outcome_value,
}
use vidalys_flow.Database.{Database}
use vidalys_flow.Payments.Tables.{
  Provider, IntentStatus, Source, Reason, PaymentIntent, PaymentAttempt, PaymentStatusHistory,
}
use vidalys_flow.Payments.Errors.{PaymentError, PaymentService, integrity_error}
use vidalys_flow.Payments.Providers.{ProviderResource}
use vidalys_flow.Payments.Resolution.{
  Decision, Verdict, unknown_status, attention_locked, unchanged, changed, verdict, stamped,
  intent_status_of, moved_intent, moved_attempt,
}
use vidalys_flow.Payments.Services.{
  save_intent, save_attempt_or, is_valid_attempt, conflicts, history,
}
use vidalys_flow.Payments.Services.Providing.{Applied, canonical_transition, act_on, apply_resource}

-- Whether the history has a row of the intent under the key.
abbrev pub has_history : PaymentIntent → Text → Database → Bool
has_history i key s = any (λ h. h.intent == i.id && text_eq h.command_id key) s.payments.history

-- A save of an attempt returns, and leaves the history alone, or raises an integrity error.
abbrev IsSaved : Database → Outcome Database PaymentError (Unit {0}) → Type 0
IsSaved s o =
    (o ≡ raised integrity_error)
    ⊎ ((t : Database) × (o ≡ ok tt t) × (t.payments.history ≡ s.payments.history))

unless-IsSaved :
    (b : Bool) (k : PaymentService (Unit {0})) (s : Database)
    → IsSaved s (k s)
    → IsSaved s ((unless b integrity_error >> k) s)
unless-IsSaved true k s h = h
unless-IsSaved false k s h = inl refl

raise_if-IsSaved :
    (b : Bool) (k : PaymentService (Unit {0})) (s : Database)
    → IsSaved s (k s)
    → IsSaved s ((raise_if b integrity_error >> k) s)
raise_if-IsSaved true k s h = inl refl
raise_if-IsSaved false k s h = h

save-IsSaved : (a : PaymentAttempt) (s : Database) → IsSaved s (save_attempt_or integrity_error a s)
unfolding save_attempt_or
save-IsSaved a s =
    unless-IsSaved (is_valid_attempt a) _ s
      (raise_if-IsSaved (any (conflicts a) s.payments.attempts) _ s (inr (_, refl, refl)))

>>-raises :
    {A B : Type 0} (m : PaymentService A) (k : PaymentService B) (s : Database) (e : PaymentError)
    → m s ≡ raised e
    → (m >> k) s ≡ raised e
>>-raises m k s e h = rw (h, ◌>>◌, ◌>>=◌) refl

after_save :
    {A : Type 0} (a : PaymentAttempt) (k : PaymentService A) (s : Database)
    → ((t : Database) → t.payments.history ≡ s.payments.history → k t ≡ raised integrity_error)
    → (save_attempt_or integrity_error a >> k) s ≡ raised integrity_error
after_save a k s h = elim (save-IsSaved a s) [
  | inl e ↦ >>-raises (save_attempt_or integrity_error a) k s integrity_error e
  | inr (t, e, same) ↦ rw (e, ◌>>◌, ◌>>=◌) (h t same)
]

-- A history row under a key that the intent has already.
history_raises :
    (i j : PaymentIntent) (from_status : IntentStatus) (key : Text) (source : Source) (why : Reason)
    (t : Database)
    → j.id ≡ i.id
    → has_history i key t ≡ true
    → history j (some from_status) none key source why t ≡ raised integrity_error
unfolding history
history_raises i j from_status key source why t same h =
    let found : has_history j key t ≡ true =
      ap (λ x. any (λ r. r.intent == x && text_eq r.command_id key) t.payments.history) same ∙ h in
    rw found refl

stamped_id :
    (status : IntentStatus) (now : ℕ) (i : PaymentIntent) → (stamped status now i).id ≡ i.id
stamped_id IntentStatus.pending now i = refl
stamped_id IntentStatus.awaiting_payment now i = refl
stamped_id IntentStatus.processing now i = refl
stamped_id IntentStatus.paid now i = refl
stamped_id IntentStatus.cancelled now i = refl
stamped_id IntentStatus.expired now i = refl
stamped_id IntentStatus.requires_attention now i = refl

transition_raises :
    (i : PaymentIntent) (a : PaymentAttempt) (d : Decision) (key : Text) (source : Source)
    (s : Database)
    → has_history i key s ≡ true
    → canonical_transition i a d key source s ≡ raised integrity_error
unfolding canonical_transition save_intent
transition_raises i a d key source s h =
    let j = moved_intent s.journal.now d i in
    after_save (moved_attempt d a) _ _ λ t same.
      >>-raises (history j (some i.status) none key source d.reason) _ t integrity_error (
        history_raises i j i.status key source d.reason t
          (stamped_id (intent_status_of d.target) s.journal.now _)
          (ap (any (λ r. r.intent == i.id && text_eq r.command_id key)) same ∙ h))

text_eq_refl : (t : Text) → text_eq t t ≡ true
text_eq_refl [] = refl
text_eq_refl (c ∷ cs) = ground (arith, text_eq_refl cs)

history_recorded :
    (j : PaymentIntent) (from_status : Option IntentStatus) (key : Text) (source : Source)
    (why : Reason) (t : Database) {u : Unit {0}} {t' : Database}
    → history j from_status none key source why t ≡ ok u t'
    → has_history j key t' ≡ true
unfolding history
history_recorded j from_status key source why t h =
    let (_, h₁) =
      raise_if-bind (any (λ r. r.intent == j.id && text_eq r.command_id key) t.payments.history)
        integrity_error _ t h in
    rw (outcome_state h₁, any, text_eq_refl key) (ground arith)

transition_recorded :
    (i : PaymentIntent) (a : PaymentAttempt) (d : Decision) (key : Text) (source : Source)
    (s : Database) {r : Applied} {s' : Database}
    → canonical_transition i a d key source s ≡ ok r s'
    → has_history i key s' ≡ true
unfolding canonical_transition
transition_recorded i a d key source s h =
    let j = moved_intent s.journal.now d i in
    let (_, s₁, _, h₁) = >>=-eq-ok (save_intent j) _ s h in
    let (_, s₂, _, h₂) = >>=-eq-ok (save_attempt_or integrity_error (moved_attempt d a)) _ s₁ h₁ in
    let (_, s₃, written, h₃) =
      >>=-eq-ok (history j (some i.status) none key source d.reason) _ s₂ h₂ in
    let recorded = history_recorded j (some i.status) key source d.reason s₂ written in
    ap (λ t. has_history i key t) (outcome_state h₃)
    ∙ sym (
        ap (λ x. any (λ r. r.intent == x && text_eq r.command_id key) s₃.payments.history)
          (stamped_id (intent_status_of d.target) s.journal.now _))
    ∙ recorded

-- What the verdict has made of an intent that was changed.
changed_recorded :
    (v : Verdict) (i : PaymentIntent) (a : PaymentAttempt) (key : Text) (source : Source)
    (s : Database) {r : Applied} {s' : Database}
    → act_on v i a key source s ≡ ok r s'
    → r.is_changed ≡ true
    → has_history i key s' ≡ true
changed_recorded unknown_status i a key source s h moved = cc
changed_recorded attention_locked i a key source s h moved =
    absurd (cc (ap (λ (x : Applied). x.is_changed) (outcome_value h), moved))
changed_recorded (unchanged why) i a key source s h moved =
    absurd (cc (ap (λ (x : Applied). x.is_changed) (outcome_value h), moved))
changed_recorded (changed d) i a key source s h moved = transition_recorded i a d key source s h

-- What the verdict makes of an intent whose history has the command.
abbrev IsLeft : PaymentIntent → PaymentAttempt → Database → Applied → Database → Type 0
IsLeft i a s r s' = (r.is_changed ≡ false) × (r.intent ≡ i) × (r.attempt ≡ a) × (s' ≡ s)

known-IsLeft :
    (v : Verdict) (i : PaymentIntent) (a : PaymentAttempt) (key : Text) (source : Source)
    (s : Database) {r : Applied} {s' : Database}
    → has_history i key s ≡ true
    → act_on v i a key source s ≡ ok r s'
    → IsLeft i a s r s'
known-IsLeft unknown_status i a key source s known h = cc
known-IsLeft attention_locked i a key source s known h =
    let same = sym (outcome_value h) in
    (
      ap (λ (x : Applied). x.is_changed) same,
      ap (λ (x : Applied). x.intent) same,
      ap (λ (x : Applied). x.attempt) same,
      outcome_state h,
    )
known-IsLeft (unchanged why) i a key source s known h =
    let same = sym (outcome_value h) in
    (
      ap (λ (x : Applied). x.is_changed) same,
      ap (λ (x : Applied). x.intent) same,
      ap (λ (x : Applied). x.attempt) same,
      outcome_state h,
    )
known-IsLeft (changed d) i a key source s known h =
    absurd (cc (transition_raises i a d key source s known, h))

-- A command moves an intent at most once. Where applying a resource to an intent under a key has
-- changed it, applying any resource under the same key to an intent of the same identifier, from
-- any source and at any later state whose history continues that of the first run, changes nothing
-- if it returns: it reports no change, and gives back the intent, the attempt and the database as
-- they were.
pub apply_resource_once :
    (provider provider' : Provider) (i i' : PaymentIntent) (a a' : PaymentAttempt)
    (resource resource' : ProviderResource) (key : Text) (source source' : Source)
    (order_cancelled order_cancelled' : Bool) (s : Database) (first : Applied) (s₁ t : Database)
    (later : List PaymentStatusHistory) (second : Applied) (t₁ : Database)
    → apply_resource provider i a resource key source order_cancelled s ≡ ok first s₁
    → first.is_changed ≡ true
    → t.payments.history ≡ later ++ s₁.payments.history
    → i'.id ≡ i.id
    → apply_resource provider' i' a' resource' key source' order_cancelled' t ≡ ok second t₁
    → (second.is_changed ≡ false) × (second.intent ≡ i') × (second.attempt ≡ a') × (t₁ ≡ t)
unfolding apply_resource
apply_resource_once provider provider' i i' a a' resource resource' key source source'
      order_cancelled order_cancelled' s first s₁ t later second t₁ h moved continues same again =
    let known : has_history i key s₁ ≡ true =
      changed_recorded (verdict provider i a resource source order_cancelled) i a key source s h
        moved in
    let test = λ (r : PaymentStatusHistory). r.intent == i.id && text_eq r.command_id key in
    let still : has_history i' key t ≡ true =
      ap (λ x. any (λ r. r.intent == x && text_eq r.command_id key) t.payments.history) same
      ∙ ap (any test) continues
      ∙ any-append test later s₁.payments.history known in
    known-IsLeft (verdict provider' i' a' resource' source' order_cancelled') i' a' key source' t
      still again
