-- ===== src/Payments/Soundness/Answering.antt =====
-- The services that apply what a provider confirms keep the tables sound, and so do those that
-- cancel a checkout.
use vidalys_flow.Common.{ℕ, Bool, true, false, Option, none, some, List, [], ◌∷◌}
use vidalys_flow.Text.{Text}
use vidalys_flow.Organizations.{User}
use vidalys_flow.Idempotency.Invariant.{once-Preserves}
use vidalys_flow.Transaction.Preserves.{Preserves, Preserves-then, preserves_rules}
use vidalys_flow.Payments.Tables.{
  Provider, ProviderAccount, Source, PaymentIntent, PaymentAttempt, WebhookReceipt,
}
use vidalys_flow.Payments.Errors.{PaymentService}
use vidalys_flow.Payments.Providers.{ProviderResource}
use vidalys_flow.Payments.Resolution.{
  Decision, Verdict, unknown_status, attention_locked, unchanged, changed, verdict,
}
use vidalys_flow.Payments.Services.{PaymentEvent, payment_receipts}
use vidalys_flow.Payments.Services.Checkout.{PaymentRequest}
use vidalys_flow.Payments.Services.Providing.{
  canonical_transition, act_on, apply_resource, announce, Notice, the_only, receive_resource,
  receive_unless_replayed, apply_verified_provider_resource, reconcile_verified_resource_work,
  reconcile_verified_resource,
}
use vidalys_flow.Payments.Services.Cancellation.{
  cancellation_outbox, close_or_ask, request_hosted_checkout_cancellation_work,
  request_hosted_checkout_cancellation, complete_if_closed, complete_found, complete_of,
  complete_cancellation_event_for_terminal_attempt, apply_verified_checkout_cancellation,
}
use vidalys_flow.Payments.Soundness.{IsValidIntent, IsSound}
use vidalys_flow.Payments.Soundness.Intents.{versioned-IsValidIntent, moved_intent-IsValidIntent}
use vidalys_flow.Payments.Soundness.Saves.{
  require_manager-IsSound, existing_intent-IsSound, existing_attempt-IsSound, audit-IsSound, saves,
}

canonical_transition-IsSound :
    (i : PaymentIntent) (a : PaymentAttempt) (d : Decision) (key : Text) (source : Source)
    → IsValidIntent i
    → Preserves IsSound (canonical_transition i a d key source)
unfolding canonical_transition
canonical_transition-IsSound i a d key source valid =
    search (saves, moved_intent-IsValidIntent) depth 30

act_on-IsSound :
    (v : Verdict) (i : PaymentIntent) (a : PaymentAttempt) (key : Text) (source : Source)
    → IsValidIntent i
    → Preserves IsSound (act_on v i a key source)
act_on-IsSound unknown_status i a key source valid = search saves
act_on-IsSound attention_locked i a key source valid = search saves
act_on-IsSound (unchanged why) i a key source valid = search saves
act_on-IsSound (changed d) i a key source valid =
    canonical_transition-IsSound i a d key source valid

apply_resource-IsSound :
    (provider : Provider) (i : PaymentIntent) (a : PaymentAttempt) (resource : ProviderResource)
    (key : Text) (source : Source) (order_cancelled : Bool)
    → IsValidIntent i
    → Preserves IsSound (apply_resource provider i a resource key source order_cancelled)
unfolding apply_resource
apply_resource-IsSound provider i a resource key source order_cancelled valid =
    act_on-IsSound (verdict provider i a resource source order_cancelled) i a key source valid

announce-IsSound :
    (b : Bool) (i : PaymentIntent) (actor : Option ℕ) (e : PaymentEvent) (key : Text)
    → Preserves IsSound (announce b i actor e key)
unfolding announce
announce-IsSound true i actor e key = search saves
announce-IsSound false i actor e key = search saves

the_only-IsSound : (rows : List PaymentAttempt) → Preserves IsSound (the_only rows)
the_only-IsSound [] = search saves
the_only-IsSound (a ∷ []) = search saves
the_only-IsSound (a ∷ b ∷ more) = search saves

ruleset answers = (apply_resource-IsSound, announce-IsSound, audit-IsSound, the_only-IsSound, saves)

receive_resource-IsSound :
    (account : ProviderAccount) (notice : Notice) (resource : ProviderResource) (key : Text)
    → Preserves IsSound (receive_resource account notice resource key)
unfolding receive_resource
receive_resource-IsSound account notice resource key = search answers depth 60

receive_unless_replayed-IsSound :
    (existing : Option WebhookReceipt) (m : PaymentService WebhookReceipt)
    → Preserves IsSound m
    → Preserves IsSound (receive_unless_replayed existing m)
receive_unless_replayed-IsSound none m h = h
receive_unless_replayed-IsSound (some w) m h = search saves

pub apply_verified_provider_resource-IsSound :
    (callback_digest : ℕ → Text → Text) (account : ProviderAccount) (notice : Notice)
    (resource : ProviderResource)
    → Preserves IsSound (apply_verified_provider_resource callback_digest account notice resource)
unfolding apply_verified_provider_resource
apply_verified_provider_resource-IsSound callback_digest account notice resource =
    search (receive_unless_replayed-IsSound, receive_resource-IsSound, saves) depth 40

reconcile_verified_resource_work-IsSound :
    (organization intent_id : ℕ) (actor : User) (expected_version : ℕ) (key : Text)
    (resource : ProviderResource)
    → Preserves IsSound (
        reconcile_verified_resource_work organization intent_id actor expected_version key resource)
unfolding reconcile_verified_resource_work
reconcile_verified_resource_work-IsSound organization intent_id actor expected_version key
      resource =
    search answers depth 60

pub reconcile_verified_resource-IsSound :
    (payload_hash : PaymentRequest → ℕ) (organization intent_id : ℕ) (actor : User)
    (expected_version : ℕ) (key : Text) (resource : ProviderResource)
    → Preserves IsSound (
        reconcile_verified_resource payload_hash organization intent_id actor expected_version key
          resource)
unfolding reconcile_verified_resource
reconcile_verified_resource-IsSound payload_hash organization intent_id actor expected_version key
      resource =
    Preserves-then IsSound _ _ (require_manager-IsSound actor organization) (
      once-Preserves payment_receipts _ IsSound (λ t s h. h) _ _ _ _ _ _
        (reconcile_verified_resource_work-IsSound organization intent_id actor expected_version key
          resource)
        existing_intent-IsSound)

cancellation_outbox-IsSound :
    (i : PaymentIntent) (a : PaymentAttempt) (key : Text)
    → Preserves IsSound (cancellation_outbox i a key)
unfolding cancellation_outbox
cancellation_outbox-IsSound i a key = search preserves_rules depth 20

close_or_ask-IsSound :
    (unsent : Bool) (i : PaymentIntent) (a : PaymentAttempt) (key : Text)
    → Preserves IsSound (close_or_ask unsent i a key)
close_or_ask-IsSound true i a key = search saves depth 20
close_or_ask-IsSound false i a key = search (cancellation_outbox-IsSound, saves) depth 20

request_hosted_checkout_cancellation_work-IsSound :
    (organization intent_id : ℕ) (actor : User) (expected_version : ℕ) (key : Text)
    → Preserves IsSound (
        request_hosted_checkout_cancellation_work organization intent_id actor expected_version key)
unfolding request_hosted_checkout_cancellation_work
request_hosted_checkout_cancellation_work-IsSound organization intent_id actor expected_version
      key =
    search (close_or_ask-IsSound, versioned-IsValidIntent, answers) depth 60

pub request_hosted_checkout_cancellation-IsSound :
    (payload_hash : PaymentRequest → ℕ) (organization intent_id : ℕ) (actor : User)
    (expected_version : ℕ) (key : Text)
    → Preserves IsSound (
        request_hosted_checkout_cancellation payload_hash organization intent_id actor
          expected_version key)
unfolding request_hosted_checkout_cancellation
request_hosted_checkout_cancellation-IsSound payload_hash organization intent_id actor
      expected_version key =
    Preserves-then IsSound _ _ (require_manager-IsSound actor organization) (
      once-Preserves payment_receipts _ IsSound (λ t s h. h) _ _ _ _ _ _
        (request_hosted_checkout_cancellation_work-IsSound organization intent_id actor
          expected_version key)
        existing_attempt-IsSound)

complete_if_closed-IsSound :
    (is_done is_closed : Bool) (a : PaymentAttempt)
    → Preserves IsSound (complete_if_closed is_done is_closed a)
complete_if_closed-IsSound true is_closed a = search saves
complete_if_closed-IsSound false false a = search saves
complete_if_closed-IsSound false true a = search saves depth 20

complete_found-IsSound : (a : Option PaymentAttempt) → Preserves IsSound (complete_found a)
complete_found-IsSound none = search saves
complete_found-IsSound (some a) = complete_if_closed-IsSound _ _ a

complete_of-IsSound :
    (attempt_id event_id : ℕ) (a : Option PaymentAttempt)
    → Preserves IsSound (complete_of attempt_id event_id a)
complete_of-IsSound attempt_id event_id none = search saves
complete_of-IsSound attempt_id event_id (some a) = search (complete_found-IsSound, saves) depth 20

pub complete_cancellation_event_for_terminal_attempt-IsSound :
    (attempt_id event_id : ℕ)
    → Preserves IsSound (complete_cancellation_event_for_terminal_attempt attempt_id event_id)
unfolding complete_cancellation_event_for_terminal_attempt
complete_cancellation_event_for_terminal_attempt-IsSound attempt_id event_id =
    search (complete_of-IsSound, saves) depth 20

pub apply_verified_checkout_cancellation-IsSound :
    (organization : ℕ) (a : PaymentAttempt) (resource : ProviderResource) (key : Text)
    (token : Option ℕ)
    → Preserves IsSound (apply_verified_checkout_cancellation organization a resource key token)
unfolding apply_verified_checkout_cancellation
apply_verified_checkout_cancellation-IsSound organization a resource key token =
    search answers depth 60
