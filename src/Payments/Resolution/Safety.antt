-- ===== src/Payments/Resolution/Safety.antt =====
-- Which changes a confirmed resource can make to a payment.
use vidalys_flow.Common.{
  ℕ, ◌≡◌, ◌⊎◌, inl, inr, refl, sym, ap, ◌∙◌, Bool, true, false, not, ◌&&◌, Option, none, some,
  ==_iff, Bool-cases, arith,
}
use mathlib.Core.Path.{subst}
use vidalys_flow.Text.{text_eq}
use vidalys_flow.Text.Laws.{text_eq→eq}
use vidalys_flow.Numeric.{ℤ, pos, negsuc}
use vidalys_flow.Payments.Tables.{
  Provider, IntentStatus, is_closed_unpaid, is_terminal_intent, is_attention, AttemptStatus, Source,
  PaymentIntent, PaymentAttempt, intent_rank, same_intent_status,
}
use vidalys_flow.Payments.Providers.{Target, to, to_failed, ProviderResource, map_provider_status}
use vidalys_flow.Payments.Resolution.{
  Decision, read_status, matches, same_amount, check_amount, check_attempt, terminal_attempt_target,
  conclude, verdict, unknown_status, changed, not_monotonic, may_advance, may_resolve, fits,
  changes, same_target,
}

-- A change that a resource makes to an intent of the status.
abbrev pub IsAdvance : IntentStatus → Source → Target → Type 0
IsAdvance status source target =
    (target ≡ to IntentStatus.requires_attention)
    ⊎ ((is_attention status ≡ true) × (may_resolve source ≡ true))
    ⊎ ((target ≡ to_failed) × (is_terminal_intent status ≡ false))
    ⊎ ((new : IntentStatus) × (target ≡ to new) × (may_advance status new ≡ true))

-- A conclusion that changes something: the intent is not waiting for attention, or the source may
-- resolve it, and the decision stands, or is turned into a matter of attention.
conclude_changed :
    (status : IntentStatus) (attempt : AttemptStatus) (source : Source) (d d' : Decision)
    → conclude status attempt source d ≡ changed d'
    → ((is_attention status && not (may_resolve source)) ≡ false)
      × (((fits status d.target ≡ true) × (changes status attempt d.target ≡ true) × (d' ≡ d))
          ⊎ (d' ≡ not_monotonic))
conclude_changed status attempt source d d' h =
    elim (Bool-cases (is_attention status && not (may_resolve source))) [
      | inl locked ↦ absurd (ground arith)
      | inr free ↦ elim (Bool-cases (fits status d.target)) [
        | inl fit ↦ elim (Bool-cases (changes status attempt d.target)) [
          | inl change ↦ (free, inl (fit, change, ground arith))
          | inr same ↦ absurd (ground arith)
        ]
        | inr unfit ↦ (free, inr (ground arith))
      ]
    ]

rank_injective : (a b : IntentStatus) → intent_rank a ≡ intent_rank b → a ≡ b
rank_injective a b h = ground arith

same_intent_status→eq : (a b : IntentStatus) → same_intent_status a b ≡ true → a ≡ b
same_intent_status→eq a b h = rank_injective a b ((==_iff (intent_rank a) (intent_rank b)).0 h)

same_target→eq : (a b : Target) → same_target a b ≡ true → a ≡ b
same_target→eq (to a) (to b) h = ap to (same_intent_status→eq a b h)
same_target→eq (to a) to_failed h = cc
same_target→eq to_failed (to b) h = cc
same_target→eq to_failed to_failed h = refl

-- What passes the check of a closed attempt is the result of the attempt.
check_closed :
    (closed target : Target) (d : Decision)
    → (check_attempt (some closed) d).target ≡ target
    → (target ≡ closed) ⊎ (target ≡ to IntentStatus.requires_attention)
check_closed closed target d h = elim (Bool-cases (same_target d.target closed)) [
  | inl same ↦ inl (ground (arith, same_target→eq d.target closed same))
  | inr other ↦ inr (ground arith)
]

-- A payment that remains through the check of the attempt was one before it, and the attempt was
-- not closed in another way.
check_attempt_paid :
    (status : AttemptStatus) (d : Decision)
    → (check_attempt (terminal_attempt_target status) d).target ≡ to IntentStatus.paid
    → (is_closed_unpaid status ≡ false) × (d.target ≡ to IntentStatus.paid)
check_attempt_paid AttemptStatus.requested d h = (refl, h)
check_attempt_paid AttemptStatus.active d h = (refl, h)
check_attempt_paid AttemptStatus.processing d h = (refl, h)
check_attempt_paid AttemptStatus.paid d h =
    elim (Bool-cases (same_target d.target (to IntentStatus.paid))) [
      | inl same ↦ (refl, same_target→eq d.target (to IntentStatus.paid) same)
      | inr other ↦ absurd (ground arith)
    ]
check_attempt_paid AttemptStatus.failed d h =
    elim (check_closed to_failed (to IntentStatus.paid) d h) [ inl e ↦ cc | inr e ↦ cc ]
check_attempt_paid AttemptStatus.cancelled d h =
    elim (check_closed (to IntentStatus.cancelled) (to IntentStatus.paid) d h) [
      | inl e ↦ cc
      | inr e ↦ cc
    ]
check_attempt_paid AttemptStatus.expired d h =
    elim (check_closed (to IntentStatus.expired) (to IntentStatus.paid) d h) [
      | inl e ↦ cc
      | inr e ↦ cc
    ]

check_amount_paid :
    (agrees order_cancelled : Bool) (d : Decision)
    → (check_amount agrees order_cancelled d).target ≡ to IntentStatus.paid
    → (agrees ≡ true) × (order_cancelled ≡ false) × (d.target ≡ to IntentStatus.paid)
check_amount_paid false order_cancelled d h = cc
check_amount_paid true false d h = (refl, refl, h)
check_amount_paid true true d h = elim (Bool-cases (same_target d.target (to IntentStatus.paid))) [
  | inl same ↦ absurd (ground arith)
  | inr other ↦
      let same : d.target ≡ to IntentStatus.paid = ground arith in
      absurd (cc (ap (λ t. same_target t (to IntentStatus.paid)) same))
]

-- The reading of a resource that leads to a change.
verdict_read :
    (provider : Provider) (intent : PaymentIntent) (attempt : PaymentAttempt)
    (resource : ProviderResource) (source : Source) (order_cancelled : Bool) (d' : Decision)
    → verdict provider intent attempt resource source order_cancelled ≡ changed d'
    → (d : Decision) × (read_status source (map_provider_status provider resource.status) ≡ some d)
      × (conclude intent.status attempt.status source (
            check_attempt
              (terminal_attempt_target attempt.status)
              (check_amount (matches intent resource) order_cancelled d))
          ≡ changed d')
unfolding verdict
verdict_read provider intent attempt resource source order_cancelled d' =
    go (read_status source (map_provider_status provider resource.status))
  where
    go :
        (o : Option Decision)
        → (elim o [
          | none ↦ unknown_status
          | some d ↦ conclude intent.status attempt.status source (
              check_attempt
                (terminal_attempt_target attempt.status)
                (check_amount (matches intent resource) order_cancelled d))
        ])
          ≡ changed d'
        → (d : Decision) × (o ≡ some d)
          × (conclude intent.status attempt.status source (
                check_attempt
                  (terminal_attempt_target attempt.status)
                  (check_amount (matches intent resource) order_cancelled d))
              ≡ changed d')
    go none h = cc
    go (some d) h = (d, refl, h)

read_status_paid :
    (source : Source) (o : Option Target) (d : Decision)
    → read_status source o ≡ some d
    → d.target ≡ to IntentStatus.paid
    → o ≡ some (to IntentStatus.paid)
read_status_paid source (some t) d h e = ground arith
read_status_paid Source.cancellation_worker none d h e = absurd (ground arith)
read_status_paid Source.command none d h e = cc
read_status_paid Source.provider_worker none d h e = cc
read_status_paid Source.provider_callback none d h e = cc
read_status_paid Source.reconciliation none d h e = cc
read_status_paid Source.order_event none d h e = cc

same_amount→eq : (z : ℤ) (n : ℕ) → same_amount z n ≡ true → z ≡ pos n
same_amount→eq (pos m) n h = ap pos ((==_iff m n).0 h)
same_amount→eq (negsuc m) n h = cc

fits_paid :
    (status : IntentStatus) (attempt : AttemptStatus)
    → fits status (to IntentStatus.paid) ≡ true
    → changes status attempt (to IntentStatus.paid) ≡ true
    → is_terminal_intent status ≡ false
fits_paid status attempt f c = ground arith

and_split : (a b : Bool) → (a && b) ≡ true → (a ≡ true) × (b ≡ true)
and_split true b h = (refl, h)
and_split false b h = cc

-- A confirmed resource makes a payment paid only if its amount and currency are those of the
-- intent, the provider reports it as paid, the order is not known to be cancelled, the attempt was
-- not closed in another way, and the intent was not in a final state.
pub verdict_paid :
    (provider : Provider) (intent : PaymentIntent) (attempt : PaymentAttempt)
    (resource : ProviderResource) (source : Source) (order_cancelled : Bool) (d : Decision)
    → verdict provider intent attempt resource source order_cancelled ≡ changed d
    → d.target ≡ to IntentStatus.paid
    → (resource.amount_minor ≡ pos intent.amount)
      × (resource.currency ≡ intent.currency)
      × (map_provider_status provider resource.status ≡ some (to IntentStatus.paid))
      × (order_cancelled ≡ false)
      × (is_closed_unpaid attempt.status ≡ false)
      × (is_terminal_intent intent.status ≡ false)
verdict_paid provider intent attempt resource source order_cancelled d' h paid =
    let (d, read, concluded) =
      verdict_read provider intent attempt resource source order_cancelled d' h in
    let d₁ = check_amount (matches intent resource) order_cancelled d in
    let d₂ = check_attempt (terminal_attempt_target attempt.status) d₁ in
    let (_, how) = conclude_changed intent.status attempt.status source d₂ d' concluded in
    elim how [
      | inr unfit ↦ absurd (cc (ap (λ (x : Decision). x.target) unfit))
      | inl (fit, change, same) ↦
          let target₂ : d₂.target ≡ to IntentStatus.paid =
            sym (ap (λ (x : Decision). x.target) same) ∙ paid in
          let (attempt_open, target₁) = check_attempt_paid attempt.status d₁ target₂ in
          let (agrees, free, target) =
            check_amount_paid (matches intent resource) order_cancelled d target₁ in
          let (currency, amount) =
            and_split (text_eq resource.currency intent.currency)
              (same_amount resource.amount_minor intent.amount) agrees in
          (
            same_amount→eq resource.amount_minor intent.amount amount,
            text_eq→eq resource.currency intent.currency currency,
            read_status_paid source (map_provider_status provider resource.status) d read target,
            free,
            attempt_open,
            fits_paid intent.status attempt.status (ap (fits intent.status) (sym target₂) ∙ fit)
                (ap (changes intent.status attempt.status) (sym target₂) ∙ change),
          )
    ]

IsAdvance-of :
    (status : IntentStatus) (attempt : AttemptStatus) (source : Source) (target : Target)
    → (is_attention status && not (may_resolve source)) ≡ false
    → fits status target ≡ true
    → changes status attempt target ≡ true
    → IsAdvance status source target
IsAdvance-of status attempt source to_failed free fit change = inr (inr (inl (refl, ground arith)))
IsAdvance-of status attempt source (to new) free fit change =
    elim (Bool-cases (is_attention status)) [
      | inl waits ↦ inr (inl (waits, ground arith))
      | inr none_due ↦ inr (inr (inr (new, refl, ground arith)))
    ]

-- Every change that a confirmed resource makes to an intent follows the table of transitions, or
-- opens it again after a failure, or asks for attention, unless the intent is under attention and
-- the source may resolve that. So a paid, cancelled or expired intent can only come under attention.
pub verdict_advances :
    (provider : Provider) (intent : PaymentIntent) (attempt : PaymentAttempt)
    (resource : ProviderResource) (source : Source) (order_cancelled : Bool) (d : Decision)
    → verdict provider intent attempt resource source order_cancelled ≡ changed d
    → IsAdvance intent.status source d.target
verdict_advances provider intent attempt resource source order_cancelled d' h =
    let (d, read, concluded) =
      verdict_read provider intent attempt resource source order_cancelled d' h in
    let d₂ =
      check_attempt (terminal_attempt_target attempt.status)
        (check_amount (matches intent resource) order_cancelled d) in
    let (free, how) = conclude_changed intent.status attempt.status source d₂ d' concluded in
    elim how [
      | inr unfit ↦ inl (ap (λ (x : Decision). x.target) unfit)
      | inl (fit, change, same) ↦
          subst (λ (x : Decision). IsAdvance intent.status source x.target) (sym same)
            (IsAdvance-of intent.status attempt.status source d₂.target free fit change)
    ]
