-- ===== src/Payments/Soundness.antt =====
-- When the tables of payments are sound: the constraints of apps/payments/models.py on the rows of
-- intents and attempts, as predicates on the tables.
pub mod Rows
pub mod Intents
pub mod Saves
pub mod Opening
pub mod Sending
pub mod Answering
pub mod Closing
use vidalys_flow.Common.{ℕ, ◌<◌, ◌≤◌, ◌≡◌, Bool, true, false, Option, none, some, List, All, any}
use vidalys_flow.Text.{Text, codes}
use vidalys_flow.Database.{Database}
use vidalys_flow.Payments.Tables.{
  IntentStatus, is_attention, is_reason, PaymentIntent, PaymentAttempt,
}
use vidalys_flow.Payments.Services.{is_some, conflicts, is_valid_attempt}

-- A paid, cancelled or expired intent has the time of it.
abbrev pub is_stamped : IntentStatus → PaymentIntent → Bool
is_stamped IntentStatus.paid i = is_some i.paid_at
is_stamped IntentStatus.cancelled i = is_some i.cancelled_at
is_stamped IntentStatus.expired i = is_some i.expired_at
is_stamped _ i = true

-- The check constraints of an intent.
pub record IsValidIntent (i : PaymentIntent) : Type 0 where
  pub currency_brl : i.currency ≡ codes "BRL"
  pub amount_positive : 0 < i.amount
  pub version_positive : 1 ≤ i.version
  pub timestamp : is_stamped i.status i ≡ true
  pub attention : is_attention i.status ≡ is_reason i.attention_code

-- No two attempts conflict: an intent has at most one open attempt, and a resource of an account at
-- most one attempt.
abbrev pub IsExclusive : List PaymentAttempt → Type 0
IsExclusive rows = All (λ a. any (conflicts a) rows ≡ false) rows

abbrev pub IsValidAttempt : PaymentAttempt → Type 0
IsValidAttempt a = is_valid_attempt a ≡ true

abbrev pub IsSound : Database → Type 0
IsSound s =
    All IsValidIntent s.payments.intents
    × All IsValidAttempt s.payments.attempts
    × IsExclusive s.payments.attempts
