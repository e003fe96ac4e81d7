-- ===== src/Idempotency.antt =====
-- The command receipts of apps/orders/idempotency.py, apps/fulfillment/idempotency.py,
-- apps/payments/idempotency.py and apps/messaging/idempotency.py, which hold the same code over
-- four tables. A receipt is found by organization, operation and stripped key; `request_hash` is
-- the digest of the request, which is computed outside.
pub mod Laws
pub mod Command
pub mod Invariant
use vidalys_flow.Common.{
  ℕ, Bool, true, false, ◌&&◌, ◌||◌, Option, none, some, List, [], ◌∷◌, ◌++◌, map, length, find, ltb,
  ◌==◌, if◌then◌else◌,
}
use vidalys_flow.Text.{Text, strip, is_empty, text_eq}

-- `R` is what a completed receipt points to.
pub record Receipt (R : Type 0) : Type 0 where
  pub organization : ℕ
  pub operation : Text
  pub key : Text
  pub request_hash : ℕ
  pub result : Option R
  pub completed : Bool

-- The three messages of `IdempotencyConflict`.
pub data Conflict : Type 0 where
  invalid_key other_payload not_completed : Conflict

-- What `claim_command` returns or raises: a receipt with `False`, one with `True`, or a conflict.
pub data Claim (R : Type 0) : Type 0 where
  replayed fresh : Receipt R → Claim R
  conflict : Conflict → Claim R

-- `not key or len(key) > 64`
abbrev pub is_bad_key : Text → Bool
is_bad_key key = is_empty key || ltb 64 (length key)

module _ {R : Type 0} where
  abbrev pub is_for : ℕ → Text → Text → Receipt R → Bool
  is_for organization operation key r =
      r.organization == organization && text_eq r.operation operation && text_eq r.key key

  abbrev pub lookup_receipt : ℕ → Text → Text → List (Receipt R) → Option (Receipt R)
  lookup_receipt organization operation key = find (is_for organization operation key)

  -- `_validate_existing`
  abbrev pub validate_existing : ℕ → Receipt R → Claim R
  validate_existing digest existing =
      if existing.request_hash == digest
      then if existing.completed then replayed existing else conflict not_completed
      else conflict other_payload

  abbrev pub new_receipt : ℕ → Text → Text → ℕ → Receipt R
  new_receipt organization operation key digest = record {
    organization = organization;
    operation = operation;
    key = key;
    request_hash = digest;
    result = none;
    completed = false;
  }

  -- The insertion of a new receipt, after other transactions have committed the rows `racing`
  -- between the query and the insertion: the unique constraint turns it into a second query.
  unfoldable pub insert_receipt :
      List (Receipt R) → ℕ → Text → Text → ℕ → List (Receipt R) → Claim R × List (Receipt R)
  insert_receipt racing organization operation key digest rows =
      elim (lookup_receipt organization operation key racing) [
        | some existing ↦ (validate_existing digest existing, racing ++ rows)
        | none ↦
            let receipt = new_receipt organization operation key digest in
            (fresh receipt, receipt ∷ racing ++ rows)
      ]

  -- `claim_command`, with the table that it leaves.
  unfoldable pub claim_command :
      List (Receipt R) → ℕ → Text → Text → ℕ → List (Receipt R) → Claim R × List (Receipt R)
  claim_command racing organization operation idempotency_key digest rows =
      let key = strip idempotency_key in
      if is_bad_key key
      then (conflict invalid_key, rows)
      else elim (lookup_receipt organization operation key rows) [
        | some existing ↦ (validate_existing digest existing, rows)
        | none ↦ insert_receipt racing organization operation key digest rows
      ]

  -- `complete_command`: the row of the receipt gets its result.
  unfoldable pub complete_command : Receipt R → R → List (Receipt R) → List (Receipt R)
  complete_command receipt value [] = []
  complete_command receipt value (r ∷ rows) =
      elim (is_for receipt.organization receipt.operation receipt.key r) [
        | true ↦ record r { result = some value; completed = true } ∷ rows
        | false ↦ r ∷ complete_command receipt value rows
      ]
