-- ===== src/Idempotency/Invariant.antt =====
-- Invariants of the commands: the skeleton keeps what the work of a command keeps.
use vidalys_flow.Common.{ℕ, sym, inl, inr, Bool, true, false, List}
use mathlib.Core.Path.{subst}
use vidalys_flow.Text.{Text}
use vidalys_flow.Transaction.{Service, pure}
use vidalys_flow.Transaction.Preserves.{
  Preserves, Preserves-pure, Preserves-bind, Preserves-then, Preserves-modify,
}
use vidalys_flow.Idempotency.{Receipt, Conflict}
use vidalys_flow.Idempotency.Command.{ReceiptTable, claim, claim_cases, complete, dispatch, once}

module _ {S E R : Type 0} (table : ReceiptTable S R) (refuse : Conflict → E) (I : S → Type 0)
    (blind : (t : List (Receipt R)) (s : S) → I s → I (table.store t s)) where
  claim-Preserves :
      (organization : ℕ) (operation key : Text) (digest : ℕ)
      → Preserves I (claim table refuse organization operation key digest)
  claim-Preserves organization operation key digest = record {
    at = λ s a s' i h. elim (claim_cases table refuse organization operation key digest s h) [
      | inl (_, rows, _, e) ↦ subst I (sym e) (blind rows s i)
      | inr (_, e) ↦ subst I (sym e) i
    ];
  }

  dispatch-Preserves :
      {A : Type 0} (body : Service S E (A × R)) (existing : Receipt R → Service S E A)
      → Preserves I body
      → ((r : Receipt R) → Preserves I (existing r))
      → (c : Receipt R × Bool) → Preserves I (dispatch table refuse body existing c)
  dispatch-Preserves body existing hb he (r, false) = he r
  dispatch-Preserves body existing hb he (r, true) = Preserves-bind I body _ hb λ worked.
      Preserves-then I (complete table refuse r worked.1) (pure worked.0)
        (Preserves-modify I _ λ s i. blind _ s i) (Preserves-pure I worked.0)

  pub once-Preserves :
      {A : Type 0} (organization : ℕ) (operation key : Text) (digest : ℕ)
      (body : Service S E (A × R)) (existing : Receipt R → Service S E A)
      → Preserves I body
      → ((r : Receipt R) → Preserves I (existing r))
      → Preserves I (once table refuse organization operation key digest body existing)
  unfolding once
  once-Preserves organization operation key digest body existing hb he =
      Preserves-bind I _ _ (claim-Preserves organization operation key digest)
        (dispatch-Preserves body existing hb he)
