-- ===== src/Idempotency/Command.antt =====
-- The skeleton that every command of the services has: claim the key, return the earlier result of
-- a claim that is not new, else do the work and complete the receipt.
use vidalys_flow.Common.{
  ℕ, ◌≡◌, refl, sym, ap, ◌∙◌, ◌⊎◌, inl, inr, Bool, true, false, some, List, [],
}
use mathlib.Core.Path.{subst}
use vidalys_flow.Text.{Text}
use vidalys_flow.Transaction.{
  ok, Service, ◌>>=◌, ◌>>◌, pure, raise, modify, >>=-eq-ok, >>=-ok, outcome_state, outcome_value,
}
use vidalys_flow.Transaction.Keeps.{Keeps, Keeps-pure, Keeps-bind, Keeps-then, Keeps-modify}
use vidalys_flow.Idempotency.{
  Receipt, Claim, replayed, fresh, conflict, Conflict, claim_command, complete_command,
}
use vidalys_flow.Idempotency.Laws.{claim_fresh, claim_again, claim_replayed, completed_with}

-- The table of receipts inside the database.
pub record ReceiptTable (S R : Type 0) : Type 0 where
  pub rows : S → List (Receipt R)
  pub store : List (Receipt R) → S → S
  pub rows-store : (t : List (Receipt R)) (s : S) → rows (store t s) ≡ t
  pub store-rows : (s : S) → store (rows s) s ≡ s
  pub store-store : (t u : List (Receipt R)) (s : S) → store u (store t s) ≡ store u s

module _ {S E R : Type 0} (table : ReceiptTable S R) (refuse : Conflict → E) where
  abbrev pub settle : Claim R → Service S E (Receipt R × Bool)
  settle (replayed receipt) = pure (receipt, false)
  settle (fresh receipt) = pure (receipt, true)
  settle (conflict c) = raise (refuse c)

  -- `claim_command` as a step of a service. Commands run one after the other here, so no other
  -- transaction commits a receipt between its query and its insertion.
  unfoldable pub claim : ℕ → Text → Text → ℕ → Service S E (Receipt R × Bool)
  claim organization operation key digest s =
      let (c, rows) = claim_command [] organization operation key digest (table.rows s) in
      settle c (table.store rows s)

  abbrev pub complete : Receipt R → R → Service S E (Unit {0})
  complete receipt value =
      modify (λ s. table.store (complete_command receipt value (table.rows s)) s)

  abbrev pub dispatch :
      {A : Type 0}
      → Service S E (A × R)
      → (Receipt R → Service S E A)
      → Receipt R × Bool
      → Service S E A
  dispatch body existing (receipt, true) = do
    worked ← body
    complete receipt worked.1
    pure worked.0
  dispatch body existing (receipt, false) = existing receipt

  unfoldable pub once :
      {A : Type 0}
      → ℕ
      → Text
      → Text
      → ℕ
      → Service S E (A × R)
      → (Receipt R → Service S E A)
      → Service S E A
  once organization operation key digest body existing =
      claim organization operation key digest >>= dispatch body existing

  -- How a claim that returns has ended.
  pub claim_cases :
      (organization : ℕ) (operation key : Text) (digest : ℕ) (s : S) {receipt : Receipt R}
      {is_new : Bool} {s' : S}
      → claim organization operation key digest s ≡ ok (receipt, is_new) s'
      → ((is_new ≡ true)
          × (rows' : List (Receipt R)) × (claim_command [] organization operation key digest
                (table.rows s)
              ≡ (fresh receipt, rows'))
          × (s' ≡ table.store rows' s))
        ⊎ ((is_new ≡ false) × (s' ≡ s))
  unfolding claim
  claim_cases organization operation key digest s {receipt} {is_new} {s'} =
      go (claim_command [] organization operation key digest (table.rows s)) refl
    where
      go :
          (c : Claim R × List (Receipt R))
          → claim_command [] organization operation key digest (table.rows s) ≡ c
          → settle c.0 (table.store c.1 s) ≡ ok (receipt, is_new) s'
          → ((is_new ≡ true)
              × (rows' : List (Receipt R)) × (claim_command [] organization operation key digest
                    (table.rows s)
                  ≡ (fresh receipt, rows'))
              × (s' ≡ table.store rows' s))
            ⊎ ((is_new ≡ false) × (s' ≡ s))
      go (replayed r, rows') e h =
          let same = claim_replayed organization operation key digest (table.rows s) e in
          inr (cc, outcome_state h ∙ rw same (table.store-rows s))
      go (fresh r, rows') e h =
          inl (cc, rows', e ∙ ap (λ x. (fresh x, rows')) (cc), outcome_state h)
      go (conflict c, rows') e h = cc

  claim-Keeps :
      {X : Type 0} (f : S → X)
      → ((t : List (Receipt R)) (s : S) → f (table.store t s) ≡ f s)
      → (organization : ℕ) (operation key : Text) (digest : ℕ)
      → Keeps f (claim organization operation key digest)
  claim-Keeps f blind organization operation key digest = record {
    at = λ s a s' h. elim (claim_cases organization operation key digest s h) [
      | inl (_, rows, _, e) ↦ ap f e ∙ blind rows s
      | inr (_, e) ↦ ap f e
    ];
  }

  dispatch-Keeps :
      {X A : Type 0} (f : S → X)
      → ((t : List (Receipt R)) (s : S) → f (table.store t s) ≡ f s)
      → (body : Service S E (A × R)) (existing : Receipt R → Service S E A) → Keeps f body
      → ((r : Receipt R) → Keeps f (existing r))
      → (c : Receipt R × Bool) → Keeps f (dispatch body existing c)
  dispatch-Keeps f blind body existing hb he (r, false) = he r
  dispatch-Keeps f blind body existing hb he (r, true) = Keeps-bind f body _ hb λ worked.
      Keeps-then f (complete r worked.1) (pure worked.0) (Keeps-modify f _ (λ s. blind _ s))
        (Keeps-pure f worked.0)

  -- A view that neither the work nor the table of receipts is part of.
  pub once-Keeps :
      {X A : Type 0} (f : S → X)
      → ((t : List (Receipt R)) (s : S) → f (table.store t s) ≡ f s)
      → (organization : ℕ) (operation key : Text) (digest : ℕ)
      → (body : Service S E (A × R)) (existing : Receipt R → Service S E A) → Keeps f body
      → ((r : Receipt R) → Keeps f (existing r))
      → Keeps f (once organization operation key digest body existing)
  unfolding once
  once-Keeps f blind organization operation key digest body existing hb he =
      Keeps-bind f _ _ (claim-Keeps f blind organization operation key digest)
        (dispatch-Keeps f blind body existing hb he)

  claim_of_replayed :
      (organization : ℕ) (operation key : Text) (digest : ℕ) (s : S) (receipt : Receipt R)
      → claim_command [] organization operation key digest (table.rows s)
        ≡ (replayed receipt, table.rows s)
      → claim organization operation key digest s ≡ ok (receipt, false) s
  unfolding claim
  claim_of_replayed organization operation key digest s receipt e =
      rw e (ap (λ x. ok (receipt, false) x) (table.store-rows s))

  -- A command that ran is replayed with its result, and changes nothing the second time: its work
  -- leaves the receipts alone, and the earlier result is found again and read only.
  pub once_again :
      {A : Type 0} (organization : ℕ) (operation key : Text) (digest : ℕ)
      (body : Service S E (A × R)) (existing : Receipt R → Service S E A)
      → ((s : S) (a : A) (v : R) (s' : S)
          → body s ≡ ok (a, v) s'
          → (table.rows s' ≡ table.rows s)
            × ((r : Receipt R) (t : List (Receipt R))
                → r.organization ≡ organization
                → r.result ≡ some v
                → existing r (table.store t s') ≡ ok a (table.store t s')))
      → ((r : Receipt R) (s : S) (a : A) (s' : S) → existing r s ≡ ok a s' → s' ≡ s)
      → (s : S) (a : A) (s' : S) → once organization operation key digest body existing s ≡ ok a s'
      → once organization operation key digest body existing s' ≡ ok a s'
  unfolding once
  once_again {A} organization operation key digest body existing keeps reads s a s' h =
      let ((receipt, is_new), s₁, claimed, rest) =
        >>=-eq-ok (claim organization operation key digest) (dispatch body existing) s h in
      go receipt is_new s₁ claimed rest
    where
      run : Service S E A
      run = claim organization operation key digest >>= dispatch body existing

      ran :
          (receipt : Receipt R) (rows' : List (Receipt R)) (s₁ s₂ : S) (v : R)
          → claim_command [] organization operation key digest (table.rows s)
            ≡ (fresh receipt, rows')
          → s₁ ≡ table.store rows' s
          → body s₁ ≡ ok (a, v) s₂
          → s' ≡ table.store (complete_command receipt v (table.rows s₂)) s₂
          → run s' ≡ ok a s'
      ran receipt rows' s₁ s₂ v new e b e' =
          let t = complete_command receipt v rows' in
          let (kept, found) = keeps s₁ a v s₂ b in
          let r₂ : table.rows s₂ ≡ rows' = kept ∙ ap table.rows e ∙ table.rows-store rows' s in
          let e'' : s' ≡ table.store t s₂ =
            e' ∙ ap (λ x. table.store (complete_command receipt v x) s₂) r₂ in
          let again =
            (claim_again [] [] organization operation key digest (table.rows s) new v).0 in
          let owner : receipt.organization ≡ organization =
            ap (λ (r : Receipt R). r.organization)
              (claim_fresh [] organization operation key digest (table.rows s) new).3 in
          let rows_now = table.rows-store t s₂ in
          let claimed =
            claim_of_replayed organization operation key digest (table.store t s₂)
              (completed_with receipt v) (rw rows_now again) in
          rw e'' (
            >>=-ok (claim organization operation key digest) (dispatch body existing) claimed
            ∙ found (completed_with receipt v) t owner refl)

      go :
          (receipt : Receipt R) (is_new : Bool) (s₁ : S)
          → claim organization operation key digest s ≡ ok (receipt, is_new) s₁
          → dispatch body existing (receipt, is_new) s₁ ≡ ok a s'
          → run s' ≡ ok a s'
      go receipt true s₁ claimed rest =
          elim (claim_cases organization operation key digest s claimed) [
            | inr (not_new, _) ↦ cc
            | inl (_, rows', new, e) ↦
                let ((result, v), s₂, worked, rest₂) =
                  >>=-eq-ok body (λ av. complete receipt av.1 >> pure av.0) s₁ rest in
                ran receipt rows' s₁ s₂ v new e
                  (worked ∙ ap (λ x. ok (x, v) s₂) (outcome_value rest₂)) (outcome_state rest₂)
          ]
      go receipt false s₁ claimed rest =
          elim (claim_cases organization operation key digest s claimed) [
            | inl (no_such, _, _, _) ↦ cc
            | inr (_, same) ↦
                let e : s' ≡ s = reads receipt s₁ a s' rest ∙ same in
                subst (λ x. run x ≡ ok a x) (sym e) (subst (λ x. run s ≡ ok a x) e h)
          ]
