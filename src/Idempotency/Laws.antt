-- ===== src/Idempotency/Laws.antt =====
-- The receipts' table: a command is claimed at most once, and a completed claim is replayed.
use vidalys_flow.Common.{
  ℕ, ◌≡◌, ◌≢◌, refl, sym, ap, ◌∙◌, inl, inr, Bool, true, false, Option, none, some, List, [], ◌∷◌,
  ◌++◌, find, arith, ==_self, Option-cases,
}
use vidalys_flow.Text.{Text, strip}
use vidalys_flow.Text.Laws.{text_eq_self}
use vidalys_flow.Idempotency.{
  Receipt, replayed, fresh, conflict, other_payload, not_completed, is_for, lookup_receipt,
  validate_existing, new_receipt, is_bad_key, insert_receipt, claim_command, complete_command,
}

find-append_none {ℓ} :
    {A : Type ℓ} (p : A → Bool) (xs ys : List A) → find p xs ≡ none → find p (xs ++ ys) ≡ find p ys
find-append_none p [] ys h = refl
find-append_none p (x ∷ xs) ys h = ground (arith, find-append_none p xs ys)

find-append_some {ℓ} :
    {A : Type ℓ} (p : A → Bool) (xs ys : List A) → find p ys ≢ none → find p (xs ++ ys) ≢ none
find-append_some p [] ys h = h
find-append_some p (x ∷ xs) ys h = ground (arith, find-append_some p xs ys h)

some-ne-none {ℓ} : {A : Type ℓ} {o : Option A} {a : A} → o ≡ some a → o ≢ none
some-ne-none e h = cc

module _ {R : Type 0} where
  is_for_self : (r : Receipt R) → is_for r.organization r.operation r.key r ≡ true
  is_for_self r = rw (==_self r.organization, text_eq_self r.operation, text_eq_self r.key) refl

  -- What a claim that is new says of the table before and after.
  pub claim_fresh :
      (racing : List (Receipt R)) (organization : ℕ) (operation key : Text) (digest : ℕ)
      (rows : List (Receipt R)) {receipt : Receipt R} {rows' : List (Receipt R)}
      → claim_command racing organization operation key digest rows ≡ (fresh receipt, rows')
      → (is_bad_key (strip key) ≡ false)
        × (lookup_receipt organization operation (strip key) rows ≡ none)
        × (lookup_receipt organization operation (strip key) racing ≡ none)
        × (receipt ≡ new_receipt organization operation (strip key) digest)
        × (rows' ≡ receipt ∷ racing ++ rows)
  unfolding claim_command insert_receipt
  claim_fresh racing organization operation key digest rows h =
      elim (Option-cases (lookup_receipt organization operation (strip key) rows)) [
        | inr (r, e) ↦ absurd (ground arith)
        | inl absent ↦
            elim (Option-cases (lookup_receipt organization operation (strip key) racing)) [
              | inr (r, e) ↦ absurd (ground arith)
              | inl unraced ↦ ground arith
            ]
      ]

  lookup_receipt_head :
      (r : Receipt R) (rows : List (Receipt R))
      → lookup_receipt r.organization r.operation r.key (r ∷ rows) ≡ some r
  lookup_receipt_head r rows = rw (is_for_self r, find) refl

  complete_command_head :
      (r : Receipt R) (v : R) (rows : List (Receipt R))
      → complete_command r v (r ∷ rows) ≡ record r { result = some v; completed = true } ∷ rows
  unfolding complete_command
  complete_command_head r v rows = rw (is_for_self r, complete_command) refl

  -- A claim with a good key whose receipt is in the table validates it and leaves the table.
  pub claim_existing :
      (racing : List (Receipt R)) (organization : ℕ) (operation key : Text) (digest : ℕ)
      (rows : List (Receipt R)) (r : Receipt R)
      → is_bad_key (strip key) ≡ false
      → lookup_receipt organization operation (strip key) rows ≡ some r
      → claim_command racing organization operation key digest rows
        ≡ (validate_existing digest r, rows)
  unfolding claim_command
  claim_existing racing organization operation key digest rows r good e =
      rw (good, e, claim_command) refl

  abbrev pub completed_with : Receipt R → R → Receipt R
  completed_with r v = record r { result = some v; completed = true }

  validate_existing_same :
      (digest : ℕ) (r : Receipt R)
      → r.request_hash ≡ digest
      → r.completed ≡ true
      → validate_existing digest r ≡ replayed r
  validate_existing_same digest r h c = ground arith

  validate_existing_other :
      (digest : ℕ) (r : Receipt R)
      → r.request_hash ≢ digest
      → validate_existing digest r ≡ conflict other_payload
  validate_existing_other digest r h = ground arith

  validate_existing_pending :
      (digest : ℕ) (r : Receipt R)
      → r.request_hash ≡ digest
      → r.completed ≡ false
      → validate_existing digest r ≡ conflict not_completed
  validate_existing_pending digest r h c = ground arith

  -- A claim that is not new leaves the table, where no other transaction interferes.
  pub claim_replayed :
      (organization : ℕ) (operation key : Text) (digest : ℕ) (rows : List (Receipt R))
      {receipt : Receipt R} {rows' : List (Receipt R)}
      → claim_command [] organization operation key digest rows ≡ (replayed receipt, rows')
      → rows' ≡ rows
  unfolding claim_command insert_receipt
  claim_replayed organization operation key digest rows h =
      elim (Option-cases (lookup_receipt organization operation (strip key) rows)) [
        | inr (r, e) ↦ ground arith
        | inl absent ↦ absurd (ground arith)
      ]

  -- A command that was claimed and completed is replayed with its result to the same request, and
  -- while it is not completed it is refused; neither changes the table.
  pub claim_again :
      (racing racing' : List (Receipt R)) (organization : ℕ) (operation key : Text) (digest : ℕ)
      (rows : List (Receipt R)) {receipt : Receipt R} {rows' : List (Receipt R)}
      → claim_command racing organization operation key digest rows ≡ (fresh receipt, rows')
      → (v : R)
      → let done = complete_command receipt v rows' in
        (claim_command racing' organization operation key digest done
          ≡ (replayed (completed_with receipt v), done))
        × (claim_command racing' organization operation key digest rows'
            ≡ (conflict not_completed, rows'))
  claim_again racing racing' organization operation key digest rows claimed v =
      let (good, _, _, made, table) =
        claim_fresh racing organization operation key digest rows claimed in
      let r = new_receipt organization operation (strip key) digest in
      let r' = completed_with r v in
      let tail = racing ++ rows in
      rw (table, made)
        (rw (complete_command_head r v tail) (
          claim_existing racing' organization operation key digest (r' ∷ tail) r' good
                (lookup_receipt_head r' tail)
              ∙ ap (λ c. (c, r' ∷ tail)) (validate_existing_same digest r' refl refl),
          claim_existing racing' organization operation key digest (r ∷ tail) r good
                (lookup_receipt_head r tail)
              ∙ ap (λ c. (c, r ∷ tail)) (validate_existing_pending digest r refl refl),
        ))

  -- Another request under the key of a completed command is refused, and changes nothing.
  pub claim_conflict :
      (racing racing' : List (Receipt R)) (organization : ℕ) (operation key : Text)
      (digest digest' : ℕ) (rows : List (Receipt R)) {receipt : Receipt R}
      {rows' : List (Receipt R)}
      → claim_command racing organization operation key digest rows ≡ (fresh receipt, rows')
      → digest' ≢ digest
      → (v : R)
      → let done = complete_command receipt v rows' in
        claim_command racing' organization operation key digest' done
        ≡ (conflict other_payload, done)
  claim_conflict racing racing' organization operation key digest digest' rows claimed other v =
      let (good, _, _, made, table) =
        claim_fresh racing organization operation key digest rows claimed in
      let r = new_receipt organization operation (strip key) digest in
      let r' = completed_with r v in
      let tail = racing ++ rows in
      rw (table, made)
        (rw (complete_command_head r v tail) (
          claim_existing racing' organization operation key digest' (r' ∷ tail) r' good
            (lookup_receipt_head r' tail)
          ∙ ap (λ c. (c, r' ∷ tail)) (validate_existing_other digest' r' (λ e. other (sym e)))))

  -- Whatever rows other commands add afterwards, the same key is never claimed as new again.
  pub claim_never_twice :
      (racing racing' : List (Receipt R)) (organization : ℕ) (operation key : Text) (digest : ℕ)
      (rows : List (Receipt R)) {receipt : Receipt R} {rows' : List (Receipt R)}
      → claim_command racing organization operation key digest rows ≡ (fresh receipt, rows')
      → (more : List (Receipt R)) (digest' : ℕ) (again : Receipt R) (rows'' : List (Receipt R))
      → claim_command racing' organization operation key digest' (more ++ rows')
        ≢ (fresh again, rows'')
  claim_never_twice racing racing' organization operation key digest rows {receipt} {rows'} claimed
        more digest' again rows'' h =
      let (_, _, _, made, table) =
        claim_fresh racing organization operation key digest rows claimed in
      let (_, absent, _, _, _) =
        claim_fresh racing' organization operation key digest' (more ++ rows') h in
      let r = new_receipt organization operation (strip key) digest in
      let here : lookup_receipt organization operation (strip key) rows' ≢ none =
        rw (table, made) (some-ne-none (lookup_receipt_head r (racing ++ rows))) in
      find-append_some (is_for organization operation (strip key)) more rows' here absent
