-- ===== src/Orders/Numbering/Sequences.antt =====
-- The sequences of the organizations, as a number is taken from one of them.
use vidalys_flow.Common.{
  ℕ, suc, ◌+◌, ◌≡◌, refl, ap, ◌∙◌, ◌⊎◌, inl, inr, none, some, List, [], ◌∷◌, find, replace, exclude,
  ◌==◌, Bool-cases, Option-cases, arith,
}
use vidalys_flow.Orders.Tables.{OrderNumberSequence}
use vidalys_flow.Orders.Numbering.{is_sequence_of, take_number}

-- The number that is taken from the sequences, and the sequences afterwards.
pub record IsNumbered (organization number : ℕ) (before after : List OrderNumberSequence)
    : Type 0 where
  pub taken :
      ((find (λ q. q.organization == organization) before ≡ none) × (number ≡ 1))
      ⊎ ((q : OrderNumberSequence) × (find (λ r. r.organization == organization) before ≡ some q)
          × (number ≡ q.next_number))
  pub next :
      find (λ q. q.organization == organization) after
      ≡ some (record { organization = organization; next_number = number + 1 })
  pub others :
      exclude (λ q. q.organization == organization) after
      ≡ exclude (λ q. q.organization == organization) before

find_next :
    (organization n : ℕ) (rows : List OrderNumberSequence) (q : OrderNumberSequence)
    → find (is_sequence_of organization) rows ≡ some q
    → find (is_sequence_of organization) (
        replace
          (is_sequence_of organization)
          (record { organization = organization; next_number = n })
          rows)
      ≡ some (record { organization = organization; next_number = n })
find_next organization n [] q h = cc
find_next organization n (x ∷ xs) q h = elim (Bool-cases (x.organization == organization)) [
  | inl same ↦ ground arith
  | inr other ↦ ground (arith, find_next organization n xs q)
]

exclude_next :
    (organization n : ℕ) (rows : List OrderNumberSequence)
    → exclude (is_sequence_of organization) (
        replace
          (is_sequence_of organization)
          (record { organization = organization; next_number = n })
          rows)
      ≡ exclude (is_sequence_of organization) rows
exclude_next organization n [] = refl
exclude_next organization n (x ∷ xs) = elim (Bool-cases (x.organization == organization)) [
  | inl same ↦ ground (arith, exclude_next organization n xs)
  | inr other ↦ ground (arith, exclude_next organization n xs)
]

pub take_number-IsNumbered :
    (organization : ℕ) (rows : List OrderNumberSequence)
    → let (number, after) = take_number organization rows in
      IsNumbered organization number rows after
unfolding take_number
take_number-IsNumbered organization rows =
    elim (Option-cases (find (is_sequence_of organization) rows)) [
      | inl missing ↦
          rw (missing, take_number)
            (record { taken = inl (missing, refl); next = ground arith; others = ground arith })
      | inr (q, found) ↦
          rw (found, take_number)
            (record {
              taken = inr (q, found, refl);
              next =
                  find_next organization (suc q.next_number) rows q found
                  ∙ ap (λ n. some (record { organization = organization; next_number = n }))
                      (omega arith);
              others = exclude_next organization (suc q.next_number) rows;
            })
    ]
