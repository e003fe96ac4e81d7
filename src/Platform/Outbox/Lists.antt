-- ===== src/Platform/Outbox/Lists.antt =====
-- The rows of the outbox by their identifiers, as a saved row changes them.
use vidalys_flow.Common.{
  Bool, true, zero, suc, take, select, leb, All, ℕ, ◌≡◌, ◌≢◌, refl, some, List, [], ◌∷◌, find,
  replace, ◌==◌, Bool-cases, inl, inr, arith,
}
use vidalys_flow.Platform.Tables.{OutboxEvent}
use vidalys_flow.Platform.Outbox.{is_event, insert_event, sort_events}

pub find-is_event :
    (id : ℕ) (rows : List OutboxEvent) (e : OutboxEvent)
    → find (is_event id) rows ≡ some e
    → e.id ≡ id
find-is_event id [] e h = cc
find-is_event id (x ∷ xs) e h = ground (arith, find-is_event id xs e)

-- The saved row is the one that is found from then on.
pub find_saved :
    (id : ℕ) (rows : List OutboxEvent) (e e' : OutboxEvent)
    → find (is_event id) rows ≡ some e
    → e'.id ≡ id
    → find (is_event id) (replace (is_event e'.id) e' rows) ≡ some e'
find_saved id [] e e' h i = cc
find_saved id (x ∷ xs) e e' h i = elim (Bool-cases (x.id == e'.id)) [
  | inl same ↦ ground arith
  | inr other ↦ ground (arith, find_saved id xs e e')
]

-- The other rows are found as before.
pub find_other :
    (id : ℕ) (e' : OutboxEvent) (rows : List OutboxEvent)
    → e'.id ≢ id
    → find (is_event id) (replace (is_event e'.id) e' rows) ≡ find (is_event id) rows
find_other id e' [] other = refl
find_other id e' (x ∷ xs) other = elim (Bool-cases (x.id == e'.id)) [
  | inl same ↦ ground (arith, find_other id e' xs)
  | inr differs ↦ ground (arith, find_other id e' xs)
]

-- What holds of all rows through the selection and the sorting of rows.
module _ (P : OutboxEvent → Type 0) where
  pub insert-All :
      (e : OutboxEvent) (xs : List OutboxEvent) → P e → All P xs → All P (insert_event e xs)
  insert-All e [] pe all = (pe, tt)
  insert-All e (x ∷ xs) pe (px, pxs) = elim (Bool-cases (leb x.available_at e.available_at)) [
    | inl earlier ↦ rw (earlier, insert_event) (px, insert-All e xs pe pxs)
    | inr later ↦ rw (later, insert_event) (pe, (px, pxs))
  ]

  pub sort-All : (xs : List OutboxEvent) → All P xs → All P (sort_events xs)
  sort-All [] all = tt
  sort-All (x ∷ xs) (px, pxs) = insert-All x (sort_events xs) px (sort-All xs pxs)

  pub take-All : (n : ℕ) (xs : List OutboxEvent) → All P xs → All P (take n xs)
  take-All zero xs all = tt
  take-All (suc n) [] all = tt
  take-All (suc n) (x ∷ xs) (px, pxs) = (px, take-All n xs pxs)

  pub select-All : (p : OutboxEvent → Bool) (xs : List OutboxEvent) → All P xs → All P (select p xs)
  select-All p [] all = tt
  select-All p (x ∷ xs) (px, pxs) = elim (Bool-cases (p x)) [
    | inl taken ↦ rw (taken, select) (px, select-All p xs pxs)
    | inr left ↦ rw (left, select) (select-All p xs pxs)
  ]

pub select_passes :
    (p : OutboxEvent → Bool) (xs : List OutboxEvent) → All (λ e. p e ≡ true) (select p xs)
select_passes p [] = tt
select_passes p (x ∷ xs) = elim (Bool-cases (p x)) [
  | inl taken ↦ rw (taken, select) (taken, select_passes p xs)
  | inr left ↦ rw (left, select) (select_passes p xs)
]

pub weaken :
    (P Q : OutboxEvent → Type 0) (xs : List OutboxEvent)
    → ((e : OutboxEvent) → P e → Q e)
    → All P xs
    → All Q xs
weaken P Q [] h all = tt
weaken P Q (x ∷ xs) h (px, pxs) = (h x px, weaken P Q xs h pxs)

pub both :
    (P Q : OutboxEvent → Type 0) (xs : List OutboxEvent)
    → All P xs
    → All Q xs
    → All (λ e. P e × Q e) xs
both P Q [] ps qs = tt
both P Q (x ∷ xs) (p, ps) (q, qs) = ((p, q), both P Q xs ps qs)
