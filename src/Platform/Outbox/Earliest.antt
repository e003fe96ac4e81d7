-- ===== src/Platform/Outbox/Earliest.antt =====
-- That `pending_events` selects the earliest of the events that are due.
use vidalys_flow.Common.{
  ℕ, zero, suc, ◌≡◌, ◌≢◌, ◌≤◌, ◌<◌, ◌&&◌, ◌⊎◌, ap, refl, Bool, true, false, some, List, [], ◌∷◌,
  All, any, length, find, take, select, inl, inr, leb, ◌==◌, Bool-cases, arith,
}
use vidalys_flow.Platform.Tables.{
  OutboxStatus, pending, processing, retry, processed, dead, OutboxEvent, Journal,
}
use vidalys_flow.Platform.Outbox.Lists.{weaken, both}
use vidalys_flow.Platform.Outbox.{
  is_claimable, is_event, is_due, insert_event, sort_events, pending_events,
}
use vidalys_flow.Platform.Outbox.Selection.{
  IsUnique, IsSorted, rows_found, sort-IsSorted, take-IsSorted, length-take, and_left,
  pending_events-IsUnique, pending_events-All,
}

-- A row of the outbox that waits for its first attempt or for another one, and whose time has come.
abbrev pub IsTaken : OutboxEvent → Journal → Type 0
IsTaken e j =
    (find (λ r. r.id == e.id) j.outbox ≡ some e)
    × ((e.status ≡ pending) ⊎ (e.status ≡ retry))
    × (e.available_at ≤ j.now)

-- A row is selected, or its status or its time forbids it, or the limit is reached and all that are
-- selected became available no later.
abbrev pub IsServed : ℕ → OutboxEvent → List OutboxEvent → Journal → Type 0
IsServed limit e due j =
    (any (λ r. r.id == e.id) due ≡ true)
    ⊎ (((e.status ≢ pending) × (e.status ≢ retry))
        ⊎ ((j.now < e.available_at)
            ⊎ ((length due ≡ limit) × All (λ d. d.available_at ≤ e.available_at) due)))

claimable_cases :
    (status : OutboxStatus) → is_claimable status ≡ true → (status ≡ pending) ⊎ (status ≡ retry)
claimable_cases pending h = inl refl
claimable_cases processing h = cc
claimable_cases retry h = inr refl
claimable_cases processed h = cc
claimable_cases dead h = cc

not_claimable :
    (status other : OutboxStatus)
    → is_claimable status ≡ false
    → is_claimable other ≡ true
    → status ≢ other
not_claimable status other closed claimable same =
    absurd (cc (ap is_claimable same, closed, claimable))

and_right : (a b : Bool) → (a && b) ≡ true → b ≡ true
and_right true b h = h
and_right false b h = cc

not_both : (a b : Bool) → (a && b) ≡ false → (a ≡ false) ⊎ (b ≡ false)
not_both true b h = inr h
not_both false b h = inl refl

taken :
    (e : OutboxEvent) (j : Journal)
    → find (is_event e.id) j.outbox ≡ some e
    → is_due j.now e ≡ true
    → IsTaken e j
taken e j found due =
    let on_time = and_right (is_claimable e.status) (leb e.available_at j.now) due in
    (
      found,
      claimable_cases e.status (and_left (is_claimable e.status) (leb e.available_at j.now) due),
      ground arith,
    )

-- The row is among the first ones of a sorted list, or those are full and earlier.
abbrev IsAhead : ℕ → List OutboxEvent → OutboxEvent → Type 0
IsAhead n firsts e =
    (any (is_event e.id) firsts ≡ true)
    ⊎ ((length firsts ≡ n) × All (λ d. d.available_at ≤ e.available_at) firsts)

everywhere :
    (P : OutboxEvent → Type 0) (xs : List OutboxEvent) → ((e : OutboxEvent) → P e) → All P xs
everywhere P [] h = tt
everywhere P (x ∷ xs) h = (h x, everywhere P xs h)

one_more :
    (n : ℕ) (x : OutboxEvent) (firsts : List OutboxEvent) (e : OutboxEvent)
    → x.available_at ≤ e.available_at
    → IsAhead n firsts e
    → IsAhead (suc n) (x ∷ firsts) e
one_more n x firsts e before (inl selected) = elim (Bool-cases (x.id == e.id)) [
  | inl same ↦ inl (rw (same, any) refl)
  | inr other ↦ inl (rw (other, any) selected)
]
one_more n x firsts e before (inr (full, earlier)) = inr (ap suc full, (before, earlier))

take-IsAhead : (n : ℕ) (xs : List OutboxEvent) → IsSorted xs → All (IsAhead n (take n xs)) xs
take-IsAhead zero xs sorted = everywhere (IsAhead zero []) xs (λ e. inr (refl, tt))
take-IsAhead (suc n) [] sorted = tt
take-IsAhead (suc n) (x ∷ xs) (first, sorted) = (
  inl (ground arith),
  weaken _ _ xs
      (λ e (h : (x.available_at ≤ e.available_at) × IsAhead n (take n xs) e).
        one_more n x (take n xs) e h.0 h.1)
      (both _ _ xs first (take-IsAhead n xs sorted)),
)

-- What holds of all rows that are sorted or selected holds of the rows that were given.
module _ (P : OutboxEvent → Type 0) where
  insert_back :
      (e : OutboxEvent) (xs : List OutboxEvent) → All P (insert_event e xs) → P e × All P xs
  insert_back e [] all = all
  insert_back e (x ∷ xs) all = go (leb x.available_at e.available_at) all (insert_back e xs)
    where
      go :
          (b : Bool)
          → All P (elim b [ true ↦ x ∷ insert_event e xs | false ↦ e ∷ x ∷ xs ])
          → (All P (insert_event e xs) → P e × All P xs)
          → P e × (P x × All P xs)
      go true (px, rest) back = let (pe, pxs) = back rest in (pe, (px, pxs))
      go false all back = all

  sort_back : (xs : List OutboxEvent) → All P (sort_events xs) → All P xs
  sort_back [] all = tt
  sort_back (x ∷ xs) all =
      let (px, rest) = insert_back x (sort_events xs) all in (px, sort_back xs rest)

  select_back :
      (p : OutboxEvent → Bool) (xs : List OutboxEvent)
      → All P (select p xs)
      → All (λ e. (p e ≡ false) ⊎ P e) xs
  select_back p [] all = tt
  select_back p (x ∷ xs) all = go (p x) refl all (select_back p xs)
    where
      go :
          (b : Bool)
          → p x ≡ b
          → All P (elim b [ true ↦ x ∷ select p xs | false ↦ select p xs ])
          → (All P (select p xs) → All (λ e. (p e ≡ false) ⊎ P e) xs)
          → ((p x ≡ false) ⊎ P x) × All (λ e. (p e ≡ false) ⊎ P e) xs
      go true hit (px, rest) back = (inr px, back rest)
      go false miss rest back = (inl miss, back rest)

served :
    (limit : ℕ) (e : OutboxEvent) (due : List OutboxEvent) (j : Journal)
    → (is_due j.now e ≡ false) ⊎ IsAhead limit due e
    → IsServed limit e due j
served limit e due j (inr (inl selected)) = inl selected
served limit e due j (inr (inr full)) = inr (inr (inr full))
served limit e due j (inl idle) =
    elim (not_both (is_claimable e.status) (leb e.available_at j.now) idle) [
      | inl closed ↦ inr (
          inl
            (not_claimable e.status pending closed refl, not_claimable e.status retry closed refl))
      | inr later ↦ inr (inr (inl (ground arith)))
    ]

-- Where the identifiers of the outbox are unique, the selected events are rows of it that are
-- pending or to be tried again and whose time has come, no two of one identifier, in the order of
-- the time at which they became available and no more than the limit. Each row of the outbox is one
-- of them, or is neither pending nor to be tried again, or waits for its time, or the limit is
-- reached and no selected event became available after it.
pub pending_events_lem :
    (limit : ℕ) (j : Journal)
    → IsUnique j.outbox
    → let due = pending_events limit j in
      All (λ e. IsTaken e j) due
      × IsUnique due
      × IsSorted due
      × (length due ≤ limit)
      × All (λ e. IsServed limit e due j) j.outbox
unfolding pending_events
pending_events_lem limit j unique =
    let sorted = sort_events (select (is_due j.now) j.outbox) in
    let ahead = take-IsAhead limit sorted (sort-IsSorted (select (is_due j.now) j.outbox)) in
    (
      weaken _ _ (take limit sorted)
          (λ e (h : (find (is_event e.id) j.outbox ≡ some e) × (is_due j.now e ≡ true)).
            taken e j h.0 h.1)
          (pending_events-All (λ e. find (is_event e.id) j.outbox ≡ some e) limit j
            (rows_found j.outbox unique)),
      pending_events-IsUnique limit j unique,
      take-IsSorted limit sorted (sort-IsSorted (select (is_due j.now) j.outbox)),
      omega (arith, length-take limit sorted),
      weaken _ _ j.outbox (λ e h. served limit e (take limit sorted) j h)
          (select_back _ (is_due j.now) j.outbox
            (sort_back _ (select (is_due j.now) j.outbox) ahead)),
    )
