-- ===== src/Platform/Outbox/Selection.antt =====
-- Which events `pending_events` selects, and in which order.
use vidalys_flow.Common.{
  ℕ, zero, suc, ◌≡◌, ◌≢◌, ◌≤◌, ◌&&◌, refl, sym, Bool, true, false, some, List, [], ◌∷◌, All, length,
  find, take, select, inl, inr, leb, Bool-cases, arith,
}
use Prim.Native.Nat.{min}
use vidalys_flow.Platform.Tables.{OutboxEvent, Journal}
use vidalys_flow.Platform.Outbox.Lists.{
  insert-All, sort-All, take-All, select-All, select_passes, weaken, both,
}
use vidalys_flow.Platform.Outbox.{
  is_claimable, is_event, is_due, insert_event, sort_events, pending_events,
}

-- The primary key.
abbrev pub IsUnique : List OutboxEvent → Type 0
IsUnique [] = Unit
IsUnique (x ∷ xs) = All (λ y. x.id ≢ y.id) xs × IsUnique xs

abbrev pub IsSorted : List OutboxEvent → Type 0
IsSorted [] = Unit
IsSorted (x ∷ xs) = All (λ y. x.available_at ≤ y.available_at) xs × IsSorted xs

-- An event that is in the outbox and may be claimed.
abbrev pub IsReady : Journal → OutboxEvent → Type 0
IsReady j e = (find (is_event e.id) j.outbox ≡ some e) × (is_claimable e.status ≡ true)

insert-IsUnique :
    (e : OutboxEvent) (xs : List OutboxEvent)
    → All (λ y. e.id ≢ y.id) xs
    → IsUnique xs
    → IsUnique (insert_event e xs)
insert-IsUnique e [] new unique = (tt, tt)
insert-IsUnique e (x ∷ xs) (other, new) (others, unique) =
    elim (Bool-cases (leb x.available_at e.available_at)) [
      | inl earlier ↦
          rw (earlier, insert_event)
            (
              insert-All (λ y. x.id ≢ y.id) e xs (λ same. other (sym same)) others,
              insert-IsUnique e xs new unique,
            )
      | inr later ↦ rw (later, insert_event) ((other, new), (others, unique))
    ]

sort-IsUnique : (xs : List OutboxEvent) → IsUnique xs → IsUnique (sort_events xs)
sort-IsUnique [] unique = tt
sort-IsUnique (x ∷ xs) (others, unique) =
    insert-IsUnique x (sort_events xs) (sort-All (λ y. x.id ≢ y.id) xs others)
      (sort-IsUnique xs unique)

take-IsUnique : (n : ℕ) (xs : List OutboxEvent) → IsUnique xs → IsUnique (take n xs)
take-IsUnique zero xs unique = tt
take-IsUnique (suc n) [] unique = tt
take-IsUnique (suc n) (x ∷ xs) (others, unique) =
    (take-All (λ y. x.id ≢ y.id) n xs others, take-IsUnique n xs unique)

select-IsUnique :
    (p : OutboxEvent → Bool) (xs : List OutboxEvent) → IsUnique xs → IsUnique (select p xs)
select-IsUnique p [] unique = tt
select-IsUnique p (x ∷ xs) (others, unique) = elim (Bool-cases (p x)) [
  | inl taken ↦
      rw (taken, select) (select-All (λ y. x.id ≢ y.id) p xs others, select-IsUnique p xs unique)
  | inr left ↦ rw (left, select) (select-IsUnique p xs unique)
]

pub pending_events-IsUnique :
    (limit : ℕ) (j : Journal) → IsUnique j.outbox → IsUnique (pending_events limit j)
unfolding pending_events
pending_events-IsUnique limit j unique =
    take-IsUnique limit _ (sort-IsUnique _ (select-IsUnique (is_due j.now) j.outbox unique))

-- What holds of every row of the outbox and of every row that is due holds of the selected ones.
pub pending_events-All :
    (P : OutboxEvent → Type 0) (limit : ℕ) (j : Journal)
    → All P j.outbox
    → All (λ e. P e × (is_due j.now e ≡ true)) (pending_events limit j)
unfolding pending_events
pending_events-All P limit j all = take-All Q limit _ (
    sort-All Q _ (
      both P (λ e. is_due j.now e ≡ true) _ (select-All P (is_due j.now) j.outbox all)
        (select_passes (is_due j.now) j.outbox)))
  where
    Q : OutboxEvent → Type 0
    Q e = P e × (is_due j.now e ≡ true)

-- A row of a table with unique identifiers is found by its own.
pub rows_found :
    (xs : List OutboxEvent) → IsUnique xs → All (λ e. find (is_event e.id) xs ≡ some e) xs
rows_found [] unique = tt
rows_found (x ∷ xs) (others, unique) = (
  ground arith,
  weaken _ _ xs (λ e (h : (x.id ≢ e.id) × (find (is_event e.id) xs ≡ some e)). behind e h.0 h.1)
      (both _ _ xs others (rows_found xs unique)),
)
  where
    behind :
        (e : OutboxEvent)
        → x.id ≢ e.id
        → find (is_event e.id) xs ≡ some e
        → find (is_event e.id) (x ∷ xs) ≡ some e
    behind e other found = ground arith

pub and_left : (a b : Bool) → (a && b) ≡ true → a ≡ true
and_left true b h = refl
and_left false b h = cc

pub pending_events-IsReady :
    (limit : ℕ) (j : Journal) → IsUnique j.outbox → All (IsReady j) (pending_events limit j)
pending_events-IsReady limit j unique =
    weaken _ (IsReady j) (pending_events limit j)
      (λ e (h : (find (is_event e.id) j.outbox ≡ some e) × (is_due j.now e ≡ true)).
        (h.0, and_left (is_claimable e.status) (leb e.available_at j.now) h.1))
      (pending_events-All (λ e. find (is_event e.id) j.outbox ≡ some e) limit j
        (rows_found j.outbox unique))

insert-IsSorted :
    (e : OutboxEvent) (xs : List OutboxEvent) → IsSorted xs → IsSorted (insert_event e xs)
insert-IsSorted e [] sorted = (tt, tt)
insert-IsSorted e (x ∷ xs) (first, sorted) = elim (Bool-cases (leb x.available_at e.available_at)) [
  | inl earlier ↦
      rw (earlier, insert_event)
        (
          insert-All (λ y. x.available_at ≤ y.available_at) e xs (ground arith) first,
          insert-IsSorted e xs sorted,
        )
  | inr later ↦
      let before : e.available_at ≤ x.available_at = ground arith in
      rw (later, insert_event)
        (
          (
            before,
            weaken (λ y. x.available_at ≤ y.available_at) (λ y. e.available_at ≤ y.available_at) xs
                (λ y h. omega (arith, before, h)) first,
          ),
          (first, sorted),
        )
]

pub sort-IsSorted : (xs : List OutboxEvent) → IsSorted (sort_events xs)
sort-IsSorted [] = tt
sort-IsSorted (x ∷ xs) = insert-IsSorted x (sort_events xs) (sort-IsSorted xs)

pub take-IsSorted : (n : ℕ) (xs : List OutboxEvent) → IsSorted xs → IsSorted (take n xs)
take-IsSorted zero xs sorted = tt
take-IsSorted (suc n) [] sorted = tt
take-IsSorted (suc n) (x ∷ xs) (first, sorted) =
    (take-All (λ y. x.available_at ≤ y.available_at) n xs first, take-IsSorted n xs sorted)

pub length-take : (n : ℕ) (xs : List OutboxEvent) → length (take n xs) ≡ min n (length xs)
length-take zero xs = omega arith
length-take (suc n) [] = omega arith
length-take (suc n) (x ∷ xs) = omega (arith, length-take n xs)
