-- ===== src/Organizations/Services/Owners.antt =====
-- An organization keeps an active owner.
use vidalys_flow.Common.{
  find_cases, find_passes, ◌<◌, ℕ, ◌+◌, ◌≤◌, ◌≡◌, refl, sym, ap, ◌∙◌, inl, inr, Bool, true, false,
  ◌&&◌, some, List, [], ◌∷◌, any, find, select, replace, length, leb, ◌==◌, Bool-cases, arith,
}
use mathlib.Core.Path.{subst}
use vidalys_flow.Transaction.{ok, or_raise-bind, unless-bind, raise_if-bind, outcome_state}
use vidalys_flow.Organizations.{Membership, Directory}
use vidalys_flow.Organizations.Services.{
  last_active_owner, does_not_exist, is_membership, is_owner, is_active_owner, active_owner_count,
  inactive, deactivate_locked, deactivate_membership,
}

-- The unique constraint of the table.
abbrev pub IsUnique : List Membership → Type 0
IsUnique [] = Unit
IsUnique (m ∷ ms) = (any (is_membership m.organization m.user) ms ≡ false) × IsUnique ms

replace_none :
    (p : Membership → Bool) (new : Membership) (rows : List Membership)
    → any p rows ≡ false
    → replace p new rows ≡ rows
replace_none p new [] h = refl
replace_none p new (x ∷ xs) h = elim (Bool-cases (p x)) [
  | inl hit ↦ absurd (ground arith)
  | inr miss ↦ rw (replace, miss) (ap (λ ys. x ∷ ys) (replace_none p new xs (ground arith)))
]

-- Behind a row of the key, no other row has the key.
same_key :
    (o u : ℕ) (x y : Membership)
    → is_membership o u x ≡ true
    → is_membership x.organization x.user y ≡ is_membership o u y
same_key o u x y h = ground arith

rest_free :
    (o u : ℕ) (x : Membership) (xs : List Membership)
    → is_membership o u x ≡ true
    → any (is_membership x.organization x.user) xs ≡ false
    → any (is_membership o u) xs ≡ false
rest_free o u x [] h k = refl
rest_free o u x (y ∷ ys) h k = elim (Bool-cases (is_membership o u y)) [
  | inl hit ↦ absurd (ground (arith, same_key o u x y h))
  | inr miss ↦ rw (any, miss) (rest_free o u x ys h (ground (arith, same_key o u x y h)))
]

abbrev one_if : Bool → ℕ
one_if true = 1
one_if false = 0

count_cons :
    (p : Membership → Bool) (x : Membership) (xs : List Membership)
    → length (select p (x ∷ xs)) ≡ one_if (p x) + length (select p xs)
count_cons p x xs = elim (Bool-cases (p x)) [
  | inl hit ↦ rw (select, hit) (omega arith)
  | inr miss ↦ rw (select, miss) (omega arith)
]

here_lem : (c n k a b : ℕ) → c ≡ a + n → k ≡ 0 + n → a ≡ b → c ≡ k + b
here_lem c n k a b h i j = omega arith

there_lem : (c n k a b l : ℕ) → c ≡ a + n → k ≡ a + l → n ≡ l + b → c ≡ k + b
there_lem c n k a b l h i j = omega arith

inactive_owner : (o : ℕ) (m : Membership) → is_active_owner o (inactive m) ≡ false
inactive_owner o m = ground arith

-- A deactivation takes one active owner away at most: the member itself.
count_replace :
    (organization o u : ℕ) (m : Membership) (rows : List Membership)
    → find (is_membership o u) rows ≡ some m
    → IsUnique rows
    → active_owner_count organization rows
      ≡ active_owner_count organization (replace (is_membership o u) (inactive m) rows)
        + one_if (is_active_owner organization m)
count_replace organization o u m [] h unique = cc
count_replace organization o u m (x ∷ xs) h (free, unique) =
    let p = is_membership o u in
    let q = is_active_owner organization in
    elim (find_cases p x xs m h) [
      | inl (same, hit) ↦
          let rest = replace_none p (inactive m) xs (rest_free o u x xs hit free) in
          let there = count_cons q x xs in
          let here = count_cons q (inactive m) xs in
          let gone = inactive_owner organization m in
          let replaced : replace p (inactive m) (x ∷ xs) ≡ inactive m ∷ xs =
            rw (replace, hit) (ap (λ ys. inactive m ∷ ys) rest) in
          here_lem (active_owner_count organization (x ∷ xs)) (length (select q xs))
            (active_owner_count organization (replace p (inactive m) (x ∷ xs))) (one_if (q x))
            (one_if (q m)) there
            (ap (active_owner_count organization) replaced
              ∙ here
              ∙ ap (λ b. one_if b + length (select q xs)) gone)
            (ap (λ y. one_if (q y)) (sym same))
      | inr (miss, later) ↦
          let ih = count_replace organization o u m xs later unique in
          let there = count_cons q x xs in
          let here = count_cons q x (replace p (inactive m) xs) in
          let replaced : replace p (inactive m) (x ∷ xs) ≡ x ∷ replace p (inactive m) xs =
            rw (replace, miss) refl in
          there_lem (active_owner_count organization (x ∷ xs)) (length (select q xs))
            (active_owner_count organization (replace p (inactive m) (x ∷ xs))) (one_if (q x))
            (one_if (q m)) (length (select q (replace p (inactive m) xs))) there
            (ap (active_owner_count organization) replaced ∙ here) ih
    ]

-- What the guard of the last owner leaves.
guard_lem :
    (organization o u : ℕ) (m : Membership) (n k : ℕ)
    → is_membership o u m ≡ true
    → (is_owner m.role && leb n 1) ≡ false
    → is_active_owner organization m ≡ true
    → (organization ≡ o) × (1 < n)
guard_lem organization o u m n k same free active = ground arith

count_after : (n k b : ℕ) → n ≡ k + b → 1 < n → b ≤ 1 → 1 ≤ k
count_after n k b h i j = omega arith

one_if_le : (b : Bool) → one_if b ≤ 1
one_if_le true = omega arith
one_if_le false = omega arith

-- The rows after a deactivation of an active member, in any organization.
owners_left :
    (organization o u : ℕ) (m : Membership) (rows : List Membership)
    → find (is_membership o u) rows ≡ some m
    → IsUnique rows
    → (is_owner m.role && leb (active_owner_count o rows) 1) ≡ false
    → 1 ≤ active_owner_count organization rows
    → 1 ≤ active_owner_count organization (replace (is_membership o u) (inactive m) rows)
owners_left organization o u m rows found unique free before =
    let k = active_owner_count organization (replace (is_membership o u) (inactive m) rows) in
    let n = active_owner_count organization rows in
    let count = count_replace organization o u m rows found unique in
    elim (Bool-cases (is_active_owner organization m)) [
      | inl active ↦
          let (same, many) =
            guard_lem organization o u m (active_owner_count o rows) 0
              (find_passes (is_membership o u) rows m found) free active in
          count_after n k (one_if (is_active_owner organization m)) count
            (subst (λ x. 1 < active_owner_count x rows) (sym same) many)
            (one_if_le (is_active_owner organization m))
      | inr other ↦ let kept : n ≡ k + 0 = count ∙ ap (λ b. k + one_if b) other in omega arith
    ]

deactivate_locked_owners :
    (is_active : Bool) (organization o u : ℕ) (m : Membership) (d : Directory) (r : Membership)
    (d' : Directory)
    → find (is_membership o u) d.memberships ≡ some m
    → IsUnique d.memberships
    → 1 ≤ active_owner_count organization d.memberships
    → deactivate_locked o u is_active m d ≡ ok r d'
    → 1 ≤ active_owner_count organization d'.memberships
deactivate_locked_owners false organization o u m d r d' found unique before h =
    subst (λ (x : Directory). 1 ≤ active_owner_count organization x.memberships)
      (sym (outcome_state h)) before
deactivate_locked_owners true organization o u m d r d' found unique before h =
    let (free, rest) =
      raise_if-bind (is_owner m.role && leb (active_owner_count o d.memberships) 1)
        last_active_owner _ d h in
    subst (λ (x : Directory). 1 ≤ active_owner_count organization x.memberships)
      (sym (outcome_state rest))
      (owners_left organization o u m d.memberships found unique free before)

-- Where no user has two memberships of an organization, an organization that has an active owner
-- has one after every deactivation of a membership that returns, of whatever organization.
pub deactivate_membership_owners :
    (organization o u : ℕ) (d : Directory) (r : Membership) (d' : Directory)
    → IsUnique d.memberships
    → 1 ≤ active_owner_count organization d.memberships
    → deactivate_membership o u d ≡ ok r d'
    → 1 ≤ active_owner_count organization d'.memberships
unfolding deactivate_membership
deactivate_membership_owners organization o u d r d' unique before h =
    let (_, h₁) = unless-bind (any (λ x. x.id == o) d.organizations) does_not_exist _ d h in
    let (m, found, h₂) =
      or_raise-bind (find (is_membership o u) d.memberships) does_not_exist _ d h₁ in
    deactivate_locked_owners m.is_active organization o u m d r d' found unique before h₂
