-- ===== src/Common/Lists.antt =====
-- Lists measured by native numbers, predicates on all members, and sums.
use Prim.Native.Nat.{ℕ, max, zero, suc, ◌+◌}
use mathlib.Core.Path.{◌≡◌, refl, sym, ap, ◌∙◌, subst}
use mathlib.Core.Logic.{◌⊎◌, inl, inr}
use mathlib.Core.Bool.{Bool, true, false}
use mathlib.Core.List.{List, [], ◌∷◌, ◌++◌}
use mathlib.Core.Option.{some-injective, Option, none, some}
use native.Mathlib.Omega.{arith}

module _ {ℓ} {A : Type ℓ} where
  abbrev pub length : List A → ℕ
  length [] = 0
  length (x ∷ xs) = suc (length xs)

  -- Every member satisfies the predicate.
  abbrev pub All {κ} : (A → Type κ) → List A → Type κ
  All P [] = Unit
  All P (x ∷ xs) = P x × All P xs

  -- The sum of a quantity over the members.
  abbrev pub sum_of : (A → ℕ) → List A → ℕ
  sum_of f [] = 0
  sum_of f (x ∷ xs) = f x + sum_of f xs

  -- The first member that passes the test, as `filter(...).first()`.
  abbrev pub find : (A → Bool) → List A → Option A
  find p [] = none
  find p (x ∷ xs) = elim (p x) [ true ↦ some x | false ↦ find p xs ]

  abbrev pub any : (A → Bool) → List A → Bool
  any p [] = false
  any p (x ∷ xs) = elim (p x) [ true ↦ true | false ↦ any p xs ]

  pub sum_of-append : (f : A → ℕ) (xs ys : List A) → sum_of f (xs ++ ys) ≡ sum_of f xs + sum_of f ys
  sum_of-append f [] ys = omega arith
  sum_of-append f (x ∷ xs) ys = omega (arith, sum_of-append f xs ys)

  pub length-append : (xs ys : List A) → length (xs ++ ys) ≡ length xs + length ys
  length-append [] ys = omega arith
  length-append (x ∷ xs) ys = omega (arith, length-append xs ys)

  -- Every row that passes the test becomes the given one: a save by primary key.
  abbrev pub replace : (A → Bool) → A → List A → List A
  replace p a [] = []
  replace p a (x ∷ xs) = elim (p x) [ true ↦ a | false ↦ x ] ∷ replace p a xs

  -- `exclude`: the rows that fail the test.
  abbrev pub exclude : (A → Bool) → List A → List A
  exclude p [] = []
  exclude p (x ∷ xs) = elim (p x) [ true ↦ exclude p xs | false ↦ x ∷ exclude p xs ]

  -- `filter`: the rows that pass it.
  abbrev pub select : (A → Bool) → List A → List A
  select p [] = []
  select p (x ∷ xs) = elim (p x) [ true ↦ x ∷ select p xs | false ↦ select p xs ]

  -- `aggregate(Max(...)) or 0`
  abbrev pub max_of : (A → ℕ) → List A → ℕ
  max_of f [] = 0
  max_of f (x ∷ xs) = max (f x) (max_of f xs)

  -- `xs[:n]`
  abbrev pub take : ℕ → List A → List A
  take zero xs = []
  take (suc n) [] = []
  take (suc n) (x ∷ xs) = x ∷ take n xs

  -- `xs[n:]`
  abbrev pub drop : ℕ → List A → List A
  drop zero xs = xs
  drop (suc n) [] = []
  drop (suc n) (x ∷ xs) = drop n xs

  pub find-All {κ} :
      (P : A → Type κ) (p : A → Bool) (xs : List A) (a : A) → find p xs ≡ some a → All P xs → P a
  find-All P p [] a h all = cc
  find-All P p (x ∷ xs) a h (px, pxs) = go (p x) h (λ e. find-All P p xs a e pxs)
    where
      go :
          (b : Bool)
          → (elim b [ true ↦ some x | false ↦ find p xs ]) ≡ some a
          → (find p xs ≡ some a → P a)
          → P a
      go true e rest = subst P (some-injective x a e) px
      go false e rest = rest e

  pub replace-All {κ} :
      (P : A → Type κ) (p : A → Bool) (a : A) (xs : List A)
      → P a
      → All P xs
      → All P (replace p a xs)
  replace-All P p a [] pa all = tt
  replace-All P p a (x ∷ xs) pa (px, pxs) = (go (p x), replace-All P p a xs pa pxs)
    where
      go : (b : Bool) → P (elim b [ true ↦ a | false ↦ x ])
      go true = pa
      go false = px

  -- The first row that passes is the first one, or it is found behind it.
  pub find_cases :
      (p : A → Bool) (x : A) (xs : List A) (a : A)
      → find p (x ∷ xs) ≡ some a
      → ((a ≡ x) × (p x ≡ true)) ⊎ ((p x ≡ false) × (find p xs ≡ some a))
  find_cases p x xs a h = go (p x) refl h
    where
      go :
          (b : Bool)
          → p x ≡ b
          → (elim b [ true ↦ some x | false ↦ find p xs ]) ≡ some a
          → ((a ≡ x) × (p x ≡ true)) ⊎ ((p x ≡ false) × (find p xs ≡ some a))
      go true hit e = inl (sym (some-injective x a e), hit)
      go false miss e = inr (miss, e)

  pub find_passes : (p : A → Bool) (xs : List A) (a : A) → find p xs ≡ some a → p a ≡ true
  find_passes p [] a h = cc
  find_passes p (x ∷ xs) a h = elim (find_cases p x xs a h) [
    | inl (same, hit) ↦ ap p same ∙ hit
    | inr (_, later) ↦ find_passes p xs a later
  ]

  -- Where every row that is looked for was replaced, the new row is found.
  pub find-replace :
      (p q : A → Bool) (new : A) (xs : List A) (a : A)
      → ((x : A) → p x ≡ true → q x ≡ true)
      → find p (replace q new xs) ≡ some a
      → a ≡ new
  find-replace p q new [] a imp h = cc
  find-replace p q new (x ∷ xs) a imp h = go (q x) refl (find-replace p q new xs a imp) h
    where
      go :
          (b : Bool)
          → q x ≡ b
          → (find p (replace q new xs) ≡ some a → a ≡ new)
          → find p (elim b [ true ↦ new | false ↦ x ] ∷ replace q new xs) ≡ some a
          → a ≡ new
      go true hit rest e = elim (find_cases p new (replace q new xs) a e) [
        | inl (same, _) ↦ same
        | inr (_, later) ↦ rest later
      ]
      go false miss rest e = elim (find_cases p x (replace q new xs) a e) [
        | inl (_, passes) ↦ absurd (cc (imp x passes))
        | inr (_, later) ↦ rest later
      ]

  -- A row that was found is found as it is saved.
  pub find_replaced :
      (p q : A → Bool) (new : A) (xs : List A) (a : A)
      → find p xs ≡ some a
      → p new ≡ true
      → q a ≡ true
      → find p (replace q new xs) ≡ some new
  find_replaced p q new [] a found fits here = cc
  find_replaced p q new (x ∷ xs) a found fits here =
      go (q x) refl (find_cases p x xs a found)
        (λ later. find_replaced p q new xs a later fits here)
    where
      go :
          (b : Bool)
          → q x ≡ b
          → ((a ≡ x) × (p x ≡ true)) ⊎ ((p x ≡ false) × (find p xs ≡ some a))
          → (find p xs ≡ some a → find p (replace q new xs) ≡ some new)
          → find p (elim b [ true ↦ new | false ↦ x ] ∷ replace q new xs) ≡ some new
      go true hit cases rest = rw (fits, find) refl
      go false miss (inl (same, _)) rest = absurd (cc (ap q same, here, miss))
      go false miss (inr (passes, later)) rest = rw (passes, find) (rest later)

  -- What a row has passed is passed in a longer list.
  pub any-append : (p : A → Bool) (xs ys : List A) → any p ys ≡ true → any p (xs ++ ys) ≡ true
  any-append p [] ys h = h
  any-append p (x ∷ xs) ys h = go (p x) (any-append p xs ys h)
    where
      go :
          (b : Bool)
          → any p (xs ++ ys) ≡ true
          → (elim b [ true ↦ true | false ↦ any p (xs ++ ys) ]) ≡ true
      go true rest = refl
      go false rest = rest
