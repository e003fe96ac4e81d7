-- ===== src/Payments/Soundness/Rows.antt =====
-- Sound rows: what a save and an insertion make of the table of attempts, and the changes of an
-- intent that keep it valid.
use vidalys_flow.Common.{
  ℕ, ◌≡◌, refl, inl, inr, Bool, true, false, not, ◌&&◌, List, [], ◌∷◌, All, any, replace, ◌==◌,
  ==_self, Bool-cases, arith, ◌∙◌,
}
use vidalys_flow.Text.{Text, is_empty, text_eq}
use vidalys_flow.Payments.Tables.{PaymentAttempt, is_open}
use vidalys_flow.Payments.Services.{conflicts}
use vidalys_flow.Payments.Soundness.{IsExclusive}

module _ {A : Type 0} where
  any-false : (q : A → Bool) (xs : List A) → any q xs ≡ false → All (λ x. q x ≡ false) xs
  any-false q [] h = tt
  any-false q (x ∷ xs) h = elim (Bool-cases (q x)) [
    | inl hit ↦ absurd (ground arith)
    | inr miss ↦ (miss, any-false q xs (ground arith))
  ]

  any_none : (q : A → Bool) (xs : List A) → All (λ x. q x ≡ false) xs → any q xs ≡ false
  any_none q [] h = refl
  any_none q (x ∷ xs) (h, hs) = rw (any, h) (any_none q xs hs)

  -- A predicate on the rows after a save, from what holds of the old rows and of the saved one.
  replace-All_of :
      (P Q R : A → Type 0) (p : A → Bool) (a : A) (xs : List A)
      → ((x : A) → P x → Q x → R x)
      → R a
      → All P xs
      → All Q xs
      → All R (replace p a xs)
  replace-All_of P Q R p a [] f ra ps qs = tt
  replace-All_of P Q R p a (x ∷ xs) f ra (h, ps) (k, qs) =
      (go (p x), replace-All_of P Q R p a xs f ra ps qs)
    where
      go : (b : Bool) → R (elim b [ true ↦ a | false ↦ x ])
      go true = ra
      go false = f x h k

  any-replace :
      (q p : A → Bool) (a : A) (xs : List A)
      → q a ≡ false
      → any q xs ≡ false
      → any q (replace p a xs) ≡ false
  any-replace q p a xs qa h = any_none q (replace p a xs) (
      replace-All_of (λ x. q x ≡ false) (λ x. q x ≡ false) (λ x. q x ≡ false) p a xs (λ x h _. h) qa
        (any-false q xs h) (any-false q xs h))

==_comm : (a b : ℕ) → (a == b) ≡ (b == a)
==_comm a b = ground arith

text_eq_comm : (a b : Text) → text_eq a b ≡ text_eq b a
text_eq_comm [] [] = refl
text_eq_comm [] (c ∷ cs) = refl
text_eq_comm (c ∷ cs) [] = refl
text_eq_comm (c ∷ cs) (d ∷ ds) = rw (==_comm c d, text_eq_comm cs ds) refl

conflicts_self : (a : PaymentAttempt) → conflicts a a ≡ false
conflicts_self a = rw (==_self a.id) refl

-- Texts that are equal are empty together.
same_texts : (a b : Text) → (not (is_empty a) && text_eq b a) ≡ (not (is_empty b) && text_eq a b)
same_texts [] [] = refl
same_texts [] (c ∷ cs) = refl
same_texts (c ∷ cs) [] = refl
same_texts (c ∷ cs) (d ∷ ds) = text_eq_comm (d ∷ ds) (c ∷ cs)

and_swap : (x a b : Bool) → (x && a && b) ≡ (x && b && a)
and_swap false a b = refl
and_swap true false false = refl
and_swap true false true = refl
and_swap true true false = refl
and_swap true true true = refl

and_inside : (x a b c d : Bool) → (a && b) ≡ (c && d) → (x && a && b) ≡ (x && c && d)
and_inside false a b c d h = refl
and_inside true a b c d h = h

conflicts_comm : (a b : PaymentAttempt) → conflicts a b ≡ conflicts b a
conflicts_comm a b =
    rw
      (
        ==_comm b.id a.id,
        ==_comm b.intent a.intent,
        ==_comm b.provider_account a.provider_account,
        and_swap (a.intent == b.intent) (is_open a.status) (is_open b.status),
        and_inside (a.provider_account == b.provider_account)
            (not (is_empty a.external_resource_id))
            (text_eq b.external_resource_id a.external_resource_id)
            (not (is_empty b.external_resource_id))
            (text_eq a.external_resource_id b.external_resource_id)
            (same_texts a.external_resource_id b.external_resource_id),
      )
      refl

-- A save that conflicts with no row.
pub replace-IsExclusive :
    (a : PaymentAttempt) (p : PaymentAttempt → Bool) (rows : List PaymentAttempt)
    → any (conflicts a) rows ≡ false
    → IsExclusive rows
    → IsExclusive (replace p a rows)
replace-IsExclusive a p rows free exclusive =
    replace-All_of (λ b. any (conflicts b) rows ≡ false) (λ b. conflicts a b ≡ false)
      (λ b. any (conflicts b) (replace p a rows) ≡ false) p a rows
      (λ b h k. any-replace (conflicts b) p a rows (conflicts_comm b a ∙ k) h)
      (any-replace (conflicts a) p a rows (conflicts_self a) free) exclusive
      (any-false (conflicts a) rows free)

insert_All :
    (a : PaymentAttempt) (rows tested : List PaymentAttempt)
    → All (λ b. any (conflicts b) tested ≡ false) rows
    → All (λ b. conflicts a b ≡ false) rows
    → All (λ b. any (conflicts b) (a ∷ tested) ≡ false) rows
insert_All a [] tested hs ks = tt
insert_All a (b ∷ rows) tested (h, hs) (k, ks) =
    (rw (any, conflicts_comm b a, k) h, insert_All a rows tested hs ks)

-- An insertion that conflicts with no row.
pub insert-IsExclusive :
    (a : PaymentAttempt) (rows : List PaymentAttempt)
    → any (conflicts a) rows ≡ false
    → IsExclusive rows
    → IsExclusive (a ∷ rows)
insert-IsExclusive a rows free exclusive = (
  rw (any, conflicts_self a) free,
  insert_All a rows rows exclusive (any-false (conflicts a) rows free),
)
