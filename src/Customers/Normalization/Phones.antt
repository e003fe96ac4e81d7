-- ===== src/Customers/Normalization/Phones.antt =====
-- The shape of a normalized telephone, and that a second normalization changes nothing.
use vidalys_flow.Common.{
  ℕ, ◌≡◌, ◌≢◌, refl, ◌⊎◌, inl, inr, true, false, Option, some, [], ◌∷◌, ◌++◌, All, arith,
  Bool-cases,
}
use vidalys_flow.Text.{Text, is_space, strip, lstrip, rstrip, codes, starts_with}
use vidalys_flow.Text.Laws.{strip_solid}
use vidalys_flow.Customers.Normalization.{or_empty, is_some, digits, phone_of, normalize_phone}
use vidalys_flow.Customers.Normalization.CheckDigits.{IsDigitTable}

-- A plus sign and at least one digit.
pub record IsInternational (digit_value : ℕ → Option ℕ) (t : Text) : Type 0 where
  pub first : ℕ
  pub rest : Text
  pub shape : t ≡ b'+' ∷ first ∷ rest
  pub are_digits : All (λ c. is_some (digit_value c) ≡ true) (first ∷ rest)

phone_of_forms :
    (raw : Text) (c : ℕ) (cs : Text)
    → (phone_of raw (c ∷ cs) ≡ b'+' ∷ c ∷ cs) ⊎ (phone_of raw (c ∷ cs) ≡ b'+' ∷ 53 ∷ 53 ∷ c ∷ cs)
unfolding phone_of
phone_of_forms raw c cs = ground arith

phone_of_plus :
    (raw t : Text) → t ≢ [] → starts_with (codes "+") raw ≡ true → phone_of raw t ≡ codes "+" ++ t
unfolding phone_of
phone_of_plus raw [] n h = absurd (n refl)
phone_of_plus raw (c ∷ cs) n h = rw h refl

module _ (digit_value : ℕ → Option ℕ) (table : IsDigitTable digit_value) where
  abbrev IsDigit : ℕ → Type 0
  IsDigit c = is_some (digit_value c) ≡ true

  digits-All : (t : Text) → All IsDigit (digits digit_value t)
  unfolding digits
  digits-All [] = tt
  digits-All (c ∷ cs) = elim (Bool-cases (is_some (digit_value c))) [
    | inl kept ↦ rw kept (kept, digits-All cs)
    | inr gone ↦ rw gone (digits-All cs)
  ]

  digits_of_All : (t : Text) → All IsDigit t → digits digit_value t ≡ t
  unfolding digits
  digits_of_All [] h = refl
  digits_of_All (c ∷ cs) h = rw (h.0, digits_of_All cs h.1) refl

  All-solid : (t : Text) → All IsDigit t → All (λ c. is_space c ≡ false) t
  All-solid [] h = tt
  All-solid (c ∷ cs) h = (table.solid c h.0, All-solid cs h.1)

  five : IsDigit 53
  five = rw (table.ascii 5 (omega arith)) refl

  phone_of-IsInternational :
      (raw t : Text)
      → All IsDigit t
      → (phone_of raw t ≡ []) ⊎ IsInternational digit_value (phone_of raw t)
  unfolding phone_of
  phone_of-IsInternational raw [] h = inl refl
  phone_of-IsInternational raw (c ∷ cs) h = elim (phone_of_forms raw c cs) [
    | inl e ↦ inr (record { first = c; rest = cs; shape = e; are_digits = h })
    | inr e ↦
        inr (record { first = 53; rest = 53 ∷ c ∷ cs; shape = e; are_digits = (five, (five, h)) })
  ]

  digits_plus : (t : Text) → digits digit_value (b'+' ∷ t) ≡ digits digit_value t
  unfolding digits
  digits_plus t = rw table.plus refl

  plus_solid : is_space b'+' ≡ false
  unfolding is_space
  plus_solid = refl

  normalize_phone_fixed :
      (t : Text) → IsInternational digit_value t → normalize_phone digit_value (some t) ≡ t
  unfolding normalize_phone phone_of
  normalize_phone_fixed t i =
      let s : strip (b'+' ∷ i.first ∷ i.rest) ≡ b'+' ∷ i.first ∷ i.rest =
        strip_solid _ (plus_solid, All-solid (i.first ∷ i.rest) i.are_digits) in
      rw (i.shape, s, digits_plus (i.first ∷ i.rest), digits_of_All (i.first ∷ i.rest) i.are_digits)
        refl

  -- A normalized telephone is empty, or a plus sign and digits.
  pub normalize_phone_shape :
      (value : Option Text)
      → (normalize_phone digit_value value ≡ [])
        ⊎ IsInternational digit_value (normalize_phone digit_value value)
  unfolding normalize_phone
  normalize_phone_shape value =
      let raw = strip (or_empty value) in
      phone_of-IsInternational raw (digits digit_value raw) (digits-All raw)

  -- Digits of a text that begins with a plus sign follow it at once.
  pub normalize_phone_plus :
      (value : Option Text)
      → digits digit_value (strip (or_empty value)) ≢ []
      → starts_with (codes "+") (strip (or_empty value)) ≡ true
      → normalize_phone digit_value value ≡ codes "+" ++ digits digit_value (strip (or_empty value))
  unfolding normalize_phone
  normalize_phone_plus value =
      let raw = strip (or_empty value) in phone_of_plus raw (digits digit_value raw)

  -- A second normalization changes nothing.
  pub normalize_phone_idem :
      (value : Option Text)
      → normalize_phone digit_value (some (normalize_phone digit_value value))
        ≡ normalize_phone digit_value value
  normalize_phone_idem value = elim (normalize_phone_shape value) [
    | inl e ↦ rw e (unfold normalize_phone phone_of digits strip lstrip rstrip in refl)
    | inr i ↦ normalize_phone_fixed _ i
  ]
