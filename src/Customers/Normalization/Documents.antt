-- ===== src/Customers/Normalization/Documents.antt =====
-- `normalize_document` against the rule of the check digits.
use vidalys_flow.Common.{
  ℕ, ◌+◌, ◌<◌, ◌≡◌, refl, sym, ◌⊎◌, inl, inr, true, false, Option, some, List, [], ◌∷◌, ◌++◌, map,
  length, All, arith, Bool-cases,
}
use mathlib.Core.Path.{subst}
use vidalys_flow.Text.{Text}
use vidalys_flow.Customers.Normalization.{
  or_empty, is_some, digit_char, one_character, normalized, digits, cpf_is_valid, cnpj_is_valid,
  document_of, normalize_document,
}
use vidalys_flow.Customers.Normalization.CheckDigits
use vidalys_flow.Customers.Normalization.CheckDigits.{
  IsDigitTable, IsCpf, IsCnpj, length-map, length-snoc,
}

-- A CPF or a CNPJ that is not one digit repeated.
abbrev pub IsDocument : Text → Type 0
IsDocument t = (one_character t ≡ false) × (IsCpf t ⊎ IsCnpj t)

module _ (digit_value : ℕ → Option ℕ) (table : IsDigitTable digit_value) where
  digits-digits : (t : Text) → digits digit_value (digits digit_value t) ≡ digits digit_value t
  unfolding digits
  digits-digits [] = refl
  digits-digits (c ∷ cs) = elim (Bool-cases (is_some (digit_value c))) [
    | inl kept ↦ rw (kept, digits) (rw (kept, digits-digits cs) refl)
    | inr gone ↦ rw (gone, digits) (digits-digits cs)
  ]

  document_of_cases :
      (t u : Text)
      → document_of digit_value t ≡ normalized u
      → (u ≡ t) × ((t ≡ []) ⊎ ((one_character t ≡ false) × (IsCpf t ⊎ IsCnpj t)))
  unfolding document_of
  document_of_cases [] u h = ground arith
  document_of_cases (c ∷ cs) u h = ground (
    arith,
    CheckDigits.cpf_is_valid-IsCpf digit_value table (c ∷ cs),
    CheckDigits.cnpj_is_valid-IsCnpj digit_value table (c ∷ cs),
  )

  digits-digit_char :
      (ns : List ℕ)
      → All (λ n. n < 10) ns
      → digits digit_value (map digit_char ns) ≡ map digit_char ns
  unfolding digits
  digits-digit_char [] h = refl
  digits-digit_char (n ∷ ns) h = rw (table.ascii n h.0, digits-digit_char ns h.1) refl

  All-snoc :
      (ns : List ℕ) (a : ℕ) → All (λ n. n < 10) ns → a < 10 → All (λ n. n < 10) (ns ++ a ∷ [])
  All-snoc [] a h k = (k, tt)
  All-snoc (n ∷ ns) a h k = (h.0, All-snoc ns a h.1 k)

  -- The text of a base with two check digits, as the record has them, is all digits.
  digits_written :
      (ns : List ℕ) (a b : ℕ) (t : Text)
      → All (λ n. n < 10) ns
      → a < 10
      → b < 10
      → t ≡ map digit_char ((ns ++ a ∷ []) ++ b ∷ [])
      → digits digit_value t ≡ t
  digits_written ns a b t r ha hb w =
      rw w (digits-digit_char _ (All-snoc (ns ++ a ∷ []) b (All-snoc ns a r ha) hb))

  length_written :
      (ns : List ℕ) (a b : ℕ) (t : Text)
      → t ≡ map digit_char ((ns ++ a ∷ []) ++ b ∷ [])
      → length t ≡ length ns + 2
  length_written ns a b t w =
      rw (w, length-map, length-snoc (ns ++ a ∷ []) b, length-snoc ns a) (omega arith)

  document_of-cpf :
      (t : Text)
      → one_character t ≡ false
      → length t ≡ 11
      → cpf_is_valid digit_value t ≡ true
      → document_of digit_value t ≡ normalized t
  unfolding document_of
  document_of-cpf [] o n h = refl
  document_of-cpf (c ∷ cs) o n h = ground arith

  document_of-cnpj :
      (t : Text)
      → one_character t ≡ false
      → length t ≡ 14
      → cnpj_is_valid digit_value t ≡ true
      → document_of digit_value t ≡ normalized t
  unfolding document_of
  document_of-cnpj [] o n h = refl
  document_of-cnpj (c ∷ cs) o n h = ground arith

  -- What `normalize_document` returns is the digits of its argument, and is empty, a CPF or a CNPJ
  -- with the check digits of the rule, and not one digit repeated.
  pub normalize_document_sound :
      (value : Option Text) (u : Text)
      → normalize_document digit_value value ≡ normalized u
      → (u ≡ digits digit_value (or_empty value)) × ((u ≡ []) ⊎ IsDocument u)
  unfolding normalize_document
  normalize_document_sound value u h =
      let (same, cases) = document_of_cases (digits digit_value (or_empty value)) u h in
      (same, rw same cases)

  -- Every CPF and every CNPJ with the check digits of the rule is accepted and returned as it is,
  -- unless it is one digit repeated.
  pub normalize_document_complete :
      (t : Text) → IsDocument t → normalize_document digit_value (some t) ≡ normalized t
  unfolding normalize_document
  normalize_document_complete t (o, inl c) =
      rw
        (digits_written c.base c.first c.second t c.in_range c.first_checks.0 c.second_checks.0
          c.written)
        (document_of-cpf t o
          (omega (arith, length_written c.base c.first c.second t c.written, c.nine))
          (CheckDigits.IsCpf-cpf_is_valid digit_value table t c))
  normalize_document_complete t (o, inr c) =
      rw
        (digits_written c.base c.first c.second t c.in_range c.first_checks.0 c.second_checks.0
          c.written)
        (document_of-cnpj t o
          (omega (arith, length_written c.base c.first c.second t c.written, c.twelve))
          (CheckDigits.IsCnpj-cnpj_is_valid digit_value table t c))

  -- A second normalization changes nothing.
  pub normalize_document_idem :
      (value : Option Text) (u : Text)
      → normalize_document digit_value value ≡ normalized u
      → normalize_document digit_value (some u) ≡ normalized u
  unfolding normalize_document
  normalize_document_idem value u h =
      let t = digits digit_value (or_empty value) in
      let same = (document_of_cases t u h).0 in
      let kept : digits digit_value u ≡ u = rw same (digits-digits (or_empty value)) in
      rw kept (subst (λ x. document_of digit_value x ≡ normalized u) (sym same) h)
