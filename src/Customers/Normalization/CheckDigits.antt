-- ===== src/Customers/Normalization/CheckDigits.antt =====
-- The check digits of a CPF and of a CNPJ by the published rule of the modulus 11, and the two
-- loops of `apps/customers/normalization.py` that compute them.
use vidalys_flow.Common.{
  ℕ, zero, suc, ◌+◌, ◌%◌, ◌≤◌, ◌<◌, ◌≡◌, refl, sym, ap, ◌∙◌, ◌⊎◌, inl, inr, true, false, Option,
  none, some, List, [], ◌∷◌, ◌++◌, map, length, All, arith, Option-cases,
}
use mathlib.Core.List.{append_assoc}
use vidalys_flow.Text.{Text, is_space, take}
use vidalys_flow.Text.Laws.{text_eq_self, text_eq→eq}
use vidalys_flow.Customers.Normalization.{
  is_some, weighted, cpf_digit, cpf_append, weighted_by, first_weights, second_weights, cnpj_digit,
  digit_char, int_of, cpf_is_valid, cnpj_is_valid,
}

-- What Python documents of `\d`, `int` and `str.isspace`, as far as the module relies on it.
pub record IsDigitTable (digit_value : ℕ → Option ℕ) : Type 0 where
  pub ascii : (d : ℕ) → d < 10 → digit_value (48 + d) ≡ some d
  pub small : (c d : ℕ) → digit_value c ≡ some d → d < 10
  pub solid : (c : ℕ) → is_some (digit_value c) ≡ true → is_space c ≡ false
  pub plus : digit_value b'+' ≡ none

-- The rule of the modulus 11: the check digit completes the weighted sum to a multiple of 11, and
-- is 0 where only 10 would do.
abbrev pub CheckDigit : ℕ → ℕ → Type 0
CheckDigit total d = (d < 10) × (((total + d) % 11 ≡ 0) ⊎ ((total % 11 ≡ 1) × (d ≡ 0)))

CheckDigit-unique : (total a b : ℕ) → CheckDigit total a → CheckDigit total b → a ≡ b
CheckDigit-unique total a b h k = omega arith

pub cpf_digit-CheckDigit : (ns : List ℕ) → CheckDigit (weighted (length ns + 1) ns) (cpf_digit ns)
unfolding cpf_digit
cpf_digit-CheckDigit ns = ground arith

pub cnpj_digit-CheckDigit : (ws ns : List ℕ) → CheckDigit (weighted_by ws ns) (cnpj_digit ws ns)
unfolding cnpj_digit
cnpj_digit-CheckDigit ws ns = ground arith

-- Eleven digits, the last two of which check the nine and the ten before.
pub record IsCpf (t : Text) : Type 0 where
  pub base : List ℕ
  pub first : ℕ
  pub second : ℕ
  pub nine : length base ≡ 9
  pub in_range : All (λ n. n < 10) base
  pub first_checks : CheckDigit (weighted 10 base) first
  pub second_checks : CheckDigit (weighted 11 (base ++ first ∷ [])) second
  pub written : t ≡ map digit_char ((base ++ first ∷ []) ++ second ∷ [])

-- Fourteen digits, the last two of which check the twelve and the thirteen before.
pub record IsCnpj (t : Text) : Type 0 where
  pub base : List ℕ
  pub first : ℕ
  pub second : ℕ
  pub twelve : length base ≡ 12
  pub in_range : All (λ n. n < 10) base
  pub first_checks : CheckDigit (weighted_by first_weights base) first
  pub second_checks : CheckDigit (weighted_by second_weights (base ++ first ∷ [])) second
  pub written : t ≡ map digit_char ((base ++ first ∷ []) ++ second ∷ [])

length-take_of_le : (n : ℕ) (t : Text) → n ≤ length t → length (take n t) ≡ n
length-take_of_le zero t h = refl
length-take_of_le (suc n) [] h = absurd (omega arith)
length-take_of_le (suc n) (c ∷ cs) h = ap suc (length-take_of_le n cs (omega arith))

pub length-map : (f : ℕ → ℕ) (t : List ℕ) → length (map f t) ≡ length t
length-map f [] = refl
length-map f (c ∷ cs) = ap suc (length-map f cs)

pub length-snoc : (ns : List ℕ) (d : ℕ) → length (ns ++ d ∷ []) ≡ length ns + 1
length-snoc [] d = omega arith
length-snoc (n ∷ ns) d = omega (arith, length-snoc ns d)

take-map-append : (f : ℕ → ℕ) (ns ms : List ℕ) → take (length ns) (map f (ns ++ ms)) ≡ map f ns
take-map-append f [] ms = refl
take-map-append f (n ∷ ns) ms = ap (λ t. f n ∷ t) (take-map-append f ns ms)

module _ (digit_value : ℕ → Option ℕ) (table : IsDigitTable digit_value) where
  int_of-in_range : (c : ℕ) → int_of digit_value c < 10
  int_of-in_range c = elim (Option-cases (digit_value c)) [
    | inl e ↦ rw e (omega arith)
    | inr (d, e) ↦ rw e (table.small c d e)
  ]

  map-int_of-in_range : (t : Text) → All (λ n. n < 10) (map (int_of digit_value) t)
  map-int_of-in_range [] = tt
  map-int_of-in_range (c ∷ cs) = (int_of-in_range c, map-int_of-in_range cs)

  pub int_of-digit_char :
      (ns : List ℕ) → All (λ n. n < 10) ns → map (int_of digit_value) (map digit_char ns) ≡ ns
  int_of-digit_char [] h = refl
  int_of-digit_char (n ∷ ns) h = rw (table.ascii n h.0, int_of-digit_char ns h.1) refl

  -- The two loops accept exactly the texts of the rule.
  pub cpf_is_valid-IsCpf : (t : Text) → length t ≡ 11 → cpf_is_valid digit_value t ≡ true → IsCpf t
  unfolding cpf_is_valid
  cpf_is_valid-IsCpf t n h =
      let base = map (int_of digit_value) (take 9 t) in
      let nine : length base ≡ 9 =
        length-map (int_of digit_value) (take 9 t) ∙ length-take_of_le 9 t (omega arith) in
      record {
        base = base;
        first = cpf_digit base;
        second = cpf_digit (cpf_append base);
        nine = nine;
        in_range = map-int_of-in_range (take 9 t);
        first_checks = rw nine at (cpf_digit-CheckDigit base);
        second_checks =
            rw (length-snoc base (cpf_digit base), nine) at
              (cpf_digit-CheckDigit (cpf_append base));
        written = sym (text_eq→eq _ t h);
      }

  take_base :
      (k : ℕ) (ns : List ℕ) (a b : ℕ) (t : Text)
      → length ns ≡ k
      → All (λ n. n < 10) ns
      → t ≡ map digit_char ((ns ++ a ∷ []) ++ b ∷ [])
      → map (int_of digit_value) (take k t) ≡ ns
  take_base k ns a b t n r w = rw (w, append_assoc, ← n, take-map-append) (int_of-digit_char ns r)

  pub IsCpf-cpf_is_valid : (t : Text) → IsCpf t → cpf_is_valid digit_value t ≡ true
  unfolding cpf_is_valid
  IsCpf-cpf_is_valid t c =
      let read = take_base 9 c.base c.first c.second t c.nine c.in_range c.written in
      let f =
        CheckDigit-unique (weighted 10 c.base) (cpf_digit c.base) c.first
          (rw c.nine at (cpf_digit-CheckDigit c.base)) c.first_checks in
      let s =
        CheckDigit-unique (weighted 11 (c.base ++ c.first ∷ []))
          (cpf_digit (c.base ++ c.first ∷ [])) c.second
          (rw (length-snoc c.base c.first, c.nine) at
            (cpf_digit-CheckDigit (c.base ++ c.first ∷ [])))
          c.second_checks in
      rw (read, f, s)
        (rw c.written (text_eq_self (map digit_char ((c.base ++ c.first ∷ []) ++ c.second ∷ []))))

  pub cnpj_is_valid-IsCnpj :
      (t : Text) → length t ≡ 14 → cnpj_is_valid digit_value t ≡ true → IsCnpj t
  unfolding cnpj_is_valid
  cnpj_is_valid-IsCnpj t n h =
      let base = map (int_of digit_value) (take 12 t) in
      let twelve : length base ≡ 12 =
        length-map (int_of digit_value) (take 12 t) ∙ length-take_of_le 12 t (omega arith) in
      let first = cnpj_digit first_weights base in
      record {
        base = base;
        first = first;
        second = cnpj_digit second_weights (base ++ first ∷ []);
        twelve = twelve;
        in_range = map-int_of-in_range (take 12 t);
        first_checks = cnpj_digit-CheckDigit first_weights base;
        second_checks = cnpj_digit-CheckDigit second_weights (base ++ first ∷ []);
        written = sym (text_eq→eq _ t h);
      }

  pub IsCnpj-cnpj_is_valid : (t : Text) → IsCnpj t → cnpj_is_valid digit_value t ≡ true
  unfolding cnpj_is_valid
  IsCnpj-cnpj_is_valid t c =
      let read = take_base 12 c.base c.first c.second t c.twelve c.in_range c.written in
      let f =
        CheckDigit-unique (weighted_by first_weights c.base) (cnpj_digit first_weights c.base)
          c.first (cnpj_digit-CheckDigit first_weights c.base) c.first_checks in
      let s =
        CheckDigit-unique (weighted_by second_weights (c.base ++ c.first ∷ []))
          (cnpj_digit second_weights (c.base ++ c.first ∷ [])) c.second
          (cnpj_digit-CheckDigit second_weights (c.base ++ c.first ∷ [])) c.second_checks in
      rw (read, f, s)
        (rw c.written (text_eq_self (map digit_char ((c.base ++ c.first ∷ []) ++ c.second ∷ []))))
