-- ===== src/Customers/Normalization.antt =====
-- apps/customers/normalization.py: documents, telephones, and the masks that hide them. The value
-- of a code point as a Unicode decimal digit (`\d` of `re`, and `int` of one character) is the
-- parameter `digit_value`; `lower` is `str.lower`.
pub mod CheckDigits
pub mod Documents
pub mod Phones
pub mod Masks
use vidalys_flow.Common.{
  ℕ, zero, suc, ◌+◌, ◌-◌, ◌*◌, ◌%◌, Bool, true, false, ◌&&◌, ◌||◌, Option, none, some, List, [],
  ◌∷◌, ◌++◌, map, length, ltb, leb, ◌==◌, if◌then◌else◌,
}
use vidalys_flow.Text.{Text, codes, strip, is_empty, text_eq, starts_with, take, last, repeat}

-- `value or ""`
abbrev pub or_empty : Option Text → Text
or_empty none = []
or_empty (some t) = t

abbrev pub is_some : Option ℕ → Bool
is_some none = false
is_some (some n) = true

abbrev pub value_or_zero : Option ℕ → ℕ
value_or_zero none = 0
value_or_zero (some n) = n

-- The sum of the numbers by weights that fall by one.
abbrev pub weighted : ℕ → List ℕ → ℕ
weighted w [] = 0
weighted w (n ∷ ns) = n * w + weighted (w - 1) ns

-- One turn of the loop of `_cpf_is_valid`: the digit that it appends.
unfoldable pub cpf_digit : List ℕ → ℕ
cpf_digit numbers =
    let remainder = weighted (length numbers + 1) numbers * 10 % 11 in
    if remainder == 10 then 0 else remainder

abbrev pub cpf_append : List ℕ → List ℕ
cpf_append numbers = numbers ++ cpf_digit numbers ∷ []

-- `sum(number * weight for number, weight in zip(numbers, weights))`
abbrev pub weighted_by : List ℕ → List ℕ → ℕ
weighted_by [] ns = 0
weighted_by (w ∷ ws) [] = 0
weighted_by (w ∷ ws) (n ∷ ns) = n * w + weighted_by ws ns

abbrev pub first_weights : List ℕ
first_weights = 5 ∷ 4 ∷ 3 ∷ 2 ∷ 9 ∷ 8 ∷ 7 ∷ 6 ∷ 5 ∷ 4 ∷ 3 ∷ 2 ∷ []

abbrev pub second_weights : List ℕ
second_weights = 6 ∷ 5 ∷ 4 ∷ 3 ∷ 2 ∷ 9 ∷ 8 ∷ 7 ∷ 6 ∷ 5 ∷ 4 ∷ 3 ∷ 2 ∷ []

-- One turn of the loop of `_cnpj_is_valid`.
unfoldable pub cnpj_digit : List ℕ → List ℕ → ℕ
cnpj_digit weights numbers =
    let remainder = weighted_by weights numbers % 11 in
    if ltb remainder 2 then 0 else 11 - remainder

abbrev pub cnpj_append : List ℕ → List ℕ → List ℕ
cnpj_append weights numbers = numbers ++ cnpj_digit weights numbers ∷ []

-- `str(number)` of a number of one digit.
abbrev pub digit_char : ℕ → ℕ
digit_char n = 48 + n

-- `len(set(t)) == 1`
abbrev pub one_character : Text → Bool
one_character [] = false
one_character (c ∷ []) = true
one_character (c ∷ d ∷ ds) = c == d && one_character (d ∷ ds)

-- `ValueError` with its two messages.
pub data DocumentError : Type 0 where
  repeated_digit not_a_document : DocumentError

pub data Document : Type 0 where
  normalized : Text → Document
  refused : DocumentError → Document

-- The branches of `normalize_phone` on the stripped text and on its digits.
unfoldable pub phone_of : Text → Text → Text
phone_of raw [] = []
phone_of raw (c ∷ cs) =
    let t = c ∷ cs in
    let n = length t in
    if starts_with (codes "+") raw
    then codes "+" ++ t
    else if n == 10 || n == 11
    then codes "+55" ++ t
    else if (n == 12 || n == 13) && starts_with (codes "55") t
    then codes "+" ++ t
    else codes "+" ++ t

module _ (digit_value : ℕ → Option ℕ) where
  unfoldable pub digits : Text → Text
  digits [] = []
  digits (c ∷ cs) = let rest = digits cs in if is_some (digit_value c) then c ∷ rest else rest

  abbrev pub int_of : ℕ → ℕ
  int_of c = value_or_zero (digit_value c)

  unfoldable pub cpf_is_valid : Text → Bool
  cpf_is_valid value =
      text_eq (map digit_char (cpf_append (cpf_append (map int_of (take 9 value))))) value

  unfoldable pub cnpj_is_valid : Text → Bool
  cnpj_is_valid value =
      text_eq
        (map digit_char
          (cnpj_append second_weights (cnpj_append first_weights (map int_of (take 12 value)))))
        value

  -- The tests of `normalize_document` on the digits that it keeps.
  unfoldable pub document_of : Text → Document
  document_of [] = normalized []
  document_of (c ∷ cs) =
      let t = c ∷ cs in
      if one_character t
      then refused repeated_digit
      else if length t == 11 && cpf_is_valid t
      then normalized t
      else if length t == 14 && cnpj_is_valid t
      then normalized t
      else refused not_a_document

  unfoldable pub normalize_document : Option Text → Document
  normalize_document value = document_of (digits (or_empty value))

  unfoldable pub normalize_phone : Option Text → Text
  normalize_phone value = let raw = strip (or_empty value) in phone_of raw (digits raw)

unfoldable pub normalize_email : (Text → Text) → Option Text → Text
normalize_email lower value = lower (strip (or_empty value))

unfoldable pub mask_document : Text → Text
mask_document [] = []
mask_document (c ∷ cs) =
    let t = c ∷ cs in repeat b'*' (if leb 4 (length t) then length t - 4 else 0) ++ last 4 t

-- `value.split("@", 1)`, where there is an `@`.
unfoldable pub split_at_sign : Text → Option (Text × Text)
split_at_sign [] = none
split_at_sign (c ∷ cs) =
    let rest = split_at_sign cs in
    elim (c == b'@') [
      | true ↦ some ([], cs)
      | false ↦ elim rest [ none ↦ none | some (local, domain) ↦ some (c ∷ local, domain) ]
    ]

abbrev pub mask_other : Text → Text
mask_other value = take 3 value ++ codes "****" ++ last 2 value

unfoldable pub mask_contact : Text → Text → Text
unfolding split_at_sign
mask_contact kind [] = []
mask_contact kind (c ∷ cs) =
    let value = c ∷ cs in
    if text_eq kind (codes "email")
    then elim (split_at_sign value) [
      | none ↦ mask_other value
      | some (local, domain) ↦ take 2 local ++ codes "***@" ++ domain
    ]
    else mask_other value
