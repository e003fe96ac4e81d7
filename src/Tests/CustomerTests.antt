-- ===== src/Tests/CustomerTests.antt =====
-- apps/customers at concrete inputs.
use vidalys_flow.Common.{
  ℕ, ◌-◌, ◌≡◌, refl, ◌⊎◌, inl, ◌&&◌, Option, none, some, [], ◌∷◌, arith, leb, if◌then◌else◌,
}
use vidalys_flow.Text.{Text, codes, is_space, lstrip, rstrip, strip}
use vidalys_flow.Customers.Normalization.{
  cpf_digit, digits, cpf_is_valid, document_of, normalize_document, normalized, phone_of,
  normalize_phone, mask_document, mask_contact,
}
use vidalys_flow.Customers.Normalization.CheckDigits.{IsDigitTable, IsCpf}
use vidalys_flow.Customers.Normalization.Documents.{
  IsDocument, normalize_document_sound, normalize_document_complete, normalize_document_idem,
}
use vidalys_flow.Customers.Normalization.Phones.{
  IsInternational, normalize_phone_shape, normalize_phone_idem,
}
use vidalys_flow.Customers.Normalization.Masks.{mask_document_hides, mask_contact_email}

-- The ASCII digits alone.
abbrev ascii_digit : ℕ → Option ℕ
ascii_digit c = if leb 48 c && leb c 57 then some (c - 48) else none

ascii_table : IsDigitTable ascii_digit
unfolding is_space
ascii_table = record {
  ascii = λ d h. ground arith;
  small = λ c d h. ground arith;
  solid = λ c h. ground arith;
  plus = refl;
}

abbrev cpf : Text
cpf = codes "52998224725"

cpf_accepted : normalize_document ascii_digit (some (codes "529.982.247-25")) ≡ normalized cpf
unfolding normalize_document document_of digits cpf_is_valid cpf_digit
cpf_accepted = refl

cpf-IsCpf : IsCpf cpf
cpf-IsCpf = record {
  base = 5 ∷ 2 ∷ 9 ∷ 9 ∷ 8 ∷ 2 ∷ 2 ∷ 4 ∷ 7 ∷ [];
  first = 2;
  second = 5;
  nine = refl;
  in_range = omega arith;
  first_checks = omega arith;
  second_checks = omega arith;
  written = refl;
}

normalize_document_sound_example :
    (cpf ≡ digits ascii_digit (codes "529.982.247-25")) × ((cpf ≡ []) ⊎ IsDocument cpf)
normalize_document_sound_example =
    normalize_document_sound ascii_digit ascii_table (some (codes "529.982.247-25")) cpf
      cpf_accepted

normalize_document_complete_example : normalize_document ascii_digit (some cpf) ≡ normalized cpf
normalize_document_complete_example =
    normalize_document_complete ascii_digit ascii_table cpf (refl, inl cpf-IsCpf)

normalize_document_idem_example : normalize_document ascii_digit (some cpf) ≡ normalized cpf
normalize_document_idem_example =
    normalize_document_idem ascii_digit ascii_table (some (codes "529.982.247-25")) cpf cpf_accepted

abbrev local_phone : Option Text
local_phone = some (codes " (11) 98765-4321 ")

phone_normalized : normalize_phone ascii_digit local_phone ≡ codes "+5511987654321"
unfolding normalize_phone phone_of digits strip lstrip rstrip is_space
phone_normalized = refl

normalize_phone_idem_example :
    normalize_phone ascii_digit (some (normalize_phone ascii_digit local_phone))
    ≡ normalize_phone ascii_digit local_phone
normalize_phone_idem_example = normalize_phone_idem ascii_digit ascii_table local_phone

normalize_phone_shape_example :
    (normalize_phone ascii_digit local_phone ≡ [])
    ⊎ IsInternational ascii_digit (normalize_phone ascii_digit local_phone)
normalize_phone_shape_example = normalize_phone_shape ascii_digit ascii_table local_phone

mask_document_hides_example : mask_document cpf ≡ mask_document (codes "11111114725")
mask_document_hides_example = mask_document_hides cpf (codes "11111114725") refl refl

masked_maria : mask_contact (codes "email") (codes "maria@example.com") ≡ codes "ma***@example.com"
masked_maria =
    mask_contact_email (codes "maria") (codes "example.com")
      (refl, (refl, (refl, (refl, (refl, tt)))))
