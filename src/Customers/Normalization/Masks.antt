-- ===== src/Customers/Normalization/Masks.antt =====
-- What the masks of documents and of contacts keep, and what they hide.
use vidalys_flow.Common.{
  ℕ, ◌-◌, ◌≡◌, refl, ◌∙◌, ap, false, some, [], ◌∷◌, ◌++◌, All, arith, length, length-append, ◌==◌,
  leb, if◌then◌else◌,
}
use mathlib.Core.Path.{ap₂, sym}
use vidalys_flow.Text.{Text, codes, take, last, repeat}
use vidalys_flow.Text.Laws.{length-drop, length-repeat}
use vidalys_flow.Customers.Normalization.{mask_document, mask_contact, split_at_sign}

truncated : (n : ℕ) → (if leb 4 n then n - 4 else 0) ≡ n - 4
truncated n = ground arith

mask_document_lem : (t : Text) → mask_document t ≡ repeat b'*' (length t - 4) ++ last 4 t
unfolding mask_document
mask_document_lem [] = refl
mask_document_lem (c ∷ cs) =
    ap (λ n. repeat b'*' n ++ last 4 (c ∷ cs)) (truncated (length (c ∷ cs)))

-- A masked document is as long as the document.
pub length-mask_document : (t : Text) → length (mask_document t) ≡ length t
length-mask_document t =
    rw (mask_document_lem, length-append, length-repeat, length-drop) (omega arith)

-- The mask tells nothing of a document but its length and its last four characters.
pub mask_document_hides :
    (s t : Text) → length s ≡ length t → last 4 s ≡ last 4 t → mask_document s ≡ mask_document t
mask_document_hides s t n e =
    mask_document_lem s ∙ ap₂ (λ n u. repeat b'*' (n - 4) ++ u) n e ∙ sym (mask_document_lem t)

split_at_sign_first :
    (local domain : Text)
    → All (λ c. (c == b'@') ≡ false) local
    → split_at_sign (local ++ b'@' ∷ domain) ≡ some (local, domain)
unfolding split_at_sign
split_at_sign_first [] domain h = refl
split_at_sign_first (c ∷ cs) domain h = ground (arith, split_at_sign_first cs domain h.1)

-- An address is shown as two characters of its local part, three asterisks and its domain.
pub mask_contact_email :
    (local domain : Text)
    → All (λ c. (c == b'@') ≡ false) local
    → mask_contact (codes "email") (local ++ b'@' ∷ domain) ≡ take 2 local ++ codes "***@" ++ domain
unfolding mask_contact
mask_contact_email [] domain h = ground (arith, split_at_sign_first [] domain h)
mask_contact_email (c ∷ cs) domain h = rw (split_at_sign_first (c ∷ cs) domain h, mask_contact) refl
