-- ===== src/Text/Laws.antt =====
-- Laws of the text operations.
use vidalys_flow.Common.{
  ℕ, zero, suc, ◌-◌, ◌≡◌, refl, inl, inr, true, false, ◌&&◌, [], ◌∷◌, length, All, arith, ap,
  ==_self, Bool-cases,
}
use vidalys_flow.Text.{Text, is_space, lstrip, rstrip, strip, is_empty, text_eq, drop, repeat}

pub text_eq_self : (t : Text) → text_eq t t ≡ true
text_eq_self [] = refl
text_eq_self (c ∷ cs) = rw (==_self c) (text_eq_self cs)

pub text_eq→eq : (s t : Text) → text_eq s t ≡ true → s ≡ t
text_eq→eq [] [] h = refl
text_eq→eq [] (d ∷ ds) h = cc
text_eq→eq (c ∷ cs) [] h = cc
text_eq→eq (c ∷ cs) (d ∷ ds) h = ground (arith, text_eq→eq cs ds)

-- A text with no space in it is left alone by `strip`.
rstrip_solid : (t : Text) → All (λ c. is_space c ≡ false) t → rstrip t ≡ t
unfolding rstrip
rstrip_solid [] h = refl
rstrip_solid (c ∷ cs) h = rw (h.0, rstrip_solid cs h.1) refl

pub strip_solid : (t : Text) → All (λ c. is_space c ≡ false) t → strip t ≡ t
unfolding strip lstrip
strip_solid [] h = rstrip_solid [] h
strip_solid (c ∷ cs) h = rw (h.0, lstrip) (rstrip_solid (c ∷ cs) h)

-- What `strip` returns begins with no space, so a second `strip` changes nothing.
rstrip-rstrip : (t : Text) → rstrip (rstrip t) ≡ rstrip t
unfolding rstrip
rstrip-rstrip [] = refl
rstrip-rstrip (c ∷ cs) = elim (Bool-cases (is_space c && is_empty (rstrip cs))) [
  | inl gone ↦ rw gone refl
  | inr kept ↦ rw kept (rw (rstrip-rstrip cs, kept) refl)
]

lstrip_headed :
    (c : ℕ) (cs : Text)
    → is_space c ≡ false
    → lstrip (rstrip (lstrip (c ∷ cs))) ≡ rstrip (lstrip (c ∷ cs))
unfolding lstrip rstrip
lstrip_headed c cs solid = ground arith

lstrip-rstrip-lstrip : (t : Text) → lstrip (rstrip (lstrip t)) ≡ rstrip (lstrip t)
unfolding lstrip rstrip
lstrip-rstrip-lstrip [] = refl
lstrip-rstrip-lstrip (c ∷ cs) = elim (Bool-cases (is_space c)) [
  | inl space ↦ rw (space, lstrip) (lstrip-rstrip-lstrip cs)
  | inr solid ↦ lstrip_headed c cs solid
]

pub strip-strip : (t : Text) → strip (strip t) ≡ strip t
unfolding strip
strip-strip t = rw lstrip-rstrip-lstrip (rstrip-rstrip (lstrip t))

pub length-drop : (n : ℕ) (t : Text) → length (drop n t) ≡ length t - n
length-drop zero t = omega arith
length-drop (suc n) [] = omega arith
length-drop (suc n) (c ∷ cs) = omega (arith, length-drop n cs)

pub length-repeat : (c n : ℕ) → length (repeat c n) ≡ n
length-repeat c zero = refl
length-repeat c (suc n) = ap suc (length-repeat c n)
