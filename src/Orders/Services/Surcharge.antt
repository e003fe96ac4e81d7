-- ===== src/Orders/Services/Surcharge.antt =====
-- `_normalized_text` and `_validate_surcharge` of apps/orders/services.py. The decomposition NFKD
-- of `unicodedata` is the parameter `nfkd`.
use vidalys_flow.Common.{
  ℕ, ◌+◌, Bool, ◌&&◌, ◌||◌, not, List, [], ◌∷◌, map, any, select, leb, ltb, ◌==◌, if◌then◌else◌,
}
use vidalys_flow.Text.{Text, codes, is_space, strip, is_empty, contains, text_eq}
use vidalys_flow.Transaction.{raise_if, ◌>>◌}
use vidalys_flow.Orders.Errors.{OrderService, invalid_item, reason_required}

abbrev pub to_lower : ℕ → ℕ
to_lower c = if leb b'A' c && leb c b'Z' then c + 32 else c

-- `.encode("ascii", "ignore").decode().lower()` after NFKD.
unfoldable pub normalized_text : (Text → Text) → Text → Text
normalized_text nfkd value = map to_lower (select (λ c. ltb c 128) (nfkd value))

-- `t.split()`: the runs of characters that are no space.
abbrev pub push_word : Text → List Text → List Text
push_word [] ws = ws
push_word (c ∷ cs) ws = (c ∷ cs) ∷ ws

-- The word that the text begins with (empty at a space), and the words after it.
unfoldable pub split_from : Text → Text × List Text
split_from [] = ([], [])
split_from (c ∷ cs) =
    let (word, ws) = split_from cs in if is_space c then ([], push_word word ws) else (c ∷ word, ws)

unfoldable pub split : Text → List Text
unfolding split_from
split t = let (word, ws) = split_from t in push_word word ws

abbrev pub forbidden : List Text
forbidden =
    codes "frete"
    ∷ codes "shipping"
    ∷ codes "imposto"
    ∷ codes "tributo"
    ∷ codes "juros"
    ∷ codes "interest"
    ∷ codes "taxa de pagamento"
    ∷ []

unfoldable pub is_forbidden : Text → Bool
unfolding split
is_forbidden normalized =
    any (λ term. contains term normalized) forbidden
    || any (text_eq (codes "tax")) (split normalized)

abbrev pub validate_surcharge : (Text → Text) → ℕ → Text → OrderService (Unit {0})
validate_surcharge nfkd amount reason =
    if amount == 0 then raise_if (not (is_empty (strip reason))) invalid_item else do
      raise_if (is_empty (strip reason)) reason_required
      raise_if (is_forbidden (normalized_text nfkd reason)) invalid_item
