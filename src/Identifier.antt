-- ===== src/Identifier.antt =====
-- The stable identifiers of the package: `_IDENTIFIER`, which ncc/reconciliation.py,
-- ncc/run_summary.py and ncc/message_journey.py each write, and sets of them as lists.
use arpanet_redux.Prelude.{
  ℕ, ◌≡◌, ◌≢◌, ◌↔◌, refl, Bool, true, false, not, ◌&&◌, ◌||◌, List, [], ◌∷◌, String, leb, ◌==◌,
  same_text, same_text_iff, characters, All, arith,
}

-- [A-Za-z0-9]
abbrev pub is_alphanumeric : ℕ → Bool
is_alphanumeric c =
    (leb b'A' c && leb c b'Z') || ((leb b'a' c && leb c b'z') || (leb b'0' c && leb c b'9'))

-- [A-Za-z0-9._:-]
abbrev pub is_identifier_character : ℕ → Bool
is_identifier_character c =
    is_alphanumeric c || (c == b'.' || (c == b'_' || (c == b':' || c == b'-')))

abbrev pub identifier_rest : List ℕ → Bool
identifier_rest [] = true
identifier_rest (c ∷ cs) = is_identifier_character c && identifier_rest cs

abbrev pub identifier_text : List ℕ → Bool
identifier_text [] = false
identifier_text (c ∷ cs) = is_alphanumeric c && identifier_rest cs

-- `_IDENTIFIER.fullmatch`
unfoldable pub is_identifier : String → Bool
is_identifier s = identifier_text (characters s)

abbrev pub contains_text : String → List String → Bool
contains_text s [] = false
contains_text s (t ∷ ts) = same_text s t || contains_text s ts

pub contains_text_iff :
    (s : String) (ts : List String) → (not (contains_text s ts) ≡ true) ↔ All (λ t. s ≢ t) ts
contains_text_iff s [] = (λ _. tt, λ _. refl)
contains_text_iff s (t ∷ ts) = ground (arith, same_text_iff s t, contains_text_iff s ts)
