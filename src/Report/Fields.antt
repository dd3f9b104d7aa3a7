-- ===== src/Report/Fields.antt =====
-- A report read word by word holds the words of the report, in order: the law behind the decoders
-- that walk a tuple of words with a cursor.
use arpanet_redux.Prelude.{
  ℕ, zero, suc, ◌+◌, ◌≤◌, ◌<◌, ◌≡◌, refl, ap, sym, ◌∙◌, List, [], ◌∷◌, ◌++◌, length, drop, get_or,
  arith,
}

-- `words[offset], ..., words[offset + n - 1]`
abbrev pub reads : ℕ → ℕ → List ℕ → List ℕ
reads zero offset words = []
reads (suc n) offset words = get_or words offset 0 ∷ reads n (suc offset) words

drop-eq-cons : (i : ℕ) (ws : List ℕ) → i < length ws → drop i ws ≡ get_or ws i 0 ∷ drop (suc i) ws
drop-eq-cons i [] h = absurd (omega arith)
drop-eq-cons zero (w ∷ ws) h = refl
drop-eq-cons (suc i) (w ∷ ws) h = drop-eq-cons i ws (omega arith)

reads-append-drop :
    (n i j : ℕ) (ws : List ℕ) → n + i ≡ j → j ≤ length ws → reads n i ws ++ drop j ws ≡ drop i ws
reads-append-drop zero i j ws e h = ap (λ (k : ℕ). drop k ws) (omega arith)
reads-append-drop (suc n) i j ws e h =
    ap (λ ys. get_or ws i 0 ∷ ys) (reads-append-drop n (suc i) j ws (omega arith) h)
    ∙ sym (drop-eq-cons i ws (omega arith))

-- The first `n` words, read one by one, and the others are all the words.
pub reads-all : (n : ℕ) (ws : List ℕ) → n ≤ length ws → reads n 0 ws ++ drop n ws ≡ ws
reads-all n ws h = reads-append-drop n 0 n ws (omega arith) h
