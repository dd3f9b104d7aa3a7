-- ===== src/Report/Checksum/Laws.antt =====
-- The checksum against its plain description: the words sum to zero modulo 2 ^ 16.
use arpanet_redux.Prelude.{
  ℕ, suc, ◌+◌, ◌-◌, ◌%◌, ◌<◌, ◌≡◌, refl, sym, ap, ◌∙◌, Bool, List, [], ◌∷◌, ◌++◌, map, ◌==◌, Result,
  ok, err, ◌>>=◌, >>=-eq-ok, >>=-ok, >>=_assoc, Result-cases, inl, inr, length, All, arith,
}
use native.Mathlib.Nat.{add-zero, suc-add, add-suc}
use arpanet_redux.Report.Checksum.{
  Value, nat, negative, other, ReportError, words_of, validate_word, checksum_loop, report_checksum,
  has_valid_report_checksum,
}

abbrev pub IsWord : ℕ → Type 0
IsWord w = w < 65536

abbrev pub sum : List ℕ → ℕ
sum [] = 0
sum (w ∷ ws) = w + sum ws

-- A value passes exactly when it is a word, and then it is that word.
pub validate_word-eq-ok :
    (o : ℕ) (v : Value) (w : ℕ) → validate_word o v ≡ ok w → (v ≡ nat w) × IsWord w
unfolding validate_word
validate_word-eq-ok o (nat n) w h = ground arith
validate_word-eq-ok o (negative n) w h = cc
validate_word-eq-ok o other w h = cc

pub validate_word-nat : (o w : ℕ) → IsWord w → validate_word o (nat w) ≡ ok w
unfolding validate_word
validate_word-nat o w h = ground arith

pub words_of-map : (o : ℕ) (ws : List ℕ) → All IsWord ws → words_of o (map nat ws) ≡ ok ws
unfolding words_of
words_of-map o [] h = refl
words_of-map o (w ∷ ws) h = ground (arith, validate_word-nat o w h.0, words_of-map (suc o) ws h.1)

pub words_of-eq-ok :
    (o : ℕ) (vs : List Value) (ws : List ℕ)
    → words_of o vs ≡ ok ws
    → (vs ≡ map nat ws) × All IsWord ws
unfolding words_of
words_of-eq-ok o [] [] h = (refl, tt)
words_of-eq-ok o [] (w ∷ ws) h = cc
words_of-eq-ok o (v ∷ vs) ws h =
    let (w, e, h') = >>=-eq-ok (validate_word o v) _ h in
    let (rest, e', h'') = >>=-eq-ok (words_of (suc o) vs) _ h' in
    ground (arith, validate_word-eq-ok o v w e, words_of-eq-ok (suc o) vs rest e')

mod_step : (t w s : ℕ) → ((t + w) % 65536 + s) % 65536 ≡ (t + (w + s)) % 65536
mod_step t w s = omega arith

add_word :
    (t w : ℕ) (r : Result ReportError (List ℕ))
    → (r >>= λ ws. ok (((t + w) % 65536 + sum ws) % 65536))
      ≡ ((r >>= λ rest. ok (w ∷ rest)) >>= λ ws. ok ((t + sum ws) % 65536))
add_word t w (ok ws) = ap ok (mod_step t w (sum ws))
add_word t w (err e) = refl

-- The loop adds up the words, modulo 2 ^ 16, or raises for the first value that is no word.
pub checksum_loop-eq :
    (o t : ℕ) (vs : List Value)
    → t < 65536
    → checksum_loop o t vs ≡ (words_of o vs >>= λ ws. ok ((t + sum ws) % 65536))
unfolding checksum_loop words_of
checksum_loop-eq o t [] h = ap ok (omega arith)
checksum_loop-eq o t (v ∷ vs) h = elim (Result-cases (validate_word o v)) [
  | inl (w, e) ↦
      rw (e, checksum_loop-eq (suc o) ((t + w) % 65536) vs (omega arith))
        (add_word t w (words_of (suc o) vs))
  | inr (x, e) ↦ rw e
]

pub has_valid-words :
    (ws : List ℕ)
    → All IsWord ws
    → has_valid_report_checksum (map nat ws) ≡ ok (sum ws % 65536 == 0)
unfolding has_valid_report_checksum
has_valid-words ws h =
    rw (checksum_loop-eq 0 0 (map nat ws) (omega arith), words_of-map 0 ws h)
      (ap (λ (n : ℕ). ok (n % 65536 == 0)) (omega arith))

pub report_checksum-words :
    (ws : List ℕ)
    → All IsWord ws
    → report_checksum (map nat ws) ≡ ok ((65536 - sum ws % 65536) % 65536)
unfolding report_checksum
report_checksum-words ws h =
    rw (checksum_loop-eq 0 0 (map nat ws) (omega arith), words_of-map 0 ws h)
      (ap (λ (n : ℕ). ok ((65536 - n % 65536) % 65536)) (omega arith))

-- Both functions return only on words.
pub report_checksum-IsWord :
    (vs : List Value) (c : ℕ) → report_checksum vs ≡ ok c → (ws : List ℕ) × (words_of 0 vs ≡ ok ws)
unfolding report_checksum
report_checksum-IsWord vs c h =
    let (t, e, h') = >>=-eq-ok (checksum_loop 0 0 vs) _ h in
    let (ws, e', h'') =
      >>=-eq-ok (words_of 0 vs) _ (sym (checksum_loop-eq 0 0 vs (omega arith)) ∙ e) in
    (ws, e')

pub has_valid-IsWord :
    (vs : List Value) (b : Bool)
    → has_valid_report_checksum vs ≡ ok b
    → (ws : List ℕ) × (words_of 0 vs ≡ ok ws)
unfolding has_valid_report_checksum
has_valid-IsWord vs b h =
    let (t, e, h') = >>=-eq-ok (checksum_loop 0 0 vs) _ h in
    let (ws, e', h'') =
      >>=-eq-ok (words_of 0 vs) _ (sym (checksum_loop-eq 0 0 vs (omega arith)) ∙ e) in
    (ws, e')

pub sum-append : (xs ys : List ℕ) → sum (xs ++ ys) ≡ sum xs + sum ys
sum-append [] ys = omega arith
sum-append (x ∷ xs) ys = omega (arith, sum-append xs ys)

-- Validation of a concatenation, at the offsets that the words have there.
pub words_of-append :
    (o : ℕ) (xs ys : List Value)
    → words_of o (xs ++ ys)
      ≡ (words_of o xs >>= λ a. words_of (o + length xs) ys >>= λ b. ok (a ++ b))
unfolding words_of
words_of-append o [] ys = rw (add-zero o) (sym (>>=-ok (words_of o ys)))
words_of-append o (x ∷ xs) ys = simp (>>=_assoc, words_of-append (suc o) xs ys, suc-add, add-suc)

pub words_of-IsWord : (o : ℕ) (ws xs : List ℕ) → words_of o (map nat ws) ≡ ok xs → All IsWord ws
unfolding words_of
words_of-IsWord o [] xs h = tt
words_of-IsWord o (w ∷ ws) xs h =
    let (x, e, h') = >>=-eq-ok (validate_word o (nat w)) _ h in
    let (rest, e', h'') = >>=-eq-ok (words_of (suc o) (map nat ws)) _ h' in
    (ground (arith, validate_word-eq-ok o (nat w) x e), words_of-IsWord (suc o) ws rest e')

-- The first value that is no word stops the validation.
pub words_of-first_bad :
    (o : ℕ) (ws : List ℕ) (v : Value) (vs : List Value) (e : ReportError)
    → All IsWord ws
    → validate_word (o + length ws) v ≡ err e
    → words_of o (map nat ws ++ v ∷ vs) ≡ err e
unfolding words_of
words_of-first_bad o [] v vs e h bad =
    let q : validate_word o v ≡ err e = rw add-zero at bad in rw q
words_of-first_bad o (w ∷ ws) v vs e h bad = rw (
  validate_word-nat o w h.0,
  words_of-first_bad (suc o) ws v vs e h.1 (rw (suc-add, ← add-suc) bad),
)

pub map-nat_injective : (xs ys : List ℕ) → map nat xs ≡ map nat ys → xs ≡ ys
map-nat_injective [] [] h = refl
map-nat_injective [] (y ∷ ys) h = cc
map-nat_injective (x ∷ xs) [] h = cc
map-nat_injective (x ∷ xs) (y ∷ ys) h = cc (map-nat_injective xs ys (cc))
