-- ===== src/Report/Checksum/Validity.antt =====
-- What the checksum promises: it is the one word that makes a report valid, and it shows damage.
use arpanet_redux.Prelude.{
  ℕ, ◌+◌, ◌-◌, ◌%◌, ◌<◌, ◌≡◌, ◌≢◌, ◌↔◌, refl, sym, ap, ◌∙◌, true, false, List, [], ◌∷◌, ◌++◌, map,
  ◌==◌, ok, err, ok-injective, length, All, All-append, All-append_inv, arith,
}
use mathlib.Core.List.{map-append}
use native.Mathlib.Nat.{zero-add}
use arpanet_redux.Report.Checksum.{
  Value, nat, ReportError, validate_word, words_of, report_checksum, has_valid_report_checksum,
}
use arpanet_redux.Report.Checksum.Laws.{
  IsWord, sum, sum-append, words_of-eq-ok, checksum_loop-eq, has_valid-words, report_checksum-words,
  report_checksum-IsWord, has_valid-IsWord, words_of-IsWord, words_of-first_bad,
}

-- Words whose last one is known.
map-nat_last :
    (payload : List Value) (c : ℕ) (ws : List ℕ)
    → payload ++ nat c ∷ [] ≡ map nat ws
    → All IsWord ws
    → (ps : List ℕ) × (payload ≡ map nat ps) × All IsWord ps × IsWord c × (ws ≡ ps ++ c ∷ [])
map-nat_last [] c [] e h = cc
map-nat_last [] c (w ∷ []) e h = ([], refl, tt, ground arith, cc)
map-nat_last [] c (w ∷ w' ∷ ws) e h = cc
map-nat_last (v ∷ vs) c [] e h = cc
map-nat_last (v ∷ vs) c (w ∷ ws) e h =
    let (ps, e', hs, hc, e'') = map-nat_last vs c ws (cc) h.1 in (w ∷ ps, cc, (h.0, hs), hc, cc)

checksum_cancels : (s c : ℕ) → c ≡ (65536 - s % 65536) % 65536 → ((s + (c + 0)) % 65536 == 0) ≡ true
checksum_cancels s c h = ground arith

checksum_of_cancel :
    (s c : ℕ) → c < 65536 → ((s + (c + 0)) % 65536 == 0) ≡ true → (65536 - s % 65536) % 65536 ≡ c
checksum_of_cancel s c b h = ground arith

has_valid-last :
    (ws : List ℕ) (c : ℕ)
    → All IsWord ws
    → IsWord c
    → has_valid_report_checksum (map nat ws ++ nat c ∷ []) ≡ ok ((sum ws + (c + 0)) % 65536 == 0)
has_valid-last ws c h hc =
    ap has_valid_report_checksum (sym (map-append nat ws (c ∷ [])))
    ∙ has_valid-words (ws ++ c ∷ []) (All-append IsWord ws (c ∷ []) (h, (hc, tt)))
    ∙ ap (λ (n : ℕ). ok (n % 65536 == 0)) (sum-append ws (c ∷ []))

report_checksum→has_valid :
    (payload : List Value) (c : ℕ)
    → report_checksum payload ≡ ok c
    → has_valid_report_checksum (payload ++ nat c ∷ []) ≡ ok true
report_checksum→has_valid payload c h =
    let (ws, e) = report_checksum-IsWord payload c h in
    let (p, hs) = words_of-eq-ok 0 payload ws e in
    let q : c ≡ (65536 - sum ws % 65536) % 65536 =
      ok-injective (sym h ∙ ap report_checksum p ∙ report_checksum-words ws hs) in
    ap (λ vs. has_valid_report_checksum (vs ++ nat c ∷ [])) p
    ∙ has_valid-last ws c hs (omega arith)
    ∙ ap ok (checksum_cancels (sum ws) c q)

has_valid→report_checksum :
    (payload : List Value) (c : ℕ)
    → has_valid_report_checksum (payload ++ nat c ∷ []) ≡ ok true
    → report_checksum payload ≡ ok c
has_valid→report_checksum payload c h =
    let (ws, e) = has_valid-IsWord (payload ++ nat c ∷ []) true h in
    let (p, hs) = words_of-eq-ok 0 (payload ++ nat c ∷ []) ws e in
    let (ps, p', hps, hc, _) = map-nat_last payload c ws p hs in
    let q =
      sym (has_valid-last ps c hps hc)
      ∙ ap (λ vs. has_valid_report_checksum (vs ++ nat c ∷ [])) (sym p')
      ∙ h in
    ap report_checksum p'
    ∙ report_checksum-words ps hps
    ∙ ap ok (checksum_of_cancel (sum ps) c hc (ok-injective q))

-- A payload has the checksum `c` exactly when the report that ends in `c` is valid.
pub report_checksum-has_valid :
    (payload : List Value) (c : ℕ)
    → (report_checksum payload ≡ ok c)
      ↔ (has_valid_report_checksum (payload ++ nat c ∷ []) ≡ ok true)
report_checksum-has_valid payload c =
    (report_checksum→has_valid payload c, has_valid→report_checksum payload c)

sum_damaged :
    (a b w w' : ℕ)
    → w < 65536
    → w' < 65536
    → w ≢ w'
    → (a + (w + b)) % 65536 ≡ 0
    → ((a + (w' + b)) % 65536 == 0) ≡ false
sum_damaged a b w w' hw hw' ne h = ground arith

-- A valid report in which any one word is changed to another word is not valid.
pub has_valid-damage :
    (front back : List ℕ) (w w' : ℕ)
    → has_valid_report_checksum (map nat (front ++ w ∷ back)) ≡ ok true
    → w ≢ w'
    → IsWord w'
    → has_valid_report_checksum (map nat (front ++ w' ∷ back)) ≡ ok false
has_valid-damage front back w w' h ne hw' =
    let (xs, e) = has_valid-IsWord (map nat (front ++ w ∷ back)) true h in
    let (hf, hb) =
      All-append_inv IsWord front (w ∷ back) (words_of-IsWord 0 (front ++ w ∷ back) xs e) in
    let q = ok-injective (
      sym (has_valid-words (front ++ w ∷ back) (All-append IsWord front (w ∷ back) (hf, hb)))
      ∙ h) in
    has_valid-words (front ++ w' ∷ back) (All-append IsWord front (w' ∷ back) (hf, (hw', hb.1)))
    ∙ ap ok (
        ap (λ (n : ℕ). n % 65536 == 0) (sum-append front (w' ∷ back))
        ∙ sum_damaged (sum front) (sum back) w w' hb.0 hw' ne
            (ground (arith, sum-append front (w ∷ back))))

-- Both functions raise for the first value that is no word, with its offset.
pub first_bad_word :
    (ws : List ℕ) (v : Value) (vs : List Value) (e : ReportError)
    → All IsWord ws
    → validate_word (length ws) v ≡ err e
    → (report_checksum (map nat ws ++ v ∷ vs) ≡ err e)
      × (has_valid_report_checksum (map nat ws ++ v ∷ vs) ≡ err e)
unfolding report_checksum has_valid_report_checksum words_of
first_bad_word ws v vs e h bad =
    let q = words_of-first_bad 0 ws v vs e h (rw zero-add bad) in
    (
      rw (checksum_loop-eq 0 0 (map nat ws ++ v ∷ vs) (omega arith), q),
      rw (checksum_loop-eq 0 0 (map nat ws ++ v ∷ vs) (omega arith), q),
    )
