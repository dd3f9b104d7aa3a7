-- ===== src/Reconcile/Topology/Laws.antt =====
-- What the checks of a topology accept, and the order of its IMPs.
use arpanet_redux.Prelude.{
  ℕ, ◌<◌, ◌≡◌, ◌≢◌, ◌↔◌, ◌⊎◌, refl, true, not, List, [], ◌∷◌, String, ok, require_three-eq-ok, All,
  ◌>>◌, >>=-eq-ok, sym, ap, ◌∙◌, ◌==◌, ◌||◌, arith,
}
use arpanet_redux.Identifier.{contains_text_iff}
use arpanet_redux.Reconcile.{Endpoint, NominalLine, same_endpoint}
use arpanet_redux.Reconcile.Topology.{
  contains_endpoint, check_lines, nominal_topology, insert_new, imps, contains,
}

pub same_endpoint_iff : (a b : Endpoint) → (same_endpoint a b ≡ true) ↔ (a ≡ b)
same_endpoint_iff a b = ground arith

contains_endpoint_iff :
    (e : Endpoint) (fs : List Endpoint)
    → (not (contains_endpoint e fs) ≡ true) ↔ All (λ f. e ≢ f) fs
contains_endpoint_iff e [] = (λ _. tt, λ _. refl)
contains_endpoint_iff e (f ∷ fs) = ground (arith, same_endpoint_iff e f, contains_endpoint_iff e fs)

-- The name of a line differs from those before it, and so do its two ends from all ends before.
abbrev pub NewFrom : List NominalLine → List String → List Endpoint → Type 0
NewFrom [] ids seen = Unit
NewFrom (l ∷ lines) ids seen =
    All (λ i. l.id ≢ i) ids
    × All (λ e. l.first ≢ e) seen
    × All (λ e. l.second ≢ e) (l.first ∷ seen)
    × NewFrom lines (l.id ∷ ids) (l.second ∷ l.first ∷ seen)

check→NewFrom :
    (lines : List NominalLine) (ids : List String) (seen : List Endpoint)
    → check_lines lines ids seen ≡ ok tt
    → NewFrom lines ids seen
unfolding check_lines
check→NewFrom [] ids seen h = tt
check→NewFrom (l ∷ lines) ids seen h =
    let (a, b, c, rest) = require_three-eq-ok _ _ _ _ _ _ _ h in
    (
      (contains_text_iff l.id ids).0 a,
      (contains_endpoint_iff l.first seen).0 b,
      (contains_endpoint_iff l.second (l.first ∷ seen)).0 c,
      check→NewFrom lines (l.id ∷ ids) (l.second ∷ l.first ∷ seen) rest,
    )

NewFrom→check :
    (lines : List NominalLine) (ids : List String) (seen : List Endpoint)
    → NewFrom lines ids seen
    → check_lines lines ids seen ≡ ok tt
unfolding check_lines
NewFrom→check [] ids seen h = refl
NewFrom→check (l ∷ lines) ids seen (a, b, c, h) =
    rw
      (
        (contains_text_iff l.id ids).1 a,
        (contains_endpoint_iff l.first seen).1 b,
        (contains_endpoint_iff l.second (l.first ∷ seen)).1 c,
      )
      (NewFrom→check lines (l.id ∷ ids) (l.second ∷ l.first ∷ seen) h)

nominal_topology-cons :
    (l : NominalLine) (lines : List NominalLine)
    → nominal_topology (l ∷ lines) ≡ (check_lines (l ∷ lines) [] [] >> ok (l ∷ lines))
unfolding nominal_topology
nominal_topology-cons l lines = refl

-- Lines are accepted as a topology exactly when there is one and no name and no end occurs twice.
pub nominal_topology-NewFrom :
    (lines : List NominalLine)
    → (nominal_topology lines ≡ ok lines) ↔ ((lines ≢ []) × NewFrom lines [] [])
unfolding nominal_topology
nominal_topology-NewFrom [] = (λ h. cc, λ h. absurd (h.0 refl))
nominal_topology-NewFrom (l ∷ lines) =
    let passed = λ (h : check_lines (l ∷ lines) [] [] ≡ ok tt). ap (λ r. r >> ok (l ∷ lines)) h in
    (
      λ h.
          let (u, e, _) =
            >>=-eq-ok (check_lines (l ∷ lines) [] []) (λ _. ok (l ∷ lines))
              (sym (nominal_topology-cons l lines) ∙ h) in
          (λ p. cc, check→NewFrom (l ∷ lines) [] [] e),
      λ h. nominal_topology-cons l lines ∙ passed (NewFrom→check (l ∷ lines) [] [] h.1),
    )

-- A sorted list without repetition, all of it above `n`.
abbrev pub Ascending : List ℕ → Type 0
Ascending [] = Unit
Ascending (n ∷ ns) = All (λ m. n < m) ns × Ascending ns

All-insert_new : (P : ℕ → Type 0) (n : ℕ) (ms : List ℕ) → P n → All P ms → All P (insert_new n ms)
All-insert_new P n [] p h = (p, tt)
All-insert_new P n (m ∷ ms) p (q, h) = ground (arith, All-insert_new P n ms p h)

below_of_lt : (n m : ℕ) (ms : List ℕ) → n < m → All (λ k. m < k) ms → All (λ k. n < k) ms
below_of_lt n m [] h a = tt
below_of_lt n m (k ∷ ms) h (b, a) = (omega arith, below_of_lt n m ms h a)

insert_new-Ascending : (n : ℕ) (ms : List ℕ) → Ascending ms → Ascending (insert_new n ms)
insert_new-Ascending n [] h = (tt, tt)
insert_new-Ascending n (m ∷ ms) (a, h) =
    ground
      (arith, insert_new-Ascending n ms h, All-insert_new (λ k. m < k) n ms, below_of_lt n m ms)

contains-insert_new :
    (n k : ℕ) (ms : List ℕ) → contains k (insert_new n ms) ≡ (k == n || contains k ms)
contains-insert_new n k [] = ground arith
contains-insert_new n k (m ∷ ms) = ground (arith, contains-insert_new n k ms)

-- The IMP is at an end of one of the lines.
abbrev pub Ends : ℕ → List NominalLine → Type 0
Ends n [] = ⊥
Ends n (l ∷ lines) = (n ≡ l.first.imp) ⊎ (n ≡ l.second.imp) ⊎ Ends n lines

-- The IMPs of a topology are listed in ascending order, each once, and they are those at the ends of
-- its lines.
pub imps-Ascending :
    (lines : List NominalLine)
    → Ascending (imps lines) × ((n : ℕ) → (contains n (imps lines) ≡ true) ↔ Ends n lines)
unfolding imps
imps-Ascending [] = (tt, λ n. ground arith)
imps-Ascending (l ∷ lines) =
    let (a, c) = imps-Ascending lines in
    (
      insert_new-Ascending l.first.imp (insert_new l.second.imp (imps lines))
          (insert_new-Ascending l.second.imp (imps lines) a),
      λ n. ground (
        arith,
        c n,
        contains-insert_new l.second.imp n (imps lines),
        contains-insert_new l.first.imp n (insert_new l.second.imp (imps lines)),
      ),
    )
