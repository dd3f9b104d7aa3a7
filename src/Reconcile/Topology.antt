-- ===== src/Reconcile/Topology.antt =====
-- The nominal topology of ncc/reconciliation.py: the checks of its ends, its lines and of the whole,
-- as they are made when such a value is built.
pub mod Laws
use arpanet_redux.Prelude.{
  ℕ, Bool, true, false, not, ◌&&◌, ◌||◌, List, [], ◌∷◌, String, ltb, leb, ◌==◌, if◌then◌else◌,
  Result, ok, err, ◌>>=◌, ◌>>◌, require, same_text, characters,
}
use arpanet_redux.Identifier.{is_identifier, contains_text}
use arpanet_redux.Reconcile.{
  Endpoint, NominalLine, ReconciliationError, bad_endpoint, unstable_id, repeated_endpoint, one_imp,
  empty_topology, duplicate_line, reused_endpoint, same_endpoint,
}

-- The numbers are natural, so that only 0 is refused.
unfoldable pub endpoint : ℕ → ℕ → Result ReconciliationError Endpoint
endpoint imp interface = do
  require (not (imp == 0)) bad_endpoint
  require (not (interface == 0)) bad_endpoint
  ok (record { imp = imp; interface = interface })

unfoldable pub nominal_line : String → Endpoint → Endpoint → Result ReconciliationError NominalLine
unfolding is_identifier
nominal_line id first second = do
  require (is_identifier id) unstable_id
  require (not (same_endpoint first second)) repeated_endpoint
  require (not (first.imp == second.imp)) one_imp
  ok (record { id = id; first = first; second = second })

abbrev pub contains_endpoint : Endpoint → List Endpoint → Bool
contains_endpoint e [] = false
contains_endpoint e (f ∷ fs) = same_endpoint e f || contains_endpoint e fs

-- The loop over the lines; `ids` and `seen` are the sets `line_ids` and `endpoints`.
unfoldable pub check_lines :
    List NominalLine → List String → List Endpoint → Result ReconciliationError (Unit {0})
check_lines [] ids seen = ok tt
check_lines (l ∷ lines) ids seen = do
  require (not (contains_text l.id ids)) (duplicate_line l.id)
  require (not (contains_endpoint l.first seen)) (reused_endpoint l.first)
  require (not (contains_endpoint l.second (l.first ∷ seen))) (reused_endpoint l.second)
  check_lines lines (l.id ∷ ids) (l.second ∷ l.first ∷ seen)

unfoldable pub nominal_topology : List NominalLine → Result ReconciliationError (List NominalLine)
unfolding check_lines
nominal_topology [] = err empty_topology
nominal_topology (l ∷ lines) = do check_lines (l ∷ lines) [] []; ok (l ∷ lines)

-- `sorted` of a set: a number that is there already is not put in again.
abbrev pub insert_new : ℕ → List ℕ → List ℕ
insert_new n [] = n ∷ []
insert_new n (m ∷ ms) =
    let rest = insert_new n ms in
    if n == m then m ∷ ms else if ltb n m then n ∷ m ∷ ms else m ∷ rest

-- The property `imps`.
unfoldable pub imps : List NominalLine → List ℕ
imps [] = []
imps (l ∷ lines) = insert_new l.first.imp (insert_new l.second.imp (imps lines))

abbrev pub contains : ℕ → List ℕ → Bool
contains n [] = false
contains n (m ∷ ms) = n == m || contains n ms
