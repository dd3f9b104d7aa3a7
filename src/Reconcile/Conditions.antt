-- ===== src/Reconcile/Conditions.antt =====
-- The conditions of ncc/reconciliation.py: freshness, the state of an end of a line, and the pairing
-- of its two ends.
use arpanet_redux.Prelude.{
  ℕ, ◌+◌, Bool, true, false, not, ◌&&◌, ◌||◌, Option, none, some, List, [], ◌∷◌, ◌++◌, ltb, leb,
  if◌then◌else◌,
}
use arpanet_redux.Reconcile.{
  LineState, DirectState, Endpoint, NominalLine, same_endpoint, minus_endpoint, plus_endpoint,
  EndpointObservation, Direction, ReconciledEndpoint, ReconciledLine,
}
use arpanet_redux.Reconcile.Direction.{minus, plus}

-- `current - observed > interval`, a difference of instants that may be negative.
abbrev pub expired : ℕ → ℕ → ℕ → Bool
expired observed current interval = ltb (observed + interval) current

-- `sorted`
abbrev pub insert : ℕ → List ℕ → List ℕ
insert n [] = n ∷ []
insert n (m ∷ ms) = let rest = insert n ms in if leb n m then n ∷ m ∷ ms else m ∷ rest

abbrev pub sorted : List ℕ → List ℕ
sorted [] = []
sorted (n ∷ ns) = insert n (sorted ns)

-- `LineState(observation.state)`
abbrev pub line_state_of : DirectState → LineState
line_state_of DirectState.up = LineState.up
line_state_of DirectState.down = LineState.down
line_state_of DirectState.looped = LineState.looped
line_state_of DirectState.unknown = LineState.unknown

unfoldable pub paired_line_state : DirectState → DirectState → LineState
paired_line_state DirectState.up DirectState.up = LineState.up
paired_line_state DirectState.down DirectState.down = LineState.down
paired_line_state DirectState.looped DirectState.looped = LineState.looped
paired_line_state DirectState.unknown _ = LineState.unknown
paired_line_state _ DirectState.unknown = LineState.unknown
paired_line_state DirectState.down DirectState.looped = LineState.contradictory
paired_line_state DirectState.looped DirectState.down = LineState.contradictory
paired_line_state DirectState.down DirectState.up = LineState.minus_down
paired_line_state DirectState.up DirectState.down = LineState.plus_down
paired_line_state DirectState.looped DirectState.up = LineState.minus_looped
paired_line_state DirectState.up DirectState.looped = LineState.plus_looped

abbrev pub observed_state : EndpointObservation → ℕ → ℕ → LineState
observed_state o current interval =
    if expired o.observed_at current interval
    then LineState.stale
    else if not o.matches_topology
    then LineState.contradictory
    else line_state_of o.state

abbrev pub direction_of : NominalLine → Endpoint → Direction
direction_of l e = if same_endpoint e (minus_endpoint l) then minus else plus

unfoldable pub reconcile_endpoint :
    NominalLine → Endpoint → Option EndpointObservation → ℕ → ℕ → ReconciledEndpoint
reconcile_endpoint l e none current interval = record {
  line_id = l.id;
  endpoint = e;
  direction = direction_of l e;
  state = LineState.unknown;
  last_known_state = none;
  observed_at = none;
  topology_match = none;
  supporting_sequences = [];
}
reconcile_endpoint l e (some o) current interval = record {
  line_id = l.id;
  endpoint = e;
  direction = direction_of l e;
  state = observed_state o current interval;
  last_known_state = some o.state;
  observed_at = some o.event.observed_at;
  topology_match = some o.matches_topology;
  supporting_sequences = o.event.sequence ∷ [];
}

abbrev pub is_stale : LineState → Bool
is_stale LineState.stale = true
is_stale _ = false

abbrev pub is_contradictory : LineState → Bool
is_contradictory LineState.contradictory = true
is_contradictory _ = false

abbrev pub is_none {ℓ} : {A : Type ℓ} → Option A → Bool
is_none none = true
is_none (some a) = false

-- The last branch, where the source asserts that both states are known: an end that is observed
-- has one. The value without one is never used.
abbrev pub paired_known : Option DirectState → Option DirectState → Option LineState
paired_known (some m) (some p) = some (paired_line_state m p)
paired_known none _ = none
paired_known _ none = none

-- The state of `_reconcile_line`, `none` standing for the assertion that fails.
unfoldable pub line_condition : ReconciledEndpoint → ReconciledEndpoint → Option LineState
line_condition m p =
    if is_none m.observed_at && is_none p.observed_at
    then some LineState.unknown
    else if is_stale m.state || is_stale p.state
    then some LineState.stale
    else if is_none m.observed_at || is_none p.observed_at
    then some LineState.unknown
    else if is_contradictory m.state || is_contradictory p.state
    then some LineState.contradictory
    else paired_known m.last_known_state p.last_known_state

abbrev pub line_with : NominalLine → List ℕ → Option LineState → Option ReconciledLine
line_with l support none = none
line_with l support (some s) =
    some (record { id = l.id; state = s; supporting_sequences = support })

abbrev pub line_of :
    NominalLine → Option ReconciledEndpoint → Option ReconciledEndpoint → Option ReconciledLine
line_of l none p = none
line_of l (some m) none = none
line_of l (some m) (some p) =
    line_with l (sorted (m.supporting_sequences ++ p.supporting_sequences)) (line_condition m p)

-- `_reconcile_line`, over the lookup of reconciled endpoints; `none` stands for a missing key or the
-- assertion that fails.
unfoldable pub reconcile_line :
    NominalLine → (Endpoint → Option ReconciledEndpoint) → Option ReconciledLine
unfolding line_condition
reconcile_line l endpoints = line_of l (endpoints (minus_endpoint l)) (endpoints (plus_endpoint l))
