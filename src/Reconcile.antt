-- ===== src/Reconcile.antt =====
-- ncc/reconciliation.py: the nominal topology of lines between IMPs, and what the reducer keeps and
-- returns. An instant is a number of microseconds, an interval too. The children have the conditions
-- of lines and of IMPs, with what decides them, and the order of the events.
pub mod Topology
pub mod Observe
pub mod Conditions
pub mod Lines
pub mod Mirror
pub mod Order
pub mod Reduce
pub mod Reachability
use arpanet_redux.Prelude.{
  ℕ, Bool, true, false, ◌&&◌, ◌||◌, Option, none, some, List, [], ◌∷◌, String, ltb, leb, ◌==◌,
  if◌then◌else◌, Result, ok, err,
}
use arpanet_redux.Events.{NccEvent}

pub data LineState : Type 0 where
  up down looped minus_down plus_down minus_looped plus_looped unknown stale contradictory :
      LineState

pub data ImpState : Type 0 where
  up unknown stale partitioned : ImpState

-- The four members of `_DIRECT_LINE_STATES`.
pub data DirectState : Type 0 where
  up down looped unknown : DirectState

pub record Endpoint : Type 0 where
  pub imp : ℕ
  pub interface : ℕ

pub record NominalLine : Type 0 where
  pub id : String
  pub first : Endpoint
  pub second : Endpoint

-- The errors, each with the number, the line or the end that it names. `no_endpoint` is raised by
-- `next`, and `lookup_failed` stands for a missing key and for the assertion in `_reconcile_line`.
pub data ReconciliationError : Type 0 where
  bad_endpoint unstable_id repeated_endpoint one_imp empty_topology : ReconciliationError
  duplicate_line : String → ReconciliationError
  reused_endpoint : Endpoint → ReconciliationError
  before_start bad_interval before_observation : ReconciliationError
  bad_timestamp sequence_order timestamp_order future_event : ReconciliationError
  not_direct wrong_source unsupported_state wrong_subject not_report : ℕ → ReconciliationError
  not_an_end no_endpoint lookup_failed : ReconciliationError

abbrev pub same_endpoint : Endpoint → Endpoint → Bool
same_endpoint a b = a.imp == b.imp && (a.interface == b.interface)

-- The order of the dataclass: by the IMP, then by the interface.
abbrev pub before : Endpoint → Endpoint → Bool
before a b = ltb a.imp b.imp || (a.imp == b.imp && ltb a.interface b.interface)

abbrev pub minus_endpoint : NominalLine → Endpoint
minus_endpoint l = if before l.second l.first then l.second else l.first

abbrev pub plus_endpoint : NominalLine → Endpoint
plus_endpoint l = if before l.first l.second then l.second else l.first

abbrev pub peer : NominalLine → Endpoint → Result ReconciliationError Endpoint
peer l e =
    if same_endpoint e l.first
    then ok l.second
    else if same_endpoint e l.second
    then ok l.first
    else err not_an_end

-- `next(endpoint for endpoint in line.endpoints if endpoint.imp == imp)`
abbrev pub local_endpoint : NominalLine → ℕ → Result ReconciliationError Endpoint
local_endpoint l imp =
    if l.first.imp == imp
    then ok l.first
    else if l.second.imp == imp
    then ok l.second
    else err no_endpoint

abbrev pub incident_lines : List NominalLine → ℕ → List NominalLine
incident_lines [] imp = []
incident_lines (l ∷ lines) imp =
    let rest = incident_lines lines imp in
    if imp == l.first.imp || imp == l.second.imp then l ∷ rest else rest

-- `state` is one of the direct states, since an observation is only made of an event that
-- `_validate_endpoint_event` has passed.
pub record EndpointObservation : Type 0 where
  pub event : NccEvent
  pub observed_at : ℕ
  pub state : DirectState
  pub matches_topology : Bool

pub record ImpObservation : Type 0 where
  pub event : NccEvent
  pub observed_at : ℕ

pub data Direction : Type 0 where
  minus plus : Direction

pub record ReconciledEndpoint : Type 0 where
  pub line_id : String
  pub endpoint : Endpoint
  pub direction : Direction
  pub state : LineState
  pub last_known_state : Option DirectState
  pub observed_at : Option String
  pub topology_match : Option Bool
  pub supporting_sequences : List ℕ

pub record ReconciledLine : Type 0 where
  pub id : String
  pub state : LineState
  pub supporting_sequences : List ℕ

pub record ReconciledImp : Type 0 where
  pub imp : ℕ
  pub state : ImpState
  pub supporting_sequences : List ℕ

pub record Reconciliation : Type 0 where
  pub lines : List ReconciledLine
  pub imps : List ReconciledImp
  pub endpoints : List ReconciledEndpoint
