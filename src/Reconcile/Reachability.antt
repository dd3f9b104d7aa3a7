-- ===== src/Reconcile/Reachability.antt =====
-- `_reconcile_imp` of ncc/reconciliation.py: whether the reports of an IMP arrive, and whether its
-- neighbors show that it is cut off. The dictionary of endpoint observations is a function.
pub mod Peers
pub mod Partition
pub mod Independent
use arpanet_redux.Prelude.{
  ℕ, Bool, true, false, not, ◌&&◌, ◌||◌, Option, none, some, List, [], ◌∷◌, ◌++◌, leb, ◌==◌,
  if◌then◌else◌, Result, ok, err, ◌>>=◌, length,
}
use arpanet_redux.Events.{NccEvent}
use arpanet_redux.Reconcile.{
  ImpState, DirectState, Endpoint, NominalLine, ReconciliationError, same_endpoint, peer,
  local_endpoint, incident_lines, EndpointObservation, ImpObservation, ReconciledImp,
}
use arpanet_redux.Reconcile.Conditions.{expired, sorted}

abbrev pub is_down : DirectState → Bool
is_down DirectState.down = true
is_down _ = false

-- The guard of the loop over the incident lines.
abbrev pub counts_down : Option EndpointObservation → ℕ → ℕ → Bool
counts_down none current interval = false
counts_down (some o) current interval =
    not (expired o.observed_at current interval) && (o.matches_topology && is_down o.state)

abbrev pub keep_if :
    Bool → Option EndpointObservation → List EndpointObservation → List EndpointObservation
keep_if true (some o) os = o ∷ os
keep_if true none os = os
keep_if false o os = os

unfoldable pub peer_down :
    List NominalLine
    → ℕ
    → (Endpoint → Option EndpointObservation)
    → ℕ
    → ℕ
    → Result ReconciliationError (List EndpointObservation)
peer_down [] imp observations current interval = ok []
peer_down (l ∷ lines) imp observations current interval = do
  local ← local_endpoint l imp
  far ← peer l local
  rest ← peer_down lines imp observations current interval
  ok (keep_if (counts_down (observations far) current interval) (observations far) rest)

abbrev pub sequences_of : List EndpointObservation → List ℕ
sequences_of [] = []
sequences_of (o ∷ os) = o.event.sequence ∷ sequences_of os

abbrev pub report_sequences : Option ImpObservation → List ℕ
report_sequences none = []
report_sequences (some r) = r.event.sequence ∷ []

-- `report_stale or report_missing`
abbrev pub overdue : Option ImpObservation → ℕ → ℕ → ℕ → Bool
overdue none started current interval = expired started current interval
overdue (some r) started current interval = expired r.observed_at current interval

-- The result before the peers are asked: a report in time, or none yet due.
abbrev pub in_time : ℕ → Option ImpObservation → ReconciledImp
in_time n none = record { imp = n; state = ImpState.unknown; supporting_sequences = [] }
in_time n (some r) = record {
  imp = n;
  state = ImpState.up;
  supporting_sequences = r.event.sequence ∷ [];
}

-- The result behind the loop, from the observations in `peer_down`.
abbrev pub out_of_reach :
    ℕ → Option ImpObservation → List NominalLine → List EndpointObservation → ReconciledImp
out_of_reach n report incident downs =
    if leb 2 (length downs) && (length downs == length incident)
    then record {
      imp = n;
      state = ImpState.partitioned;
      supporting_sequences = sorted (report_sequences report ++ sequences_of downs);
    }
    else record {
      imp = n;
      state = ImpState.stale;
      supporting_sequences = sorted (report_sequences report);
    }

unfoldable pub reconcile_imp :
    ℕ
    → List NominalLine
    → (Endpoint → Option EndpointObservation)
    → Option ImpObservation
    → ℕ
    → ℕ
    → ℕ
    → Result ReconciliationError ReconciledImp
unfolding peer_down
reconcile_imp n lines observations report started current interval =
    if not (overdue report started current interval)
    then ok (in_time n report)
    else (peer_down (incident_lines lines n) n observations current interval >>= λ downs.
        ok (out_of_reach n report (incident_lines lines n) downs))
